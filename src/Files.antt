-- ===== src/Files.antt =====
-- The file service, services/file_service/src/FileServiceImpl.{h,cpp}.
pub mod Disk
pub mod Upload
pub mod Serve
pub mod Chunks
pub mod Stream
pub mod Acceptance
pub mod RoundTrip
pub mod Failure
pub mod Deletion
pub mod Apart
pub mod Shelf
pub mod Discard
