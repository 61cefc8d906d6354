-- ===== src/Files/Serve.antt =====
-- `Download`, `Delete` and `GetMetadata` of services/file_service/src/FileServiceImpl.cpp.
use wizz_mania.Prelude.{
  ℕ, zero, suc, Bool, true, false, ◌&&◌, not, List, [], ◌∷◌, length, take, drop, Option, none, some,
  if◌then◌else◌,
}
use wizz_mania.Prelude.Text.{Str, empty, str_eq}
use wizz_mania.Prelude.Maps.{lookup, assign}
use wizz_mania.Sql.{next_event, later_events}
use wizz_mania.Grpc.{
  Status, success, failed, invalid_argument, not_found, permission_denied, internal,
}
use wizz_mania.Files.Disk.{
  StoredFile, FileService, DownloadChunk, FileRequest, FileMetadata, stream_chunk_size, to_proto,
  try_remove,
}

-- `files_.find(…)`, less the deleted files.
unfoldable pub find_file : Str → FileService → Option StoredFile
find_file id s = elim (lookup id s.files) [
  | none ↦ none
  | some file ↦ if file.deleted then none else some file
]

-- The loop of `Download` over what is left of the file: `writes` tells for each `Write` whether
-- the client takes the chunk, and the result is what is handed to `Write`. The buffer has
-- `size` bytes.
unfoldable pub send_chunks : ℕ → ℕ → Str → List (Option Bool) → List DownloadChunk
send_chunks size zero rest writes = []
send_chunks size (suc fuel) rest writes =
    let chunk : DownloadChunk = record {
      cipher_chunk = take size rest;
      last_chunk = empty (drop size rest);
    } in
    let others = send_chunks size fuel (drop size rest) (later_events writes) in
    if empty rest
    then []
    else elim (next_event writes) [ none ↦ chunk ∷ others | some b ↦ chunk ∷ [] ]

-- `std::ifstream input(path, std::ios::binary)`, and the bytes of the file where it is open.
unfoldable pub open_input : Str → FileService → Option Str × FileService
open_input path s =
    let s' = record s { disk_faults = later_events s.disk_faults } in
    elim (next_event s.disk_faults) [ none ↦ (lookup path s.entries, s') | some n ↦ (none, s') ]

unfoldable pub download :
    FileRequest → List (Option Bool) → FileService → (Status × List DownloadChunk) × FileService
unfolding find_file open_input send_chunks
download req writes s =
    if empty req.file_id
    then ((failed invalid_argument "file_id is required", []), s)
    else elim (find_file req.file_id s) [
      | none ↦ ((failed not_found "Unknown file", []), s)
      | some file ↦
          let (input, s') = open_input file.file_path s in
          elim input [
            | none ↦ ((failed internal "File missing on disk", []), s')
            | some bytes ↦
                ((success, send_chunks stream_chunk_size (length bytes) bytes writes), s')
          ]
    ]

-- `Delete`, with the `success` of its response.
unfoldable pub delete_file : FileRequest → FileService → (Status × Bool) × FileService
unfolding find_file try_remove
delete_file req s =
    if empty req.file_id
    then ((failed invalid_argument "file_id is required", false), s)
    else elim (find_file req.file_id s) [
      | none ↦ ((failed not_found "Unknown file", false), s)
      | some file ↦
          if not (empty req.requester_id) && not (str_eq req.requester_id file.owner_id)
          then ((failed permission_denied "Not owner of file", false), s)
          else (
            (success, true),
            record (try_remove file.file_path s) {
              files = assign req.file_id (record file { deleted = true }) s.files;
            },
          )
    ]

unfoldable pub get_metadata : FileRequest → FileService → Status × Option FileMetadata
unfolding find_file to_proto
get_metadata req s =
    if empty req.file_id
    then (failed invalid_argument "file_id is required", none)
    else elim (find_file req.file_id s) [
      | none ↦ (failed not_found "Unknown file", none)
      | some file ↦ (success, some (to_proto file))
    ]
