-- ===== src/Files/RoundTrip.antt =====
-- A file that is uploaded can be downloaded again: services/file_service/src/FileServiceImpl.cpp.
use wizz_mania.Prelude.{
  ◌≡◌, refl, ap, ◌∙◌, sym, subst, Bool, false, List, [], ◌∷◌, length, arith, All, Option, none,
  some, if◌then◌else◌,
}
use wizz_mania.Prelude.Text.{Str}
use wizz_mania.Prelude.Maps.{lookup, lookup-assign}
use wizz_mania.Grpc.{Status, success, failed, internal, not_found}
use wizz_mania.Files.Disk.{
  FileService, StoredFile, FileMetadata, UploadChunk, DownloadChunk, stream_chunk_size,
  generate_file_id, to_proto,
}
use wizz_mania.Files.Upload.{new_file, upload}
use wizz_mania.Files.Serve.{download, find_file, open_input, get_metadata, send_chunks}
use wizz_mania.Files.Chunks.{
  received, IsFlagged, Fits, send_chunks-received, send_chunks-IsFlagged, send_chunks-Fits,
}
use wizz_mania.Files.Stream.{sent, filled, filled-lookup, filled-faults}
use wizz_mania.Files.Acceptance.{IsUpload, id_of, file_of, opening, stored_by, upload-ok}

pub find_file-stored :
    (c : UploadChunk) (cs : List UploadChunk) (s : FileService)
    → find_file (id_of s) (stored_by c cs s) ≡ some (file_of c cs s)
unfolding find_file new_file
find_file-stored c cs s = ap shown (
    lookup-assign (id_of s) (file_of c cs s)
      (filled (c ∷ cs) (new_file c s).0.file_path (opening c s)).files)
  where
    shown : Option StoredFile → Option StoredFile
    shown o = elim o [ none ↦ none | some file ↦ if file.deleted then none else some file ]

-- On a disk that works, `GetMetadata` tells of a file that `Upload` took what the first chunk
-- said, and the size of what was sent.
pub get_metadata-upload :
    (c : UploadChunk) (cs : List UploadChunk) (s : FileService) (requester : Str)
    → s.disk_faults ≡ []
    → IsUpload c cs
    → get_metadata (record { file_id = id_of s; requester_id = requester }) (upload (c ∷ cs) s).1
      ≡ (
        success,
        some (record {
          file_id = id_of s;
          conversation_id = c.conversation_id;
          owner_id = c.owner_id;
          file_name = c.file_name;
          media_type = c.media_type;
          size_bytes = length (sent (c ∷ cs));
          created_at_epoch = s.now;
          deleted = false;
        }),
      )
unfolding get_metadata generate_file_id to_proto new_file
get_metadata-upload c cs s requester good u =
    ap (λ r. get_metadata (record { file_id = id_of s; requester_id = requester }) r.1)
      (upload-ok c cs s good u)
    ∙ ap told (find_file-stored c cs s)
  where
    told : Option StoredFile → Status × Option FileMetadata
    told o = elim o [
      | none ↦ (failed not_found "Unknown file", none)
      | some file ↦ (success, some (to_proto file))
    ]

open_input-ok :
    (path : Str) (s : FileService)
    → s.disk_faults ≡ []
    → open_input path s ≡ (lookup path s.entries, s)
unfolding open_input
open_input-ok path s good =
    subst
      (λ f.
        open_input path (record s { disk_faults = f })
        ≡ (lookup path s.entries, record s { disk_faults = f }))
      (sym good) refl

abbrev serve :
    List (Option Bool) → Option Str × FileService → (Status × List DownloadChunk) × FileService
serve writes (input, s) = elim input [
  | none ↦ ((failed internal "File missing on disk", []), s)
  | some bytes ↦ ((success, send_chunks stream_chunk_size (length bytes) bytes writes), s)
]

download-stored :
    (c : UploadChunk) (cs : List UploadChunk) (s : FileService) (requester : Str)
    → s.disk_faults ≡ []
    → download (record { file_id = id_of s; requester_id = requester }) [] (stored_by c cs s) ≡ (
      (success, send_chunks stream_chunk_size (length (sent (c ∷ cs))) (sent (c ∷ cs)) []),
      stored_by c cs s,
    )
unfolding download generate_file_id new_file
download-stored c cs s requester good =
    ap found (find_file-stored c cs s)
    ∙ (ap (serve []) (
          open_input-ok (new_file c s).0.file_path (stored_by c cs s)
            (filled-faults (c ∷ cs) (new_file c s).0.file_path (opening c s) ∙ good))
        ∙ ap (λ o. serve [] (o, stored_by c cs s))
            (filled-lookup (c ∷ cs) (new_file c s).0.file_path [] (opening c s)
              (lookup-assign (new_file c s).0.file_path [] s.entries)))
  where
    found : Option StoredFile → (Status × List DownloadChunk) × FileService
    found o = elim o [
      | none ↦ ((failed not_found "Unknown file", []), stored_by c cs s)
      | some file ↦ serve [] (open_input file.file_path (stored_by c cs s))
    ]

-- On a disk that works, a client that downloads what `Upload` took from a stream with a name, an
-- owner, a last chunk and no false size, and that takes every chunk, receives what was sent: in
-- chunks of one byte at least and 64 KiB at most, of which the last one alone has the flag
-- `last_chunk`.
pub download-upload :
    (c : UploadChunk) (cs : List UploadChunk) (s : FileService) (requester : Str)
    → s.disk_faults ≡ []
    → IsUpload c cs
    → (chunks : List DownloadChunk) × ((download
          (record { file_id = id_of s; requester_id = requester })
          []
          (upload (c ∷ cs) s).1).0
        ≡ (success, chunks))
      × (received chunks ≡ sent (c ∷ cs))
      × IsFlagged chunks
      × All (Fits stream_chunk_size) chunks
download-upload c cs s requester good u =
    let bytes = sent (c ∷ cs) in
    (
      send_chunks stream_chunk_size (length bytes) bytes [],
      ap (λ r. (download (record { file_id = id_of s; requester_id = requester }) [] r.1).0)
            (upload-ok c cs s good u)
          ∙ ap (λ r. r.0) (download-stored c cs s requester good),
      send_chunks-received 65535 (length bytes) bytes (omega arith),
      send_chunks-IsFlagged 65535 (length bytes) bytes (omega arith),
      send_chunks-Fits 65535 (length bytes) bytes [],
    )
