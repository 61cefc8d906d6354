-- ===== src/Examples/Files.antt =====
-- Concrete files: services/file_service/src/FileServiceImpl.cpp.
use wizz_mania.Prelude.{◌+◌, ◌≡◌, refl, ◌⊎◌, inr, true, false, List, [], ◌∷◌, none, some, All}
use wizz_mania.Prelude.Text.{Str, codes, str_eq, str_eq_refl}
use wizz_mania.Prelude.Int.{pos}
use wizz_mania.Prelude.Maps.{lookup}
use wizz_mania.Grpc.{success, failed, not_found}
use wizz_mania.Files.Disk.{
  join_path, FileService, StoredFile, FileRequest, UploadChunk, DownloadChunk, stream_chunk_size,
}
use wizz_mania.Files.Upload.{upload}
use wizz_mania.Files.Serve.{send_chunks, download, get_metadata, delete_file, find_file}
use wizz_mania.Files.Chunks.{send_chunks-fuel, received, IsFlagged, Fits}
use wizz_mania.Files.Stream.{sent}
use wizz_mania.Files.Acceptance.{IsUpload, id_of, file_of}
use wizz_mania.Files.RoundTrip.{get_metadata-upload, download-upload}
use wizz_mania.Files.Shelf.{InPlace, shelf_of, put_on, upload-put_on}
use wizz_mania.Files.Discard.{discard, delete_file-discard}
use wizz_mania.Files.Failure.{upload-IsSafe}
use wizz_mania.Files.Deletion.{left_over, delete_file-hides}

abbrev note : StoredFile
note = record {
  file_id = codes "file_1";
  conversation_id = codes "room:1";
  owner_id = codes "7";
  file_name = codes "note.txt";
  media_type = codes "text/plain";
  size_bytes = 2;
  created_at_epoch = 5;
  file_path = codes "store/file_1.bin";
  deleted = false;
}

abbrev service : FileService
service = record {
  storage_root = codes "store";
  files = (codes "file_1", note) ∷ [];
  entries = (codes "store/file_1.bin", 104 ∷ 105 ∷ []) ∷ [];
  disk_faults = [];
  random = λ n. n;
  drawn = 0;
  now = 9;
}

abbrev first_chunk : UploadChunk
first_chunk = record {
  conversation_id = codes "room:1";
  owner_id = codes "7";
  file_name = codes "a.bin";
  media_type = [];
  cipher_chunk = 1 ∷ 2 ∷ 3 ∷ [];
  last_chunk = false;
  declared_size = pos 5;
}

abbrev last_of : UploadChunk
last_of = record first_chunk { cipher_chunk = 4 ∷ 5 ∷ []; last_chunk = true; declared_size = pos 0 }

two-IsUpload : IsUpload first_chunk (last_of ∷ [])
two-IsUpload = record { has_name = refl; has_owner = refl; has_last = refl; honest = inr refl }

download-upload_example :
    (chunks : List DownloadChunk) × ((download
        (record { file_id = id_of service; requester_id = [] })
        []
        (upload (first_chunk ∷ last_of ∷ []) service).1).0
      ≡ (success, chunks))
    × (received chunks ≡ sent (first_chunk ∷ last_of ∷ []))
    × IsFlagged chunks
    × All (Fits stream_chunk_size) chunks
download-upload_example = download-upload first_chunk (last_of ∷ []) service [] refl two-IsUpload

get_metadata-upload_example :
    get_metadata
      (record { file_id = id_of service; requester_id = [] })
      (upload (first_chunk ∷ last_of ∷ []) service).1
    ≡ (
      success,
      some (record {
        file_id = id_of service;
        conversation_id = codes "room:1";
        owner_id = codes "7";
        file_name = codes "a.bin";
        media_type = [];
        size_bytes = 5;
        created_at_epoch = 9;
        deleted = false;
      }),
    )
get_metadata-upload_example =
    get_metadata-upload first_chunk (last_of ∷ []) service [] refl two-IsUpload

-- A disk on which the second write fails.
abbrev failing : FileService
failing = record service { disk_faults = none ∷ none ∷ some 1 ∷ [] }

upload-IsSafe_example :
    ((upload (first_chunk ∷ last_of ∷ []) failing).0.0 ≡ success)
    ⊎ ((upload (first_chunk ∷ last_of ∷ []) failing).1.files ≡ failing.files)
upload-IsSafe_example = upload-IsSafe (first_chunk ∷ last_of ∷ []) failing

same : str_eq (codes "7") (codes "7") ≡ true
same = str_eq_refl (codes "7")

abbrev by : Str → FileRequest
by requester = record { file_id = codes "file_1"; requester_id = requester }

-- The same service where the file cannot be removed.
abbrev stuck : FileService
stuck = record service { disk_faults = some 0 ∷ [] }

found : find_file (codes "file_1") stuck ≡ some note
unfolding find_file lookup str_eq
found = refl

abbrev after : FileService
after = (delete_file (by (codes "7")) service).1

abbrev left : FileService
left = (delete_file (by (codes "7")) stuck).1

delete_file-hides_example :
    ((delete_file (by (codes "7")) stuck).0 ≡ (success, true))
    × (lookup (codes "store/file_1.bin") left.entries ≡ left_over (codes "store/file_1.bin") stuck)
    × (download (by []) [] left ≡ ((failed not_found "Unknown file", []), left))
    × (get_metadata (by []) left ≡ (failed not_found "Unknown file", none))
    × (delete_file (by []) left ≡ ((failed not_found "Unknown file", false), left))
delete_file-hides_example =
    delete_file-hides (by (codes "7")) (by []) note stuck [] refl found (inr same) refl

service-InPlace : InPlace service
unfolding InPlace join_path
service-InPlace = (refl, tt)

upload-put_on_example :
    InPlace (upload (first_chunk ∷ last_of ∷ []) service).1
    × (shelf_of (upload (first_chunk ∷ last_of ∷ []) service).1 (codes "file_1")
        ≡ put_on
            (id_of service)
            (file_of first_chunk (last_of ∷ []) service, 1 ∷ 2 ∷ 3 ∷ 4 ∷ 5 ∷ [])
            (shelf_of service)
            (codes "file_1"))
upload-put_on_example =
    upload-put_on first_chunk (last_of ∷ []) service (codes "file_1") refl two-IsUpload
      service-InPlace

delete_file-discard_example :
    InPlace after
    × (shelf_of after (codes "file_1")
        ≡ discard (by (codes "7")) (shelf_of service) (codes "file_1"))
delete_file-discard_example =
    delete_file-discard (by (codes "7")) service (codes "file_1") service-InPlace

send_chunks-fuel_example :
    send_chunks 2 (3 + 4) (1 ∷ 2 ∷ 3 ∷ []) (none ∷ some false ∷ [])
    ≡ send_chunks 2 3 (1 ∷ 2 ∷ 3 ∷ []) (none ∷ some false ∷ [])
send_chunks-fuel_example = send_chunks-fuel 1 4 (1 ∷ 2 ∷ 3 ∷ []) (none ∷ some false ∷ [])
