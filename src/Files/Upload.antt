-- ===== src/Files/Upload.antt =====
-- `Upload` of services/file_service/src/FileServiceImpl.cpp.
use wizz_mania.Prelude.{
  ◌+◌, Bool, true, false, ◌&&◌, ◌||◌, not, List, [], ◌∷◌, length, if◌then◌else◌,
}
use wizz_mania.Prelude.Text.{empty}
use wizz_mania.Prelude.Maps.{assign}
use wizz_mania.Prelude.Result.{Result, ok, err}
use wizz_mania.Prelude.Int.{ℤ, pos, negsuc, int_eq, int_gt}
use wizz_mania.Grpc.{Status, success, failed, invalid_argument, internal}
use wizz_mania.Files.Disk.{
  StoredFile, FileService, UploadChunk, UploadAck, generate_file_id, make_file_path, open_output,
  write_output, close_output, remove_file,
}

-- The variables of `Upload`.
pub record Uploading : Type 0 where
  pub has_data : Bool
  pub last_chunk_seen : Bool
  pub stored : StoredFile
  pub declared_size : ℤ

abbrev pub no_file : StoredFile
no_file = record {
  file_id = [];
  conversation_id = [];
  owner_id = [];
  file_name = [];
  media_type = [];
  size_bytes = 0;
  created_at_epoch = 0;
  file_path = [];
  deleted = false;
}

abbrev pub start : Uploading
start = record {
  has_data = false;
  last_chunk_seen = false;
  stored = no_file;
  declared_size = negsuc 0;
}

-- The file that the first chunk describes.
unfoldable pub new_file : UploadChunk → FileService → StoredFile × FileService
unfolding generate_file_id make_file_path
new_file chunk s =
    let (id, s') = generate_file_id s in
    (
      record {
        file_id = id;
        conversation_id = chunk.conversation_id;
        owner_id = chunk.owner_id;
        file_name = chunk.file_name;
        media_type = chunk.media_type;
        size_bytes = 0;
        created_at_epoch = s.now;
        file_path = make_file_path s id;
        deleted = false;
      },
      s',
    )

-- `if (!has_data) { … }`
unfoldable pub begin_upload :
    UploadChunk → Uploading → FileService → Result Status Uploading × FileService
unfolding new_file open_output
begin_upload chunk w s =
    if w.has_data
    then (ok w, s)
    else if empty chunk.file_name
    then (err (failed invalid_argument "file_name is required"), s)
    else if empty chunk.owner_id
    then (err (failed invalid_argument "owner_id is required"), s)
    else (let (file, s1) = new_file chunk s in
        let (is_open, s2) = open_output file.file_path s1 in
        if is_open
        then (ok (record w { stored = file; has_data = true }), s2)
        else (err (failed internal "Cannot open storage path"), s2))

-- `if (!chunk.cipher_chunk().empty()) { … }`
unfoldable pub store_chunk :
    UploadChunk → Uploading → FileService → Result Status Uploading × FileService
unfolding write_output close_output
store_chunk chunk w s =
    if empty chunk.cipher_chunk
    then (ok w, s)
    else (let (good, s1) = write_output w.stored.file_path chunk.cipher_chunk s in
        if good
        then (
          ok (record w {
            stored = record w.stored {
              size_bytes = w.stored.size_bytes + length chunk.cipher_chunk;
            };
          }),
          s1,
        )
        else (
          err (failed internal "Failed writing to storage"),
          remove_file w.stored.file_path (close_output w.stored.file_path s1),
        ))

-- The rest of the loop's body.
unfoldable pub note_chunk : UploadChunk → Uploading → Uploading
note_chunk chunk w = record w {
  declared_size =
      if int_gt chunk.declared_size (pos 0) then chunk.declared_size else w.declared_size;
  last_chunk_seen = chunk.last_chunk || w.last_chunk_seen;
}

infixl 5 ◌>>=◌
abbrev pub ◌>>=◌ :
    Result Status Uploading × FileService
    → (Uploading → FileService → Result Status Uploading × FileService)
    → Result Status Uploading × FileService
(r, s) >>= f = elim r [ ok w ↦ f w s | err st ↦ (err st, s) ]

unfoldable pub upload_chunk :
    UploadChunk → Uploading → FileService → Result Status Uploading × FileService
unfolding begin_upload store_chunk note_chunk
upload_chunk chunk w s =
    begin_upload chunk w s >>= store_chunk chunk >>= λ w s. (ok (note_chunk chunk w), s)

-- `while (reader->Read(&chunk))` over what the client sends.
unfoldable pub upload_loop :
    List UploadChunk → Uploading → FileService → Result Status Uploading × FileService
unfolding upload_chunk
upload_loop [] w s = (ok w, s)
upload_loop (chunk ∷ chunks) w s = upload_chunk chunk w s >>= upload_loop chunks

abbrev pub is_declared : ℤ → Bool
is_declared (pos n) = true
is_declared (negsuc n) = false

abbrev pub no_ack : UploadAck
no_ack = record { file_id = []; stored_size = 0 }

-- What follows the loop.
unfoldable pub finish_upload : Uploading → FileService → (Status × UploadAck) × FileService
unfolding close_output
finish_upload w s =
    let path = w.stored.file_path in
    let size = w.stored.size_bytes in
    let closed = close_output path s in
    if not w.has_data
    then ((failed invalid_argument "No data received", no_ack), s)
    else if not w.last_chunk_seen
    then (
      (failed invalid_argument "Stream ended before last chunk", no_ack),
      remove_file path closed,
    )
    else if is_declared w.declared_size && not (int_eq w.declared_size (pos size))
    then ((failed invalid_argument "Declared size mismatch", no_ack), remove_file path closed)
    else (
      (success, record { file_id = w.stored.file_id; stored_size = size }),
      record closed { files = assign w.stored.file_id w.stored closed.files },
    )

unfoldable pub upload_end :
    Result Status Uploading × FileService → (Status × UploadAck) × FileService
unfolding finish_upload
upload_end (ok w, s) = finish_upload w s
upload_end (err st, s) = ((st, no_ack), s)

unfoldable pub upload : List UploadChunk → FileService → (Status × UploadAck) × FileService
unfolding upload_loop upload_end
upload chunks s = upload_end (upload_loop chunks start s)
