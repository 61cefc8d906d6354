-- ===== src/Files/Failure.antt =====
-- An upload that fails: services/file_service/src/FileServiceImpl.cpp.
use wizz_mania.Prelude.{
  ℕ, ◌≡◌, refl, ◌∙◌, ◌⊎◌, inl, inr, Bool, true, false, ◌&&◌, not, List, [], ◌∷◌, Option, none, some,
  if◌then◌else◌,
}
use wizz_mania.Prelude.Text.{Str, empty}
use wizz_mania.Prelude.Result.{Result, ok, err}
use wizz_mania.Prelude.Int.{pos, int_eq}
use wizz_mania.Prelude.Maps.{Map}
use wizz_mania.Grpc.{Status, success}
use wizz_mania.Files.Disk.{
  FileService, StoredFile, UploadChunk, UploadAck, open_output, write_output, close_output,
  generate_file_id,
}
use wizz_mania.Files.Upload.{
  ◌>>=◌, Uploading, start, upload_loop, upload_chunk, begin_upload, store_chunk, note_chunk,
  new_file, upload, upload_end, finish_upload, is_declared,
}

module _ (F : Map StoredFile) where
  -- What the parts of `Upload` leave alone.
  abbrev Leaves : Result Status Uploading × FileService → Type 0
  Leaves r = r.1.files ≡ F

  abbrev LeavesAll : (Uploading → FileService → Result Status Uploading × FileService) → Type 0
  LeavesAll f = (w : Uploading) (s : FileService) → s.files ≡ F → Leaves (f w s)

  bind-Leaves :
      (r : Result Status Uploading × FileService)
      (f : Uploading → FileService → Result Status Uploading × FileService)
      → Leaves r
      → LeavesAll f
      → Leaves (r >>= f)
  bind-Leaves (ok w, s) f h all = all w s h
  bind-Leaves (err st, s) f h all = h

  chosen :
      (b : Bool) (x y : Result Status Uploading × FileService)
      → Leaves x
      → Leaves y
      → Leaves (if b then x else y)
  chosen true x y hx hy = hx
  chosen false x y hx hy = hy

open_output-files : (path : Str) (s : FileService) → (open_output path s).1.files ≡ s.files
unfolding open_output
open_output-files path s = by_event s s.disk_faults
  where
    by_event :
        (s : FileService) (fs : List (Option ℕ))
        → (open_output path (record s { disk_faults = fs })).1.files ≡ s.files
    by_event s [] = refl
    by_event s (none ∷ fs) = refl
    by_event s (some n ∷ fs) = refl

write_output-files :
    (path bytes : Str) (s : FileService) → (write_output path bytes s).1.files ≡ s.files
unfolding write_output
write_output-files path bytes s = by_event s s.disk_faults
  where
    by_event :
        (s : FileService) (fs : List (Option ℕ))
        → (write_output path bytes (record s { disk_faults = fs })).1.files ≡ s.files
    by_event s [] = refl
    by_event s (none ∷ fs) = refl
    by_event s (some n ∷ fs) = refl

close_output-files : (path : Str) (s : FileService) → (close_output path s).files ≡ s.files
unfolding close_output
close_output-files path s = by_event s s.disk_faults
  where
    by_event :
        (s : FileService) (fs : List (Option ℕ))
        → (close_output path (record s { disk_faults = fs })).files ≡ s.files
    by_event s [] = refl
    by_event s (none ∷ fs) = refl
    by_event s (some n ∷ fs) = refl

module _ (F : Map StoredFile) (c : UploadChunk) where
  begin_upload-Leaves : LeavesAll F (begin_upload c)
  unfolding begin_upload new_file generate_file_id
  begin_upload-Leaves w s h = chosen F w.has_data _ _ h (
      chosen F (empty c.file_name) _ _ h (
        chosen F (empty c.owner_id) _ _ h
          (chosen F (open_output (new_file c s).0.file_path (new_file c s).1).0 _ _ there there)))
    where
      there : (open_output (new_file c s).0.file_path (new_file c s).1).1.files ≡ F
      there = open_output-files (new_file c s).0.file_path (new_file c s).1 ∙ h

  store_chunk-Leaves : LeavesAll F (store_chunk c)
  unfolding store_chunk
  store_chunk-Leaves w s h =
      chosen F (empty c.cipher_chunk) _ _ h
        (chosen F written.0 _ _ there (close_output-files w.stored.file_path written.1 ∙ there))
    where
      written : Bool × FileService
      written = write_output w.stored.file_path c.cipher_chunk s

      there : written.1.files ≡ F
      there = write_output-files w.stored.file_path c.cipher_chunk s ∙ h

  upload_chunk-Leaves : LeavesAll F (upload_chunk c)
  unfolding upload_chunk
  upload_chunk-Leaves w s h =
      bind-Leaves F (begin_upload c w s >>= store_chunk c) (λ w s. (ok (note_chunk c w), s))
        (bind-Leaves F (begin_upload c w s) (store_chunk c) (begin_upload-Leaves w s h)
          store_chunk-Leaves)
        (λ w s h. h)

upload_loop-Leaves : (F : Map StoredFile) (cs : List UploadChunk) → LeavesAll F (upload_loop cs)
unfolding upload_loop
upload_loop-Leaves F [] w s h = h
upload_loop-Leaves F (c ∷ cs) w s h =
    bind-Leaves F (upload_chunk c w s) (upload_loop cs) (upload_chunk-Leaves F c w s h)
      (upload_loop-Leaves F cs)

-- A part of the answer: a success, or the files as they were.
abbrev IsSafe : Map StoredFile → (Status × UploadAck) × FileService → Type 0
IsSafe F r = (r.0.0 ≡ success) ⊎ (r.1.files ≡ F)

chosen-IsSafe :
    (F : Map StoredFile) (b : Bool) (x y : (Status × UploadAck) × FileService)
    → IsSafe F x
    → IsSafe F y
    → IsSafe F (if b then x else y)
chosen-IsSafe F true x y hx hy = hx
chosen-IsSafe F false x y hx hy = hy

finish_upload-IsSafe :
    (F : Map StoredFile) (w : Uploading) (s : FileService)
    → s.files ≡ F
    → IsSafe F (finish_upload w s)
unfolding finish_upload
finish_upload-IsSafe F w s h = chosen-IsSafe F (not w.has_data) _ _ (inr h) (
    chosen-IsSafe F (not w.last_chunk_seen) _ _ (inr closed) (
      chosen-IsSafe F
        (is_declared w.declared_size && not (int_eq w.declared_size (pos w.stored.size_bytes))) _ _
        (inr closed) (inl refl)))
  where
    closed : (close_output w.stored.file_path s).files ≡ F
    closed = close_output-files w.stored.file_path s ∙ h

upload_end-IsSafe :
    (F : Map StoredFile) (r : Result Status Uploading × FileService)
    → Leaves F r
    → IsSafe F (upload_end r)
unfolding upload_end
upload_end-IsSafe F (ok w, s) h = finish_upload-IsSafe F w s h
upload_end-IsSafe F (err st, s) h = inr h

-- Whatever the client sends and the disk does, `Upload` registers a file only where it answers OK:
-- any other answer leaves the registered files as they were.
pub upload-IsSafe :
    (chunks : List UploadChunk) (s : FileService)
    → ((upload chunks s).0.0 ≡ success) ⊎ ((upload chunks s).1.files ≡ s.files)
unfolding upload
upload-IsSafe chunks s =
    upload_end-IsSafe s.files (upload_loop chunks start s)
      (upload_loop-Leaves s.files chunks start s refl)
