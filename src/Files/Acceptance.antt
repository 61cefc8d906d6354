-- ===== src/Files/Acceptance.antt =====
-- What `Upload` of services/file_service/src/FileServiceImpl.cpp does on a disk that works.
use wizz_mania.Prelude.{
  ℕ, ◌≡◌, refl, ap, ◌∙◌, sym, subst, if_false, ◌⊎◌, inl, inr, Bool, true, false, ◌&&◌, not, List,
  [], ◌∷◌, length, arith, if◌then◌else◌,
}
use wizz_mania.Prelude.Text.{Str, empty}
use wizz_mania.Prelude.Result.{Result, ok, err}
use wizz_mania.Prelude.Int.{ℤ, pos, negsuc, int_eq, int_eq_iff}
use wizz_mania.Prelude.Maps.{assign}
use wizz_mania.Grpc.{Status, success, failed, internal}
use wizz_mania.Files.Disk.{
  FileService, StoredFile, UploadChunk, open_output, close_output, generate_file_id,
}
use wizz_mania.Files.Upload.{
  is_declared, ◌>>=◌, Uploading, start, upload_loop, upload_chunk, begin_upload, store_chunk,
  note_chunk, new_file, upload, upload_end, finish_upload,
}
use wizz_mania.Files.Stream.{
  begin_upload-started, sent, declared_by, is_last_sent, grown, filled, upload_loop-ok,
  filled-faults, grown-stored, grown-seen, grown-declared, grown-has_data,
}

-- The size that the client declares, if any, is that of what it sends.
abbrev pub IsHonest : ℤ → ℕ → Type 0
IsHonest d n = (d ≡ negsuc 0) ⊎ (d ≡ pos n)

-- A stream of chunks that `Upload` takes.
pub record IsUpload (c : UploadChunk) (cs : List UploadChunk) : Type 0 where
  pub has_name : empty c.file_name ≡ false
  pub has_owner : empty c.owner_id ≡ false
  pub has_last : is_last_sent (c ∷ cs) false ≡ true
  pub honest : IsHonest (declared_by (c ∷ cs) (negsuc 0)) (length (sent (c ∷ cs)))

abbrev pub id_of : FileService → Str
id_of s = (generate_file_id s).0

-- The file behind the upload.
abbrev pub file_of : UploadChunk → List UploadChunk → FileService → StoredFile
file_of c cs s = record (new_file c s).0 { size_bytes = length (sent (c ∷ cs)) }

-- The service when the first chunk has opened the file, and the variables.
abbrev pub opening : UploadChunk → FileService → FileService
opening c s = record (new_file c s).1 { entries = assign (new_file c s).0.file_path [] s.entries }

abbrev pub opened : UploadChunk → FileService → Uploading
opened c s = record start { stored = (new_file c s).0; has_data = true }

open_output-ok :
    (path : Str) (s : FileService)
    → s.disk_faults ≡ []
    → open_output path s ≡ (true, record s { entries = assign path [] s.entries })
unfolding open_output
open_output-ok path s good =
    subst
      (λ f.
        open_output path (record s { disk_faults = f })
        ≡ (true, record s { disk_faults = f; entries = assign path [] s.entries }))
      (sym good) refl

begin_upload-ok :
    (c : UploadChunk) (s : FileService)
    → s.disk_faults ≡ []
    → empty c.file_name ≡ false
    → empty c.owner_id ≡ false
    → begin_upload c start s ≡ (ok (opened c s), opening c s)
unfolding begin_upload new_file generate_file_id
begin_upload-ok c s good name owner =
    if_false (empty c.file_name) _ _ name
    ∙ (if_false (empty c.owner_id) _ _ owner
        ∙ ap (began (opened c s)) (open_output-ok (new_file c s).0.file_path (new_file c s).1 good))
  where
    began : Uploading → Bool × FileService → Result Status Uploading × FileService
    began w (is_open, s2) =
        if is_open then (ok w, s2) else (err (failed internal "Cannot open storage path"), s2)

-- Once the file is open, the first chunk is like the others.
upload_loop-opened :
    (c : UploadChunk) (cs : List UploadChunk) (s : FileService)
    → s.disk_faults ≡ []
    → empty c.file_name ≡ false
    → empty c.owner_id ≡ false
    → upload_loop (c ∷ cs) start s ≡ upload_loop (c ∷ cs) (opened c s) (opening c s)
unfolding upload_loop upload_chunk
upload_loop-opened c cs s good name owner =
    ap (λ r. r >>= store_chunk c >>= (λ w s. (ok (note_chunk c w), s)) >>= upload_loop cs)
      (begin_upload-ok c s good name owner
        ∙ sym (begin_upload-started c (opened c s) (opening c s) refl))

close_output-ok : (path : Str) (s : FileService) → s.disk_faults ≡ [] → close_output path s ≡ s
unfolding close_output
close_output-ok path s good =
    subst (λ f. close_output path (record s { disk_faults = f }) ≡ record s { disk_faults = f })
      (sym good) refl

int_eq_refl : (d : ℤ) → int_eq d d ≡ true
int_eq_refl d = (int_eq_iff d d).1 refl

finish_upload-ok :
    (w : Uploading) (s : FileService)
    → s.disk_faults ≡ []
    → w.has_data ≡ true
    → w.last_chunk_seen ≡ true
    → IsHonest w.declared_size w.stored.size_bytes
    → finish_upload w s ≡ (
      (success, record { file_id = w.stored.file_id; stored_size = w.stored.size_bytes }),
      record s { files = assign w.stored.file_id w.stored s.files },
    )
unfolding finish_upload
finish_upload-ok w s good full seen h =
    if_false (not w.has_data) _ _ (ap not full)
    ∙ (if_false (not w.last_chunk_seen) _ _ (ap not seen)
        ∙ (if_false
              (is_declared w.declared_size
                && not (int_eq w.declared_size (pos w.stored.size_bytes)))
              _ _ (fits w.declared_size w.stored.size_bytes h)
            ∙ ap
                (λ d. (
                  (
                    success,
                    record { file_id = w.stored.file_id; stored_size = w.stored.size_bytes },
                  ),
                  record d { files = assign w.stored.file_id w.stored d.files },
                ))
                (close_output-ok w.stored.file_path s good)))
  where
    fits : (d : ℤ) (n : ℕ) → IsHonest d n → (is_declared d && not (int_eq d (pos n))) ≡ false
    fits d n (inl e) = rw e
    fits d n (inr e) = rw e (ap not (int_eq_refl (pos n)))

-- The service behind the upload.
abbrev pub stored_by : UploadChunk → List UploadChunk → FileService → FileService
stored_by c cs s =
    let d = filled (c ∷ cs) (new_file c s).0.file_path (opening c s) in
    record d { files = assign (id_of s) (file_of c cs s) d.files }

-- `Upload` takes such a stream on a disk that works, and answers with the id and the size.
pub upload-ok :
    (c : UploadChunk) (cs : List UploadChunk) (s : FileService)
    → s.disk_faults ≡ []
    → IsUpload c cs
    → upload (c ∷ cs) s ≡ (
      (success, record { file_id = id_of s; stored_size = length (sent (c ∷ cs)) }),
      stored_by c cs s,
    )
unfolding upload upload_end new_file
upload-ok c cs s good u =
    ap upload_end (
      upload_loop-opened c cs s good u.has_name u.has_owner
      ∙ upload_loop-ok (c ∷ cs) (opened c s) (opening c s) refl good)
    ∙ (finish_upload-ok (grown (c ∷ cs) (opened c s)) behind
          (filled-faults (c ∷ cs) (new_file c s).0.file_path (opening c s) ∙ good)
          (grown-has_data (c ∷ cs) (opened c s)) (grown-seen (c ∷ cs) (opened c s) ∙ u.has_last)
          declared
        ∙ ap
            (λ f. (
              (success, record { file_id = f.file_id; stored_size = f.size_bytes }),
              record behind { files = assign f.file_id f behind.files },
            ))
            same)
  where
    behind : FileService
    behind = filled (c ∷ cs) (new_file c s).0.file_path (opening c s)

    same : (grown (c ∷ cs) (opened c s)).stored ≡ file_of c cs s
    same =
        grown-stored (c ∷ cs) (opened c s)
        ∙ ap (λ n. record (new_file c s).0 { size_bytes = n }) (omega arith)

    declared :
        IsHonest
          (grown (c ∷ cs) (opened c s)).declared_size
          (grown (c ∷ cs) (opened c s)).stored.size_bytes
    declared =
        subst (λ d. IsHonest d (grown (c ∷ cs) (opened c s)).stored.size_bytes)
          (sym (grown-declared (c ∷ cs) (opened c s)))
          (subst (λ f. IsHonest (declared_by (c ∷ cs) (negsuc 0)) f.size_bytes) (sym same) u.honest)
