-- ===== src/Files/Stream.antt =====
-- The loop of `Upload` on a disk that works: services/file_service/src/FileServiceImpl.cpp.
use wizz_mania.Prelude.{
  ◌+◌, ◌≡◌, refl, ap, ◌∙◌, sym, subst, if_true, if_false, inl, inr, Bool, true, ◌||◌, List, [], ◌∷◌,
  ◌++◌, length, length-append, arith, Option, none, some, Bool-cases, if◌then◌else◌,
}
use wizz_mania.Prelude.Text.{Str, empty}
use wizz_mania.Prelude.Result.{Result, ok, err}
use wizz_mania.Prelude.Int.{ℤ, pos, int_gt}
use wizz_mania.Prelude.Maps.{lookup, assign, lookup-assign}
use wizz_mania.Grpc.{Status, failed, internal}
use wizz_mania.Files.Disk.{
  remove_file, FileService, UploadChunk, content, write_output, close_output,
}
use wizz_mania.Files.Upload.{
  ◌>>=◌, Uploading, upload_loop, upload_chunk, begin_upload, store_chunk, note_chunk,
}

-- What the client sends, all together, and the size that it declares.
abbrev pub sent : List UploadChunk → Str
sent [] = []
sent (c ∷ cs) = c.cipher_chunk ++ sent cs

abbrev pub declared_by : List UploadChunk → ℤ → ℤ
declared_by [] d = d
declared_by (c ∷ cs) d =
    declared_by cs (if int_gt c.declared_size (pos 0) then c.declared_size else d)

abbrev pub is_last_sent : List UploadChunk → Bool → Bool
is_last_sent [] b = b
is_last_sent (c ∷ cs) b = is_last_sent cs (c.last_chunk || b)

-- The loop on a disk that works: `grown` are the variables behind it.
abbrev pub grown : List UploadChunk → Uploading → Uploading
grown [] w = w
grown (c ∷ cs) w = grown cs (
    note_chunk c (record w {
      stored = record w.stored { size_bytes = w.stored.size_bytes + length c.cipher_chunk };
    }))

-- The disk behind it: an empty chunk is not written.
abbrev pub put : Str → Str → FileService → FileService
put path bytes s =
    if empty bytes
    then s
    else record s { entries = assign path (content path s ++ bytes) s.entries }

abbrev pub filled : List UploadChunk → Str → FileService → FileService
filled [] path s = s
filled (c ∷ cs) path s = filled cs path (put path c.cipher_chunk s)

empty-nil : (s : Str) → empty s ≡ true → s ≡ []
empty-nil [] h = refl
empty-nil (c ∷ s) h = cc h

same_size :
    (w : Uploading) (s : Str)
    → empty s ≡ true
    → record w { stored = record w.stored { size_bytes = w.stored.size_bytes + length s } } ≡ w
same_size w s h =
    ap (λ n. record w { stored = record w.stored { size_bytes = n } })
      (rw (empty-nil s h) (omega arith))

-- A write to a disk that works.
write_output-ok :
    (path bytes : Str) (s : FileService)
    → s.disk_faults ≡ []
    → write_output path bytes s
      ≡ (true, record s { entries = assign path (content path s ++ bytes) s.entries })
unfolding write_output
write_output-ok path bytes s good =
    subst
      (λ f. write_output path bytes (record s { disk_faults = f }) ≡ (
        true,
        record s { disk_faults = f; entries = assign path (content path s ++ bytes) s.entries },
      ))
      (sym good) refl

store_chunk-ok :
    (c : UploadChunk) (w : Uploading) (s : FileService)
    → s.disk_faults ≡ []
    → store_chunk c w s ≡ (
      ok (record w {
        stored = record w.stored { size_bytes = w.stored.size_bytes + length c.cipher_chunk };
      }),
      put w.stored.file_path c.cipher_chunk s,
    )
unfolding store_chunk
store_chunk-ok c w s good = elim (Bool-cases (empty c.cipher_chunk)) [
  | inl e ↦
      if_true (empty c.cipher_chunk) (ok w, s)
        (written (write_output w.stored.file_path c.cipher_chunk s)) e
      ∙ (ap (λ w. (ok w, s)) (sym (same_size w c.cipher_chunk e))
          ∙ ap (λ d. (ok (longer w), d)) (sym (if_true (empty c.cipher_chunk) s more e)))
  | inr e ↦
      if_false (empty c.cipher_chunk) (ok w, s)
        (written (write_output w.stored.file_path c.cipher_chunk s)) e
      ∙ (ap written (write_output-ok w.stored.file_path c.cipher_chunk s good)
          ∙ ap (λ d. (ok (longer w), d)) (sym (if_false (empty c.cipher_chunk) s more e)))
]
  where
    more : FileService
    more = record s {
      entries =
          assign w.stored.file_path (content w.stored.file_path s ++ c.cipher_chunk) s.entries;
    }

    longer : Uploading → Uploading
    longer w = record w {
      stored = record w.stored { size_bytes = w.stored.size_bytes + length c.cipher_chunk };
    }

    written : Bool × FileService → Result Status Uploading × FileService
    written (good, s1) = if good then (ok (longer w), s1) else (
      err (failed internal "Failed writing to storage"),
      remove_file w.stored.file_path (close_output w.stored.file_path s1),
    )

put-faults : (path bytes : Str) (s : FileService) → (put path bytes s).disk_faults ≡ s.disk_faults
put-faults path [] s = refl
put-faults path (b ∷ bytes) s = refl

pub put-files : (path bytes : Str) (s : FileService) → (put path bytes s).files ≡ s.files
put-files path [] s = refl
put-files path (b ∷ bytes) s = refl

append_empty : (a : Str) → a ≡ a ++ []
append_empty [] = refl
append_empty (x ∷ a) = ap (λ t. x ∷ t) (append_empty a)

append_assoc : (a b c : Str) → (a ++ b) ++ c ≡ a ++ (b ++ c)
append_assoc [] b c = refl
append_assoc (x ∷ a) b c = ap (λ t. x ∷ t) (append_assoc a b c)

put-lookup :
    (path bytes old : Str) (s : FileService)
    → lookup path s.entries ≡ some old
    → lookup path (put path bytes s).entries ≡ some (old ++ bytes)
put-lookup path [] old s h = h ∙ ap (λ t. some t) (append_empty old)
put-lookup path (b ∷ bytes) old s h =
    lookup-assign path (content path s ++ b ∷ bytes) s.entries
    ∙ ap (λ o. some (bytes_of o ++ b ∷ bytes)) h
  where
    bytes_of : Option Str → Str
    bytes_of none = []
    bytes_of (some b) = b

pub begin_upload-started :
    (c : UploadChunk) (w : Uploading) (s : FileService)
    → w.has_data ≡ true
    → begin_upload c w s ≡ (ok w, s)
unfolding begin_upload
begin_upload-started c w s started = if_true w.has_data (ok w, s) _ started

upload_chunk-ok :
    (c : UploadChunk) (w : Uploading) (s : FileService)
    → w.has_data ≡ true
    → s.disk_faults ≡ []
    → upload_chunk c w s ≡ (ok (grown (c ∷ []) w), put w.stored.file_path c.cipher_chunk s)
unfolding upload_chunk
upload_chunk-ok c w s started good =
    ap (λ r. r >>= store_chunk c >>= λ w s. (ok (note_chunk c w), s))
      (begin_upload-started c w s started)
    ∙ ap (λ r. r >>= λ w s. (ok (note_chunk c w), s)) (store_chunk-ok c w s good)

pub upload_loop-ok :
    (cs : List UploadChunk) (w : Uploading) (s : FileService)
    → w.has_data ≡ true
    → s.disk_faults ≡ []
    → upload_loop cs w s ≡ (ok (grown cs w), filled cs w.stored.file_path s)
unfolding upload_loop note_chunk
upload_loop-ok [] w s started good = refl
upload_loop-ok (c ∷ cs) w s started good =
    ap (λ r. r >>= upload_loop cs) (upload_chunk-ok c w s started good)
    ∙ upload_loop-ok cs (grown (c ∷ []) w) (put w.stored.file_path c.cipher_chunk s) started
        (put-faults w.stored.file_path c.cipher_chunk s ∙ good)

pub filled-lookup :
    (cs : List UploadChunk) (path old : Str) (s : FileService)
    → lookup path s.entries ≡ some old
    → lookup path (filled cs path s).entries ≡ some (old ++ sent cs)
filled-lookup [] path old s h = h ∙ ap (λ t. some t) (append_empty old)
filled-lookup (c ∷ cs) path old s h =
    filled-lookup cs path (old ++ c.cipher_chunk) (put path c.cipher_chunk s)
      (put-lookup path c.cipher_chunk old s h)
    ∙ ap (λ t. some t) (append_assoc old c.cipher_chunk (sent cs))

pub filled-faults :
    (cs : List UploadChunk) (path : Str) (s : FileService)
    → (filled cs path s).disk_faults ≡ s.disk_faults
filled-faults [] path s = refl
filled-faults (c ∷ cs) path s =
    filled-faults cs path (put path c.cipher_chunk s) ∙ put-faults path c.cipher_chunk s

pub grown-stored :
    (cs : List UploadChunk) (w : Uploading)
    → (grown cs w).stored ≡ record w.stored { size_bytes = w.stored.size_bytes + length (sent cs) }
unfolding note_chunk
grown-stored [] w = ap (λ n. record w.stored { size_bytes = n }) (omega arith)
grown-stored (c ∷ cs) w =
    grown-stored cs (grown (c ∷ []) w)
    ∙ ap (λ n. record w.stored { size_bytes = n })
        (ground (arith, length-append c.cipher_chunk (sent cs)))

pub grown-seen :
    (cs : List UploadChunk) (w : Uploading)
    → (grown cs w).last_chunk_seen ≡ is_last_sent cs w.last_chunk_seen
unfolding note_chunk
grown-seen [] w = refl
grown-seen (c ∷ cs) w = grown-seen cs (grown (c ∷ []) w)

pub grown-declared :
    (cs : List UploadChunk) (w : Uploading)
    → (grown cs w).declared_size ≡ declared_by cs w.declared_size
unfolding note_chunk
grown-declared [] w = refl
grown-declared (c ∷ cs) w = grown-declared cs (grown (c ∷ []) w)

pub grown-has_data : (cs : List UploadChunk) (w : Uploading) → (grown cs w).has_data ≡ w.has_data
unfolding note_chunk
grown-has_data [] w = refl
grown-has_data (c ∷ cs) w = grown-has_data cs (grown (c ∷ []) w)
