-- ===== src/Files/Shelf.antt =====
-- What the file service promises, services/file_service/src/FileServiceImpl.cpp: a shelf of files by their
-- ids, each with its bytes. `Upload` puts a file on it, `Delete` takes one off, and nothing else on
-- it changes, since the paths of two ids differ.
use wizz_mania.Prelude.{
  ◌≡◌, refl, ap, ◌∙◌, sym, subst, Bool, true, false, List, [], ◌∷◌, ◌++◌, Option, none, some,
  if◌then◌else◌, All,
}
use wizz_mania.Prelude.Text.{Str, codes, str_eq, str_eq_sound}
use wizz_mania.Prelude.Maps.{
  Map, lookup, assign, lookup-assign, lookup-assign_other, All-lookup, All-assign,
}
use wizz_mania.Files.Disk.{
  FileService, StoredFile, UploadChunk, join_path, make_file_path, generate_file_id,
}
use wizz_mania.Files.Upload.{new_file, upload}
use wizz_mania.Files.Serve.{find_file}
use wizz_mania.Files.Stream.{sent, filled, filled-lookup}
use wizz_mania.Files.Acceptance.{IsUpload, id_of, file_of, opening, stored_by, upload-ok}
use wizz_mania.Files.RoundTrip.{find_file-stored}
use wizz_mania.Files.Apart.{make_file_path-other, filled-other, filled-files, filled-root}

abbrev pub Shelf : Type 0
Shelf = Str → Option (StoredFile × Str)

abbrev pub live : Option StoredFile → Option StoredFile
live o = elim o [ none ↦ none | some file ↦ if file.deleted then none else some file ]

abbrev pub shown : StoredFile → Option Str → Option (StoredFile × Str)
shown file o = elim o [ none ↦ none | some bytes ↦ some (file, bytes) ]

abbrev pub on_disk : Map Str → Option StoredFile → Option (StoredFile × Str)
on_disk entries none = none
on_disk entries (some file) = shown file (lookup file.file_path entries)

-- The shelf that a state of the service stands for.
unfoldable pub shelf_of : FileService → Shelf
unfolding find_file
shelf_of s id = on_disk s.entries (find_file id s)

-- Every file is registered under its id, with the path that belongs to it.
abbrev pub Placed : Str → Str × StoredFile → Type 0
Placed root e = e.1.file_path ≡ join_path root (e.0 ++ codes ".bin")

unfoldable pub InPlace : FileService → Type 0
InPlace s = All (Placed s.storage_root) s.files

-- `put_on` and `take_off` are what the operations do to a shelf.
unfoldable pub put_on : Str → StoredFile × Str → Shelf → Shelf
put_on id v shelf k = if str_eq id k then some v else shelf k

unfoldable pub take_off : Str → Shelf → Shelf
take_off id shelf k = if str_eq id k then none else shelf k

-- A file that keeps its place on the disk and in the map keeps its place on the shelf.
pub shelf_of-same :
    (s s' : FileService) (k path : Str)
    → InPlace s
    → str_eq path (make_file_path s k) ≡ false
    → lookup k s'.files ≡ lookup k s.files
    → ((p : Str) → str_eq path p ≡ false → lookup p s'.entries ≡ lookup p s.entries)
    → shelf_of s' k ≡ shelf_of s k
unfolding shelf_of find_file InPlace make_file_path
shelf_of-same s s' k path placed other files entries =
    ap (λ o. on_disk s'.entries (live o)) files ∙ by_file (lookup k s.files) refl
  where
    by_flag :
        (file : StoredFile) (b : Bool)
        → lookup file.file_path s'.entries ≡ lookup file.file_path s.entries
        → on_disk s'.entries (if b then none else some file)
          ≡ on_disk s.entries (if b then none else some file)
    by_flag file true e = refl
    by_flag file false e = ap (shown file) e

    by_file :
        (o : Option StoredFile)
        → lookup k s.files ≡ o
        → on_disk s'.entries (live o) ≡ on_disk s.entries (live o)
    by_file none e = refl
    by_file (some file) e =
        let place : file.file_path ≡ make_file_path s k =
          All-lookup (Placed s.storage_root) k file s.files placed e in
        by_flag file file.deleted (entries file.file_path (ap (str_eq path) place ∙ other))

shelf_of-found :
    (s : FileService) (id bytes : Str) (file : StoredFile)
    → find_file id s ≡ some file
    → lookup file.file_path s.entries ≡ some bytes
    → shelf_of s id ≡ some (file, bytes)
unfolding shelf_of
shelf_of-found s id bytes file found there = ap (on_disk s.entries) found ∙ ap (shown file) there

pub shelf_of-unknown : (s : FileService) (id : Str) → find_file id s ≡ none → shelf_of s id ≡ none
unfolding shelf_of
shelf_of-unknown s id unknown = ap (on_disk s.entries) unknown

-- On a disk that works, an upload of a stream that `Upload` takes puts its file with the bytes sent on the
-- shelf, under the new id, and leaves the rest of the shelf as it was, and the files in their
-- places.
pub upload-put_on :
    (c : UploadChunk) (cs : List UploadChunk) (s : FileService) (k : Str)
    → s.disk_faults ≡ []
    → IsUpload c cs
    → InPlace s
    → InPlace (upload (c ∷ cs) s).1
      × (shelf_of (upload (c ∷ cs) s).1 k
          ≡ put_on (id_of s) (file_of c cs s, sent (c ∷ cs)) (shelf_of s) k)
unfolding put_on InPlace new_file generate_file_id
upload-put_on c cs s k good u placed =
    let done = upload-ok c cs s good u in
    (
      subst (λ r. InPlace r.1) (sym done)
          (subst (λ r. All (Placed r) (stored_by c cs s).files)
            (sym (filled-root path (c ∷ cs) (opening c s)))
            (subst (λ fs. All (Placed s.storage_root) (assign (id_of s) (file_of c cs s) fs))
              (sym (filled-files path (c ∷ cs) (opening c s)))
              (All-assign (Placed s.storage_root) (id_of s) (file_of c cs s) s.files
                (unfold make_file_path in refl) placed))),
      ap (λ r. shelf_of r.1 k) done ∙ by_id (str_eq (id_of s) k) refl,
    )
  where
    path : Str
    path = (new_file c s).0.file_path

    by_id :
        (b : Bool)
        → str_eq (id_of s) k ≡ b
        → shelf_of (stored_by c cs s) k
          ≡ (if b then some (file_of c cs s, sent (c ∷ cs)) else shelf_of s k)
    by_id true same =
        ap (shelf_of (stored_by c cs s)) (sym (str_eq_sound (id_of s) k same))
        ∙ shelf_of-found (stored_by c cs s) (id_of s) (sent (c ∷ cs)) (file_of c cs s)
            (find_file-stored c cs s)
            (filled-lookup (c ∷ cs) path [] (opening c s) (lookup-assign path [] s.entries))
    by_id false other =
        shelf_of-same s (stored_by c cs s) k path placed (make_file_path-other s (id_of s) k other)
          (lookup-assign_other (id_of s) k (file_of c cs s)
              (filled (c ∷ cs) path (opening c s)).files other
            ∙ ap (lookup k) (filled-files path (c ∷ cs) (opening c s)))
          (λ p h.
            filled-other path (c ∷ cs) p (opening c s) h
            ∙ lookup-assign_other path p [] s.entries h)
