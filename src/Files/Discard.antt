-- ===== src/Files/Discard.antt =====
-- What `Delete` of services/file_service/src/FileServiceImpl.cpp does to the shelf.
use wizz_mania.Prelude.{
  ◌≡◌, refl, ap, ◌∙◌, sym, Bool, true, false, ◌&&◌, not, Option, none, some, if◌then◌else◌,
  Bool-cases, Option-cases, inl, inr, if_false,
}
use wizz_mania.Prelude.Text.{Str, empty, str_eq, str_eq_sound}
use wizz_mania.Prelude.Maps.{lookup, lookup-assign_other, All-lookup, All-assign}
use wizz_mania.Files.Disk.{FileService, StoredFile, FileRequest, make_file_path, try_remove}
use wizz_mania.Files.Serve.{find_file, delete_file}
use wizz_mania.Files.Deletion.{gone, find_file-gone, lookup-try_remove_other}
use wizz_mania.Files.Apart.{make_file_path-other}
use wizz_mania.Files.Shelf.{
  Shelf, InPlace, Placed, live, shown, on_disk, shelf_of, take_off, shelf_of-same, shelf_of-unknown,
}

-- Whether `Delete` refuses the one who asks.
abbrev refused : FileRequest → StoredFile → Bool
refused req file = not (empty req.requester_id) && not (str_eq req.requester_id file.owner_id)

-- What `Delete` does to a shelf.
pub discard : FileRequest → Shelf → Shelf
unfolding take_off
discard req shelf = if empty req.file_id then shelf else elim (shelf req.file_id) [
  | none ↦ shelf
  | some (file, bytes) ↦ if refused req file then shelf else take_off req.file_id shelf
]

live-some : (o : Option StoredFile) (file : StoredFile) → live o ≡ some file → o ≡ some file
live-some none file h = cc h
live-some (some f) file h = by_flag f.deleted h
  where
    by_flag : (b : Bool) → (if b then none else some f) ≡ some file → some f ≡ some file
    by_flag true h = cc h
    by_flag false h = h

gone-take_off :
    (req : FileRequest) (file : StoredFile) (s : FileService) (k : Str)
    → InPlace s
    → find_file req.file_id s ≡ some file
    → InPlace (gone req file s)
      × (shelf_of (gone req file s) k ≡ take_off req.file_id (shelf_of s) k)
unfolding InPlace take_off find_file shelf_of make_file_path try_remove
gone-take_off req file s k placed found =
    let place : file.file_path ≡ make_file_path s req.file_id =
      All-lookup (Placed s.storage_root) req.file_id file s.files placed
        (live-some (lookup req.file_id s.files) file found) in
    (
      All-assign (Placed s.storage_root) req.file_id (record file { deleted = true }) s.files place
          placed,
      by_id place (str_eq req.file_id k) refl,
    )
  where
    after : FileService
    after = gone req file s

    by_id :
        file.file_path ≡ make_file_path s req.file_id
        → (b : Bool) → str_eq req.file_id k ≡ b
        → shelf_of after k ≡ (if b then none else shelf_of s k)
    by_id place true same =
        ap (shelf_of after) (sym (str_eq_sound req.file_id k same))
        ∙ ap (on_disk after.entries) (find_file-gone req file s)
    by_id place false other =
        shelf_of-same s after k file.file_path placed
          (ap (λ p. str_eq p (make_file_path s k)) place
            ∙ make_file_path-other s req.file_id k other)
          (lookup-assign_other req.file_id k (record file { deleted = true }) s.files other)
          (λ p h. lookup-try_remove_other file.file_path p s h)

-- A place that is empty anyway.
take_off-empty :
    (id : Str) (shelf : Shelf) (k : Str) → shelf id ≡ none → take_off id shelf k ≡ shelf k
unfolding take_off
take_off-empty id shelf k e = by_id (str_eq id k) refl
  where
    by_id : (b : Bool) → str_eq id k ≡ b → (if b then none else shelf k) ≡ shelf k
    by_id true same = sym e ∙ ap shelf (str_eq_sound id k same)
    by_id false other = refl

discard-found :
    (req : FileRequest) (file : StoredFile) (s : FileService) (k : Str)
    → empty req.file_id ≡ false
    → find_file req.file_id s ≡ some file
    → discard req (shelf_of s) k
      ≡ (if refused req file then shelf_of s k else take_off req.file_id (shelf_of s) k)
unfolding discard shelf_of
discard-found req file s k named found =
    ap (λ (f : Shelf). f k)
      (if_false (empty req.file_id) (shelf_of s) (chosen (shelf_of s req.file_id)) named)
    ∙ ap (λ o. chosen (on_disk s.entries o) k) found
    ∙ by_bytes (lookup file.file_path s.entries) refl
  where
    chosen : Option (StoredFile × Str) → Shelf
    chosen o = elim o [
      | none ↦ shelf_of s
      | some (file, bytes) ↦
          if refused req file then shelf_of s else take_off req.file_id (shelf_of s)
    ]

    by_flag : (b : Bool) (x y : Shelf) → (if b then x else y) k ≡ (if b then x k else y k)
    by_flag true x y = refl
    by_flag false x y = refl

    none_left :
        (b : Bool) (x : Option (StoredFile × Str))
        → x ≡ shelf_of s k
        → shelf_of s k ≡ (if b then shelf_of s k else x)
    none_left true x e = refl
    none_left false x e = sym e

    by_bytes :
        (o : Option Str)
        → lookup file.file_path s.entries ≡ o
        → chosen (shown file o) k
          ≡ (if refused req file then shelf_of s k else take_off req.file_id (shelf_of s) k)
    by_bytes (some bytes) there =
        by_flag (refused req file) (shelf_of s) (take_off req.file_id (shelf_of s))
    by_bytes none missing = none_left (refused req file) (take_off req.file_id (shelf_of s) k) (
        take_off-empty req.file_id (shelf_of s) k
          (ap (on_disk s.entries) found ∙ ap (shown file) missing))

discard-nameless :
    (req : FileRequest) (shelf : Shelf) → empty req.file_id ≡ true → discard req shelf ≡ shelf
unfolding discard
discard-nameless req shelf nameless = rw nameless refl

discard-unknown :
    (req : FileRequest) (shelf : Shelf)
    → empty req.file_id ≡ false
    → shelf req.file_id ≡ none
    → discard req shelf ≡ shelf
unfolding discard
discard-unknown req shelf named unknown = rw (named, unknown) refl

-- Whoever asks, `Delete` does to the shelf what `discard` does: it takes the file off where one is
-- there that the caller owns, or the caller does not say who he is, and else it leaves the shelf
-- as it was; the files stay in their places.
pub delete_file-discard :
    (req : FileRequest) (s : FileService) (k : Str)
    → InPlace s
    → InPlace (delete_file req s).1
      × (shelf_of (delete_file req s).1 k ≡ discard req (shelf_of s) k)
unfolding delete_file
delete_file-discard req s k placed = elim (Bool-cases (empty req.file_id)) [
  | inl nameless ↦
      rw nameless (placed, ap (λ f. f k) (sym (discard-nameless req (shelf_of s) nameless)))
  | inr named ↦ elim (Option-cases (find_file req.file_id s)) [
    | inl unknown ↦
        rw (named, unknown)
          (
            placed,
            ap (λ f. f k)
                (sym (
                  discard-unknown req (shelf_of s) named (shelf_of-unknown s req.file_id unknown))),
          )
    | inr (file, found) ↦ elim (Bool-cases (refused req file)) [
      | inl other ↦
          rw (named, found, other)
            (placed, sym (discard-found req file s k named found ∙ rw other refl))
      | inr allowed ↦
          let (still, taken) = gone-take_off req file s k placed found in
          rw (named, found, allowed)
            (still, taken ∙ sym (discard-found req file s k named found ∙ rw allowed refl))
    ]
  ]
]
