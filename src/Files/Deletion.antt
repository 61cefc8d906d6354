-- ===== src/Files/Deletion.antt =====
-- What `Delete` does to a file, and who may: services/file_service/src/FileServiceImpl.cpp.
use wizz_mania.Prelude.{
  ℕ, ◌≡◌, refl, ap, ◌∙◌, ◌⊎◌, inl, inr, Bool, true, false, ◌&&◌, not, List, [], Option, none, some,
  if◌then◌else◌, if_false,
}
use wizz_mania.Prelude.Text.{Str, empty, str_eq}
use wizz_mania.Prelude.Maps.{lookup, assign, erase, lookup-assign, lookup-erase, lookup-erase_other}
use wizz_mania.Grpc.{Status, success, failed, not_found, permission_denied}
use wizz_mania.Files.Disk.{FileService, StoredFile, FileRequest, try_remove}
use wizz_mania.Sql.{next_event}
use wizz_mania.Files.Serve.{download, find_file, get_metadata, delete_file}

-- The owner of the file, or a client that does not say who it is.
abbrev pub IsOwner : FileRequest → StoredFile → Type 0
IsOwner req file = (empty req.requester_id ≡ true) ⊎ (str_eq req.requester_id file.owner_id ≡ true)

abbrev pub gone : FileRequest → StoredFile → FileService → FileService
gone req file s = record (try_remove file.file_path s) {
  files = assign req.file_id (record file { deleted = true }) s.files;
}

passes_unknown : (a b : Bool) → a ≡ true → (not a && b) ≡ false
passes_unknown a b h = rw h

module _ (req : FileRequest) (file : StoredFile) (s : FileService) where
  decide : FileRequest → StoredFile → FileService → Bool → (Status × Bool) × FileService
  decide req file s other =
      if other
      then ((failed permission_denied "Not owner of file", false), s)
      else ((success, true), gone req file s)

  delete_file-found :
      empty req.file_id ≡ false
      → find_file req.file_id s ≡ some file
      → delete_file req s
        ≡ decide req file s
            (not (empty req.requester_id) && not (str_eq req.requester_id file.owner_id))
  unfolding delete_file decide
  delete_file-found named found = if_false (empty req.file_id) _ _ named ∙ ap (acted req s) found
    where
      acted : FileRequest → FileService → Option StoredFile → (Status × Bool) × FileService
      acted req s o = elim o [
        | none ↦ ((failed not_found "Unknown file", false), s)
        | some file ↦
            decide req file s
              (not (empty req.requester_id) && not (str_eq req.requester_id file.owner_id))
      ]

  delete_file-owner :
      empty req.file_id ≡ false
      → find_file req.file_id s ≡ some file
      → IsOwner req file
      → delete_file req s ≡ ((success, true), gone req file s)
  unfolding decide
  delete_file-owner named found (inl e) =
      delete_file-found named found
      ∙ ap (decide req file s)
          (passes_unknown (empty req.requester_id) (not (str_eq req.requester_id file.owner_id)) e)
  delete_file-owner named found (inr e) =
      delete_file-found named found
      ∙ ap (decide req file s)
          (passes (empty req.requester_id) (str_eq req.requester_id file.owner_id) e)
    where
      passes : (a b : Bool) → b ≡ true → (not a && not b) ≡ false
      passes true b h = refl
      passes false b h = ap not h

pub find_file-gone :
    (req : FileRequest) (file : StoredFile) (s : FileService)
    → find_file req.file_id (gone req file s) ≡ none
unfolding find_file try_remove
find_file-gone req file s =
    ap shown (lookup-assign req.file_id (record file { deleted = true }) s.files)
  where
    shown : Option StoredFile → Option StoredFile
    shown o = elim o [ none ↦ none | some file ↦ if file.deleted then none else some file ]

-- The answers to those who ask for an unknown file.
unknown :
    (req : FileRequest) (writes : List (Option Bool)) (s : FileService)
    → empty req.file_id ≡ false
    → find_file req.file_id s ≡ none
    → (download req writes s ≡ ((failed not_found "Unknown file", []), s))
      × (get_metadata req s ≡ (failed not_found "Unknown file", none))
      × (delete_file req s ≡ ((failed not_found "Unknown file", false), s))
unfolding download get_metadata delete_file
unknown req writes s named none_there =
    (rw (named, none_there), rw (named, none_there), rw (named, none_there))

-- What a removal leaves of the file on the disk: nothing, or all of it where the removal fails.
abbrev pub left_over : Str → FileService → Option Str
left_over path s = elim (next_event s.disk_faults) [ none ↦ none | some n ↦ lookup path s.entries ]

lookup-try_remove :
    (path : Str) (s : FileService) → lookup path (try_remove path s).entries ≡ left_over path s
unfolding try_remove
lookup-try_remove path s = by_event (next_event s.disk_faults)
  where
    by_event :
        (o : Option ℕ)
        → lookup path (elim o [ none ↦ erase path s.entries | some n ↦ s.entries ])
          ≡ elim o [ none ↦ none | some n ↦ lookup path s.entries ]
    by_event none = lookup-erase path s.entries
    by_event (some n) = refl

-- A removal, whether it fails or not, leaves the other files on the disk.
pub lookup-try_remove_other :
    (path p : Str) (s : FileService)
    → str_eq path p ≡ false
    → lookup p (try_remove path s).entries ≡ lookup p s.entries
unfolding try_remove
lookup-try_remove_other path p s other = by_event (next_event s.disk_faults)
  where
    by_event :
        (o : Option ℕ)
        → lookup p (elim o [ none ↦ erase path s.entries | some n ↦ s.entries ])
          ≡ lookup p s.entries
    by_event none = lookup-erase_other path p s.entries other
    by_event (some n) = refl

-- A `Delete` of a file that is found, by its owner or by one who does not say who he is, answers OK,
-- and from then on nobody finds the file: `Download`, `GetMetadata` and `Delete` answer NOT_FOUND,
-- and change nothing. This is so whether or not the file can be removed from the disk; it is off the
-- disk where the removal does not fail, and where it fails, which the answer does not tell, the bytes
-- are all still there.
pub delete_file-hides :
    (req again : FileRequest) (file : StoredFile) (s : FileService) (writes : List (Option Bool))
    → empty req.file_id ≡ false
    → find_file req.file_id s ≡ some file
    → IsOwner req file
    → again.file_id ≡ req.file_id
    → let s' = (delete_file req s).1 in
      ((delete_file req s).0 ≡ (success, true))
      × (lookup file.file_path s'.entries ≡ left_over file.file_path s)
      × (download again writes s' ≡ ((failed not_found "Unknown file", []), s'))
      × (get_metadata again s' ≡ (failed not_found "Unknown file", none))
      × (delete_file again s' ≡ ((failed not_found "Unknown file", false), s'))
delete_file-hides req again file s writes named found owner same =
    let e = delete_file-owner req file s named found owner in
    let (d, m, x) = unknown again writes (delete_file req s).1 (ap empty same ∙ named) (
      ap (λ id. find_file id (delete_file req s).1) same
      ∙ (ap (λ r. find_file req.file_id r.1) e ∙ find_file-gone req file s)) in
    (
      ap (λ r. r.0) e,
      ap (λ r. lookup file.file_path r.1.entries) e ∙ lookup-try_remove file.file_path s,
      d,
      m,
      x,
    )
