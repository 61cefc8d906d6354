-- ===== src/Files/Apart.antt =====
-- The paths of two ids differ, and an upload writes to one of them: services/file_service/src/
-- FileServiceImpl.cpp.
use wizz_mania.Prelude.{
  ◌≡◌, refl, ap, ◌∙◌, Bool, true, false, List, [], ◌∷◌, ◌++◌, if◌then◌else◌, Bool-cases, inl, inr,
  ◌==◌,
}
use mathlib.Core.List.{append_cancel_right}
use wizz_mania.Prelude.Text.{Str, codes, str_eq, str_eq_sound, str_eq_iff}
use wizz_mania.Prelude.Maps.{lookup, lookup-assign_other}
use wizz_mania.Files.Disk.{FileService, UploadChunk, join_path, make_file_path}
use wizz_mania.Files.Stream.{put, put-files, filled}

join_path-injective : (root a b : Str) → join_path root a ≡ join_path root b → a ≡ b
unfolding join_path
join_path-injective [] a b h = h
join_path-injective (c ∷ []) a b h = by_test (c == b'/') h
  where
    tail : Str → Str
    tail [] = []
    tail (d ∷ s) = s

    by_test :
        (t : Bool)
        → (if t then c ∷ a else c ∷ b'/' ∷ a) ≡ (if t then c ∷ b else c ∷ b'/' ∷ b)
        → a ≡ b
    by_test true h = ap tail h
    by_test false h = ap (λ s. tail (tail s)) h
join_path-injective (c ∷ d ∷ root) a b h = join_path-injective (d ∷ root) a b (ap tail h)
  where
    tail : Str → Str
    tail [] = []
    tail (d ∷ s) = s

-- Two ids have two paths.
pub make_file_path-other :
    (s : FileService) (a b : Str)
    → str_eq a b ≡ false
    → str_eq (make_file_path s a) (make_file_path s b) ≡ false
unfolding make_file_path
make_file_path-other s a b other =
    elim (Bool-cases (str_eq (make_file_path s a) (make_file_path s b))) [
      | inr e ↦ e
      | inl e ↦
          let same : a ≡ b = append_cancel_right a b (codes ".bin") (
            join_path-injective s.storage_root (a ++ codes ".bin") (b ++ codes ".bin")
              (str_eq_sound (make_file_path s a) (make_file_path s b) e)) in
          cc (other, (str_eq_iff a b).1 same)
    ]

put-other :
    (path bytes k : Str) (s : FileService)
    → str_eq path k ≡ false
    → lookup k (put path bytes s).entries ≡ lookup k s.entries
put-other path [] k s other = refl
put-other path (b ∷ bytes) k s other = lookup-assign_other path k _ s.entries other

put-root : (path bytes : Str) (s : FileService) → (put path bytes s).storage_root ≡ s.storage_root
put-root path [] s = refl
put-root path (b ∷ bytes) s = refl

module _ (path : Str) where
  pub filled-other :
      (cs : List UploadChunk) (k : Str) (s : FileService)
      → str_eq path k ≡ false
      → lookup k (filled cs path s).entries ≡ lookup k s.entries
  filled-other [] k s other = refl
  filled-other (c ∷ cs) k s other =
      filled-other cs k (put path c.cipher_chunk s) other ∙ put-other path c.cipher_chunk k s other

  pub filled-files : (cs : List UploadChunk) (s : FileService) → (filled cs path s).files ≡ s.files
  filled-files [] s = refl
  filled-files (c ∷ cs) s =
      filled-files cs (put path c.cipher_chunk s) ∙ put-files path c.cipher_chunk s

  pub filled-root :
      (cs : List UploadChunk) (s : FileService) → (filled cs path s).storage_root ≡ s.storage_root
  filled-root [] s = refl
  filled-root (c ∷ cs) s =
      filled-root cs (put path c.cipher_chunk s) ∙ put-root path c.cipher_chunk s
