-- ===== src/Prelude/Maps.antt =====
-- Maps with texts as keys: `std::map<std::string, …>` as an association list.
use mathlib.Core.Path.{◌≡◌, refl, ap, subst}
use mathlib.Core.Option.{Option, none, some}
use mathlib.Core.List.{List, [], ◌∷◌}
use wizz_mania.Prelude.Text.{Str, str_eq, str_eq_refl, str_eq_iff, str_eq_sound}
use mathlib.Core.Logic.{inl, inr}
use wizz_mania.Prelude.Tests.{if◌then◌else◌, Bool-cases}
use wizz_mania.Prelude.Lists.{All}
use native.Mathlib.Omega.{arith}
use mathlib.Core.Bool.{Bool, true, false}

abbrev pub Map {ℓ} : Type ℓ → Type ℓ
Map A = List (Str × A)

module _ {ℓ} {A : Type ℓ} where
  unfoldable pub lookup : Str → Map A → Option A
  lookup k [] = none
  lookup k ((j, v) ∷ m) = if str_eq j k then some v else lookup k m

  unfoldable pub assign : Str → A → Map A → Map A
  assign k v [] = (k, v) ∷ []
  assign k v ((j, w) ∷ m) = if str_eq j k then (k, v) ∷ m else (j, w) ∷ assign k v m

  unfoldable pub erase : Str → Map A → Map A
  erase k [] = []
  erase k ((j, v) ∷ m) = let rest = erase k m in if str_eq j k then rest else (j, v) ∷ rest

  pub lookup-assign : (k : Str) (v : A) (m : Map A) → lookup k (assign k v m) ≡ some v
  unfolding lookup assign
  lookup-assign k v [] = rw (str_eq_refl k)
  lookup-assign k v ((j, w) ∷ m) = elim (Bool-cases (str_eq j k)) [
    | inl e ↦ rw (e, str_eq_refl k)
    | inr e ↦ rw (e, e) (lookup-assign k v m)
  ]

  pub lookup-erase : (k : Str) (m : Map A) → lookup k (erase k m) ≡ none
  unfolding lookup erase
  lookup-erase k [] = refl
  lookup-erase k ((j, v) ∷ m) = elim (Bool-cases (str_eq j k)) [
    | inl e ↦ rw e (lookup-erase k m)
    | inr e ↦ rw (e, e) (lookup-erase k m)
  ]

  -- `emplace`: a key that is there keeps its value.
  unfoldable pub emplace : Str → A → Map A → Map A
  emplace k v [] = (k, v) ∷ []
  emplace k v ((j, w) ∷ m) = if str_eq j k then (j, w) ∷ m else (j, w) ∷ emplace k v m

  pub lookup-assign_other :
      (j k : Str) (v : A) (m : Map A) → str_eq j k ≡ false → lookup k (assign j v m) ≡ lookup k m
  unfolding lookup assign
  lookup-assign_other j k v [] h = rw h refl
  lookup-assign_other j k v ((i, w) ∷ m) h =
      ground
        (arith, lookup-assign_other j k v m h, str_eq_iff i j, str_eq_iff i k, str_eq_iff j k, h)

  pub lookup-erase_other :
      (j k : Str) (m : Map A) → str_eq j k ≡ false → lookup k (erase j m) ≡ lookup k m
  unfolding lookup erase
  lookup-erase_other j k [] h = refl
  lookup-erase_other j k ((i, w) ∷ m) h =
      ground (arith, lookup-erase_other j k m h, str_eq_iff i j, str_eq_iff i k, str_eq_iff j k, h)

module _ {ℓ κ} {A : Type ℓ} (P : Str × A → Type κ) where
  pub All-lookup : (k : Str) (v : A) (m : Map A) → All P m → lookup k m ≡ some v → P (k, v)
  unfolding lookup
  All-lookup k v [] h e = cc e
  All-lookup k v ((j, w) ∷ m) h e = by_test (λ x. All-lookup k v m h.1 x) (str_eq j k) refl e
    where
      by_test :
          (lookup k m ≡ some v → P (k, v))
          → (b : Bool) → str_eq j k ≡ b
          → (if b then some w else lookup k m) ≡ some v
          → P (k, v)
      by_test later true same e =
          let keys : j ≡ k = str_eq_sound j k same in
          let values : w ≡ v = ap (λ o. elim o [ none ↦ w | some x ↦ x ]) e in
          subst P (λ i. (keys i, values i)) h.0
      by_test later false other e = later e

  pub All-assign : (k : Str) (v : A) (m : Map A) → P (k, v) → All P m → All P (assign k v m)
  unfolding assign
  All-assign k v [] p h = (p, tt)
  All-assign k v ((j, w) ∷ m) p h = by_test (All-assign k v m p h.1) (str_eq j k)
    where
      by_test :
          All P (assign k v m)
          → (b : Bool) → All P (if b then (k, v) ∷ m else (j, w) ∷ assign k v m)
      by_test later true = (p, h.1)
      by_test later false = (h.0, later)
