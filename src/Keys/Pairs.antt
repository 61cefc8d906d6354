-- ===== src/Keys/Pairs.antt =====
-- The key of a pair of users.
use wizz_mania.Prelude.{
  ℕ, ◌≡◌, Bool, true, false, none, some, ◌++◌, [], ◌∷◌, arith, refl, Option, ◌∙◌, ap, ◌==◌,
  if◌then◌else◌, All,
}
use wizz_mania.Prelude.Text.{Str, strip_prefix, strip_prefix-append, split_at, empty}
use wizz_mania.Prelude.Int.{ℤ, pos, negsuc, InRange, int_half, int_gt}
use wizz_mania.Number.{to_string, whole, try_parse_int64}
use wizz_mania.Number.RoundTrip.{stoi-to_string, to_string-no_colon}
use wizz_mania.Keys.{
  dm_conversation_key, dm_key_of, dm_text, numeric_key, str_le, parse_dm_key, split_dm, dm_parts,
  dm_prefix, parse_room_id, room_number,
}

numeric_key_comm : (a b : ℤ) → numeric_key a b ≡ numeric_key b a
unfolding numeric_key
numeric_key_comm (pos m) (pos n) = ground arith
numeric_key_comm (negsuc m) (negsuc n) = ground arith
numeric_key_comm (pos m) (negsuc n) = refl
numeric_key_comm (negsuc m) (pos n) = refl

str_le-total : (s t : Str) → str_le s t ≡ false → str_le t s ≡ true
unfolding str_le
str_le-total [] t h = cc
str_le-total (c ∷ s) [] h = refl
str_le-total (c ∷ s) (d ∷ t) h = ground (arith, str_le-total s t)

str_le_antisymm : (s t : Str) → str_le s t ≡ true → str_le t s ≡ true → s ≡ t
unfolding str_le
str_le_antisymm [] [] h k = refl
str_le_antisymm [] (d ∷ t) h k = cc
str_le_antisymm (c ∷ s) [] h k = cc
str_le_antisymm (c ∷ s) (d ∷ t) h k = ground (arith, str_le_antisymm s t)

lexical_comm :
    (s t : Str)
    → (if str_le s t then dm_text s t else dm_text t s)
      ≡ (if str_le t s then dm_text t s else dm_text s t)
lexical_comm s t = ground (arith, str_le-total s t, str_le_antisymm s t)

dm_key_of_comm : (s t : Str) (a b : Option ℤ) → dm_key_of s t a b ≡ dm_key_of t s b a
unfolding dm_key_of
dm_key_of_comm s t (some a) (some b) = numeric_key_comm a b
dm_key_of_comm s t none (some b) = lexical_comm s t
dm_key_of_comm s t (some a) none = lexical_comm s t
dm_key_of_comm s t none none = lexical_comm s t

-- Two users have one conversation key, whichever of them asks.
pub dm_conversation_key_comm : (s t : Str) → dm_conversation_key s t ≡ dm_conversation_key t s
unfolding dm_conversation_key
dm_conversation_key_comm s t = dm_key_of_comm s t (try_parse_int64 s) (try_parse_int64 t)

-- Users written in two ways, as by "7" and "07", have one key: it depends on the numbers alone.
pub dm_conversation_key-number :
    (s s' t t' : Str) (a b : ℤ)
    → try_parse_int64 s ≡ some a
    → try_parse_int64 s' ≡ some a
    → try_parse_int64 t ≡ some b
    → try_parse_int64 t' ≡ some b
    → dm_conversation_key s t ≡ dm_conversation_key s' t'
unfolding dm_conversation_key dm_key_of
dm_conversation_key-number s s' t t' a b hs hs' ht ht' = rw (hs, hs', ht, ht')

pub split_at-append :
    (c : ℕ) (s t : Str) → All (λ d. (d == c) ≡ false) s → split_at c (s ++ c ∷ t) ≡ some (s, t)
unfolding split_at
split_at-append c [] t h = ground arith
split_at-append c (d ∷ s) t h = rw (h.0, split_at-append c s t h.1)

parse_dm_key-dm_text :
    (a b : ℤ)
    → InRange int_half a
    → InRange int_half b
    → parse_dm_key (dm_text (to_string a) (to_string b)) ≡ some (a, b)
unfolding parse_dm_key dm_text
parse_dm_key-dm_text a b ha hb =
    ap split_dm (strip_prefix-append dm_prefix (to_string a ++ b':' ∷ to_string b))
    ∙ (ap dm_parts (split_at-append b':' (to_string a) (to_string b) (to_string-no_colon a))
        ∙ rw (stoi-to_string int_half a ha, stoi-to_string int_half b hb) (unfold whole in refl))

-- The smaller and the larger of two numbers.
abbrev pub ordered : ℤ → ℤ → ℤ × ℤ
ordered a b = if int_gt a b then (b, a) else (a, b)

-- The key that the gateway makes of two texts of numbers that are `int`s is taken apart by the
-- messaging service into the same two numbers, the smaller one first.
pub parse_dm_key-dm_conversation_key :
    (s t : Str) (a b : ℤ)
    → try_parse_int64 s ≡ some a
    → try_parse_int64 t ≡ some b
    → InRange int_half a
    → InRange int_half b
    → parse_dm_key (dm_conversation_key s t) ≡ some (ordered a b)
unfolding dm_conversation_key dm_key_of numeric_key
parse_dm_key-dm_conversation_key s t a b hs ht ha hb =
    ground (arith, parse_dm_key-dm_text a b ha hb, parse_dm_key-dm_text b a hb ha)

-- The key of two users is never empty, and is no room.
pub record IsPrivate (key : Str) : Type 0 where
  pub named : empty key ≡ false
  pub no_room : parse_room_id key ≡ none

dm_text-IsPrivate : (a b : Str) → IsPrivate (dm_text a b)
unfolding dm_text parse_room_id strip_prefix room_number
dm_text-IsPrivate a b = record { named = refl; no_room = refl }

if-IsPrivate : (b : Bool) (x y x' y' : Str) → IsPrivate (if b then dm_text x y else dm_text x' y')
if-IsPrivate true x y x' y' = dm_text-IsPrivate x y
if-IsPrivate false x y x' y' = dm_text-IsPrivate x' y'

dm_key_of-IsPrivate : (s t : Str) (a b : Option ℤ) → IsPrivate (dm_key_of s t a b)
unfolding dm_key_of numeric_key
dm_key_of-IsPrivate s t (some a) (some b) =
    if-IsPrivate (int_gt a b) (to_string b) (to_string a) (to_string a) (to_string b)
dm_key_of-IsPrivate s t none (some b) = if-IsPrivate (str_le s t) s t t s
dm_key_of-IsPrivate s t (some a) none = if-IsPrivate (str_le s t) s t t s
dm_key_of-IsPrivate s t none none = if-IsPrivate (str_le s t) s t t s

pub dm_conversation_key-IsPrivate : (s t : Str) → IsPrivate (dm_conversation_key s t)
unfolding dm_conversation_key
dm_conversation_key-IsPrivate s t = dm_key_of-IsPrivate s t (try_parse_int64 s) (try_parse_int64 t)
