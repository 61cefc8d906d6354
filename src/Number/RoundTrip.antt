-- ===== src/Number/RoundTrip.antt =====
-- What `to_string` writes, `parse_int` reads back.
use wizz_mania.Prelude.{
  ℕ, zero, suc, ◌+◌, ◌-◌, ◌*◌, ◌/◌, ◌%◌, ◌<◌, ◌≡◌, inl, inr, refl, sym, ap, ◌∙◌, false, [], ◌∷◌,
  ltb, ◌==◌, Option, none, some, arith, subst, Bool-cases, All,
}
use wizz_mania.Prelude.Text.{Str, empty, is_space, is_digit}
use wizz_mania.Prelude.Int.{
  ℤ, pos, negsuc, in_range, InRange, in_range_iff, int_half, long_long_half,
}
use wizz_mania.Number.{
  digits, scan_digits, scan_unsigned, scan_signed, skip_spaces, with_sign, negate, ranged, stoi,
  whole, parse_int, try_parse_int64, to_string,
}

-- No digit stands at the head of a text.
abbrev pub NoDigit : Str → Type 0
NoDigit [] = Unit
NoDigit (c ∷ s) = is_digit c ≡ false

scan_digits-NoDigit : (v : ℕ) (s : Str) → NoDigit s → scan_digits v s ≡ (v, s)
unfolding scan_digits
scan_digits-NoDigit v [] h = refl
scan_digits-NoDigit v (c ∷ s) h = rw h

-- One more digit is scanned.
scan_digits_step :
    (v d : ℕ) (acc : Str) → d < 10 → scan_digits v ((b'0' + d) ∷ acc) ≡ scan_digits (v * 10 + d) acc
unfolding scan_digits is_digit
scan_digits_step v d acc h =
    let value : v * 10 + (b'0' + d - b'0') ≡ v * 10 + d = omega arith in rw (← value) (ground arith)

scan_unsigned_head :
    (d : ℕ) (acc : Str) → d < 10 → scan_unsigned ((b'0' + d) ∷ acc) ≡ some (scan_digits d acc)
unfolding scan_unsigned is_digit
scan_unsigned_head d acc h =
    let value : b'0' + d - b'0' ≡ d = omega arith in rw value (ground arith)

-- Scanning the digits of n goes on behind them with the value n.
scan_unsigned-digits :
    (f n : ℕ) (acc : Str) → n < f → scan_unsigned (digits f n acc) ≡ some (scan_digits n acc)
unfolding digits
scan_unsigned-digits zero n acc h = absurd (omega arith)
scan_unsigned-digits (suc f) n acc h = elim (Bool-cases (ltb n 10)) [
  | inl one ↦ rw one (scan_unsigned_head n acc (ground arith))
  | inr more ↦
      let value : n / 10 * 10 + n % 10 ≡ n = omega arith in
      rw more (
        scan_unsigned-digits f (n / 10) ((b'0' + n % 10) ∷ acc) (ground arith)
        ∙ ap some (
            scan_digits_step (n / 10) (n % 10) acc (omega arith)
            ∙ ap (λ v. scan_digits v acc) value))
]

-- The digits of a number are not empty, and begin with a digit.
digits_head :
    (f n : ℕ) (acc : Str)
    → n < f
    → (d : ℕ) × (t : Str) × (d < 10) × (digits f n acc ≡ (b'0' + d) ∷ t)
unfolding digits
digits_head zero n acc h = absurd (omega arith)
digits_head (suc f) n acc h = elim (Bool-cases (ltb n 10)) [
  | inl one ↦ (n, acc, ground arith, rw one)
  | inr more ↦ rw more (digits_head f (n / 10) ((b'0' + n % 10) ∷ acc) (ground arith))
]

module _ (d : ℕ) (t : Str) (h : d < 10) where
  skip_spaces-digit : skip_spaces ((b'0' + d) ∷ t) ≡ (b'0' + d) ∷ t
  unfolding skip_spaces is_space
  skip_spaces-digit = ground arith

  scan_signed-digit : scan_signed ((b'0' + d) ∷ t) ≡ with_sign pos (scan_unsigned ((b'0' + d) ∷ t))
  unfolding scan_signed
  scan_signed-digit = ground arith

skip_spaces-digits : (f n : ℕ) (acc : Str) → n < f → skip_spaces (digits f n acc) ≡ digits f n acc
skip_spaces-digits f n acc h =
    let (d, t, small, e) = digits_head f n acc h in rw e (skip_spaces-digit d t small)

scan_signed-digits :
    (f n : ℕ) (acc : Str) → n < f → NoDigit acc → scan_signed (digits f n acc) ≡ some (pos n, acc)
unfolding with_sign
scan_signed-digits f n acc h stop =
    let (d, t, small, e) = digits_head f n acc h in
    rw e (
      scan_signed-digit d t small
      ∙ ap (with_sign pos) (
          sym (ap scan_unsigned e)
          ∙ scan_unsigned-digits f n acc h
          ∙ ap some (scan_digits-NoDigit n acc stop)))

scan_minus :
    (t : Str) (n : ℕ)
    → scan_unsigned t ≡ some (suc n, [])
    → scan_signed (skip_spaces (b'-' ∷ t)) ≡ some (negsuc n, [])
unfolding scan_signed skip_spaces is_space with_sign negate
scan_minus t n h = rw h

-- `stoi` reads any value in its range as `to_string` wrote it.
pub stoi-to_string : (half : ℕ) (v : ℤ) → InRange half v → stoi half (to_string v) ≡ some (v, [])
unfolding stoi to_string
stoi-to_string half (pos n) h =
    rw
      (
        skip_spaces-digits (suc n) n [] (omega arith),
        scan_signed-digits (suc n) n [] (omega arith) tt,
      )
      (ground arith)
stoi-to_string half (negsuc n) h =
    ap (ranged half) (
      scan_minus (digits (suc (suc n)) (suc n) []) n
        (scan_unsigned-digits (suc (suc n)) (suc n) [] (omega arith) ∙ scan_end))
    ∙ ground arith
  where
    scan_end : some (scan_digits (suc n) []) ≡ some (suc n, [])
    scan_end = refl

to_string-not_empty : (v : ℤ) → empty (to_string v) ≡ false
unfolding to_string
to_string-not_empty (pos n) = let (d, t, small, e) = digits_head (suc n) n [] (omega arith) in rw e
to_string-not_empty (negsuc n) = refl

-- A value of `int` is read back by `parse_int` as `to_string` wrote it.
pub parse_int-to_string : (v : ℤ) → InRange int_half v → parse_int (to_string v) ≡ some v
unfolding parse_int
parse_int-to_string v h = rw (to_string-not_empty v, stoi-to_string int_half v h)

pub try_parse_int64-to_string :
    (v : ℤ) → InRange long_long_half v → try_parse_int64 (to_string v) ≡ some v
unfolding try_parse_int64
try_parse_int64-to_string v h = rw (to_string-not_empty v, stoi-to_string long_long_half v h)

whole-ranged-InRange :
    (half : ℕ) (o : Option (ℤ × Str)) (v : ℤ) → whole (ranged half o) ≡ some v → InRange half v
unfolding whole ranged
whole-ranged-InRange half none v h = cc
whole-ranged-InRange half (some (w, [])) v h = elim (Bool-cases (in_range half w)) [
  | inl fits ↦ subst (InRange half) (ground arith) ((in_range_iff half w).0 fits)
  | inr big ↦ ground arith
]
whole-ranged-InRange half (some (w, c ∷ s)) v h = ground arith

whole-stoi-InRange : (half : ℕ) (s : Str) (v : ℤ) → whole (stoi half s) ≡ some v → InRange half v
unfolding stoi
whole-stoi-InRange half s v h = whole-ranged-InRange half _ v h

-- What `parse_int` returns fits an `int`.
pub parse_int-InRange : (s : Str) (v : ℤ) → parse_int s ≡ some v → InRange int_half v
unfolding parse_int
parse_int-InRange s v h = whole-stoi-InRange int_half s v (ground arith)

-- A digit or a sign stands at every place of a number's text.
digits-All :
    (P : ℕ → Type 0)
    → ((d : ℕ) → d < 10 → P (b'0' + d))
    → (f n : ℕ) (acc : Str) → All P acc
    → All P (digits f n acc)
unfolding digits
digits-All P h zero n acc a = a
digits-All P h (suc f) n acc a = elim (Bool-cases (ltb n 10)) [
  | inl one ↦ rw one (h n (ground arith), a)
  | inr more ↦
      rw more (digits-All P h f (n / 10) ((b'0' + n % 10) ∷ acc) (h (n % 10) (omega arith), a))
]

-- No text of a number holds a colon.
pub to_string-no_colon : (v : ℤ) → All (λ c. (c == b':') ≡ false) (to_string v)
unfolding to_string
to_string-no_colon (pos n) = digits-All _ (λ d h. ground arith) (suc n) n [] tt
to_string-no_colon (negsuc n) =
    (refl, digits-All _ (λ d h. ground arith) (suc (suc n)) (suc n) [] tt)
