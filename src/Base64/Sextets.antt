-- ===== src/Base64/Sextets.antt =====
-- The bit operations of Base64.cpp as arithmetic, and the alphabet against `b64_value`.
use Prim.Native.Nat.{bit_and, bit_or}
use wizz_mania.Prelude.{
  ℕ, ◌+◌, ◌*◌, ◌/◌, ◌%◌, ◌<◌, ◌≡◌, refl, true, false, ◌&&◌, not, arith, ◌==◌, holds_below,
  holds_below_at,
}
use wizz_mania.Prelude.Text.{is_space}
use wizz_mania.Base64.{letter, is_base64_char, b64_value}

mask_table :
    holds_below 256
      (λ x. (bit_and x 0x03 == x % 4) && (bit_and x 0x0F == x % 16) && (bit_and x 0x3F == x % 64))
    ≡ true
unfolding holds_below
mask_table = refl

pub masks :
    (x : ℕ)
    → x < 256
    → (bit_and x 0x03 ≡ x % 4) × (bit_and x 0x0F ≡ x % 16) × (bit_and x 0x3F ≡ x % 64)
masks x h = ground (arith, holds_below_at _ x 256 h mask_table)

join_table :
    holds_below 256 (λ x.
      (bit_or (x / 4 * 4) (x % 4) == x)
      && (bit_or (x / 16 * 16) (x % 16) == x)
      && (bit_or (x / 64 * 64) (x % 64) == x))
    ≡ true
unfolding holds_below
join_table = refl

joins :
    (x : ℕ)
    → x < 256
    → (bit_or (x / 4 * 4) (x % 4) ≡ x)
      × (bit_or (x / 16 * 16) (x % 16) ≡ x)
      × (bit_or (x / 64 * 64) (x % 64) ≡ x)
joins x h = ground (arith, holds_below_at _ x 256 h join_table)

pub join_2 : (a b : ℕ) → a < 64 → b < 4 → bit_or (a * 4) b ≡ a * 4 + b
join_2 a b ha hb =
    let quot : (a * 4 + b) / 4 ≡ a = omega arith in
    let rem : (a * 4 + b) % 4 ≡ b = omega arith in
    rw (quot, rem) at ((joins (a * 4 + b) (omega arith)).0)

pub join_4 : (a b : ℕ) → a < 16 → b < 16 → bit_or (a * 16) b ≡ a * 16 + b
join_4 a b ha hb =
    let quot : (a * 16 + b) / 16 ≡ a = omega arith in
    let rem : (a * 16 + b) % 16 ≡ b = omega arith in
    rw (quot, rem) at ((joins (a * 16 + b) (omega arith)).1)

pub join_6 : (a b : ℕ) → a < 4 → b < 64 → bit_or (a * 64) b ≡ a * 64 + b
join_6 a b ha hb =
    let quot : (a * 64 + b) / 64 ≡ a = omega arith in
    let rem : (a * 64 + b) % 64 ≡ b = omega arith in
    rw (quot, rem) at ((joins (a * 64 + b) (omega arith)).2)

letter_table :
    holds_below 64 (λ i.
      is_base64_char (letter i)
      && not (is_space (letter i))
      && not (letter i == b'=')
      && (b64_value (letter i) == i))
    ≡ true
unfolding holds_below letter is_base64_char is_space b64_value
letter_table = refl

pub letters :
    (i : ℕ)
    → i < 64
    → (is_base64_char (letter i) ≡ true)
      × (is_space (letter i) ≡ false)
      × ((letter i == b'=') ≡ false)
      × (b64_value (letter i) ≡ i)
letters i h = ground (arith, holds_below_at _ i 64 h letter_table)
