-- ===== src/Number.antt =====
-- Decimal integers in text: `std::stoi`, `std::stoll` and `std::to_string` as the services use
-- them, `parse_int` of auth_service/src/service/AuthServiceImpl.cpp and of
-- services/messaging_service/src/messaging_service.cpp, and `try_parse_int64` of
-- gateway_service/src/main.cpp. What these functions throw is caught at each call: `none`.
pub mod RoundTrip
use wizz_mania.Prelude.{
  ℕ, zero, suc, ◌+◌, ◌-◌, ◌*◌, ◌/◌, ◌%◌, Bool, List, [], ◌∷◌, ltb, ◌==◌, if◌then◌else◌, Option,
  none, some,
}
use wizz_mania.Prelude.Text.{Str, empty, is_space, is_digit}
use wizz_mania.Prelude.Int.{ℤ, pos, negsuc, in_range, int_half, long_long_half}

skip_spaces : Str → Str
skip_spaces [] = []
skip_spaces (c ∷ s) = let rest = skip_spaces s in if is_space c then rest else c ∷ s

-- The digits at the head of a text, behind a value that has been read, and the text behind them.
scan_digits : ℕ → Str → ℕ × Str
scan_digits v [] = (v, [])
scan_digits v (c ∷ s) =
    let more = scan_digits (v * 10 + (c - b'0')) s in if is_digit c then more else (v, c ∷ s)

-- At least one digit.
scan_unsigned : Str → Option (ℕ × Str)
scan_unsigned [] = none
scan_unsigned (c ∷ s) = if is_digit c then some (scan_digits (c - b'0') s) else none

negate : ℕ → ℤ
negate zero = pos 0
negate (suc n) = negsuc n

with_sign : (ℕ → ℤ) → Option (ℕ × Str) → Option (ℤ × Str)
with_sign f none = none
with_sign f (some (n, rest)) = some (f n, rest)

scan_signed : Str → Option (ℤ × Str)
scan_signed [] = none
scan_signed (c ∷ s) =
    if c == b'-'
    then with_sign negate (scan_unsigned s)
    else if c == b'+'
    then with_sign pos (scan_unsigned s)
    else with_sign pos (scan_unsigned (c ∷ s))

-- `none` where the value is out of range, too.
ranged : ℕ → Option (ℤ × Str) → Option (ℤ × Str)
ranged half none = none
ranged half (some (v, rest)) = if in_range half v then some (v, rest) else none

-- `std::stoi(s, &idx)` is `stoi int_half s`, `std::stoll` is `stoi long_long_half s`: the value and
-- the text from `idx` on.
unfoldable pub stoi : ℕ → Str → Option (ℤ × Str)
unfolding skip_spaces scan_digits scan_unsigned negate with_sign scan_signed ranged is_space
    is_digit
stoi half s = ranged half (scan_signed (skip_spaces s))

-- `idx == s.size()`
unfoldable pub whole : Option (ℤ × Str) → Option ℤ
whole none = none
whole (some (v, [])) = some v
whole (some (v, c ∷ s)) = none

unfoldable pub parse_int : Str → Option ℤ
unfolding stoi whole
parse_int s = if empty s then none else whole (stoi int_half s)

unfoldable pub try_parse_int64 : Str → Option ℤ
unfolding stoi whole
try_parse_int64 s = if empty s then none else whole (stoi long_long_half s)

-- `std::to_string`. A number has at most as many digits as its value is high: `suc n` rounds are
-- enough.
digits : ℕ → ℕ → Str → Str
digits zero n acc = acc
digits (suc fuel) n acc =
    let higher = digits fuel (n / 10) ((b'0' + n % 10) ∷ acc) in
    if ltb n 10 then (b'0' + n) ∷ acc else higher

unfoldable pub to_string : ℤ → Str
unfolding digits
to_string (pos n) = digits (suc n) n []
to_string (negsuc n) = b'-' ∷ digits (suc (suc n)) (suc n) []
