-- ===== src/Base64.antt =====
-- services/messaging_service/src/utils/Base64.cpp. A byte is a number below 256; a loop over
-- the input is a recursion that takes three bytes, or four characters, at a time.
pub mod Sextets
pub mod RoundTrip
pub mod Errors
use Prim.Native.Nat.{bit_and, bit_or}
use wizz_mania.Prelude.{
  ℕ, ◌+◌, ◌-◌, ◌*◌, ◌/◌, ◌%◌, ◌^◌, Bool, true, false, ◌&&◌, ◌||◌, not, List, [], ◌∷◌, ◌++◌, ltb,
  leb, ◌==◌, if◌then◌else◌, length, get_elem?, filter, Option, none, some,
}
use wizz_mania.Prelude.Text.{Str, codes, empty, is_space}
use wizz_mania.Prelude.Result.{Result, ok, err, ◌>>=◌}

-- `kAlphabet`
abbrev pub alphabet : Str
alphabet = codes "ABCDEFGHIJKLMNOPQRSTUVWXYZabcdefghijklmnopqrstuvwxyz0123456789+/"

-- `kAlphabet[i]`; behind the last character stands the literal's NUL.
pub letter : ℕ → ℕ
letter i = elim (get_elem? alphabet i) [ none ↦ 0 | some c ↦ c ]

-- `std::isalnum` in the "C" locale.
is_alnum : ℕ → Bool
is_alnum c = (leb b'0' c && leb c b'9') || (leb b'A' c && leb c b'Z') || (leb b'a' c && leb c b'z')

pub is_base64_char : ℕ → Bool
unfolding is_alnum
is_base64_char c = is_alnum c || c == b'+' || c == b'/'

pub b64_value : ℕ → ℕ
b64_value c =
    if leb b'A' c && leb c b'Z'
    then c - b'A'
    else if leb b'a' c && leb c b'z'
    then c - b'a' + 26
    else if leb b'0' c && leb c b'9'
    then c - b'0' + 52
    else if c == b'+'
    then 62
    else if c == b'/'
    then 63
    else 255

-- `x << k` and `x >> k`; no shift here passes 32 bits.
abbrev shl : ℕ → ℕ → ℕ
shl x k = x * 2 ^ k

abbrev shr : ℕ → ℕ → ℕ
shr x k = x / 2 ^ k

pub encode : Str → Str
encode [] = []
encode (b0 ∷ []) =
    letter (bit_and (shr b0 2) 0x3F) ∷ letter (shl (bit_and b0 0x03) 4) ∷ b'=' ∷ b'=' ∷ []
encode (b0 ∷ b1 ∷ []) =
    letter (bit_and (shr b0 2) 0x3F)
    ∷ letter (bit_or (shl (bit_and b0 0x03) 4) (bit_and (shr b1 4) 0x0F))
    ∷ letter (shl (bit_and b1 0x0F) 2)
    ∷ b'='
    ∷ []
encode (b0 ∷ b1 ∷ b2 ∷ rest) =
    letter (bit_and (shr b0 2) 0x3F)
    ∷ letter (bit_or (shl (bit_and b0 0x03) 4) (bit_and (shr b1 4) 0x0F))
    ∷ letter (bit_or (shl (bit_and b1 0x0F) 2) (bit_and (shr b2 6) 0x03))
    ∷ letter (bit_and b2 0x3F)
    ∷ encode rest

pub data Error : Type 0 where
  invalid_length invalid_character : Error

-- The test of one group of four characters.
pub bad_group : ℕ → ℕ → ℕ → ℕ → Bool
bad_group c0 c1 c2 c3 =
    not (is_base64_char c0)
    || not (is_base64_char c1)
    || (not (c2 == b'=') && not (is_base64_char c2))
    || (not (c3 == b'=') && not (is_base64_char c3))

-- `v2` and `v3`: padding has the value 0.
value_or_pad : ℕ → ℕ
value_or_pad c = if c == b'=' then 0 else b64_value c

-- What one group appends to `out`; `static_cast<char>` keeps the low byte.
pub group_bytes : ℕ → ℕ → ℕ → ℕ → Str
unfolding value_or_pad
group_bytes c0 c1 c2 c3 =
    let v0 = b64_value c0 in
    let v1 = b64_value c1 in
    let v2 = value_or_pad c2 in
    let v3 = value_or_pad c3 in
    let third = if c3 == b'=' then [] else (bit_or (shl (bit_and v2 0x03) 6) v3 % 256) ∷ [] in
    let second =
      if c2 == b'=' then third else (bit_or (shl (bit_and v1 0x0F) 4) (shr v2 2) % 256) ∷ third in
    (bit_or (shl v0 2) (shr v1 4) % 256) ∷ second

-- The loop over the groups. The length is a multiple of four, so no group is cut short.
pub decode_groups : Str → Result Error Str
decode_groups (c0 ∷ c1 ∷ c2 ∷ c3 ∷ rest) =
    if bad_group c0 c1 c2 c3
    then err invalid_character
    else (decode_groups rest >>= λ out. ok (group_bytes c0 c1 c2 c3 ++ out))
decode_groups _ = ok []

-- The copy without white space.
pub strip_spaces : Str → Str
unfolding is_space
strip_spaces = filter (λ c. not (is_space c))

pub decode : Str → Result Error Str
unfolding strip_spaces
decode b64 =
    let input = strip_spaces b64 in
    if empty input
    then ok []
    else if not (length input % 4 == 0)
    then err invalid_length
    else decode_groups input

-- `MessagingServiceImpl::safe_b64_decode`: what is no base64 is returned as it is.
unfoldable pub safe_b64_decode : Str → Str
safe_b64_decode b64 = elim (decode b64) [ ok out ↦ out | err e ↦ b64 ]
