-- ===== src/Base64/Errors.antt =====
-- When `decode` throws, and what it can return.
use wizz_mania.Prelude.{ℕ, ◌%◌, ◌≡◌, ◌≢◌, ◌↔◌, not, ◌∷◌, arith, length, filter}
use wizz_mania.Prelude.Text.{is_space, Str}
use wizz_mania.Prelude.Result.{err}
use wizz_mania.Base64.{invalid_length, decode_groups, decode, strip_spaces}

-- The number of characters that are not white space.
abbrev pub text_length : Str → ℕ
text_length s = length (filter (λ c. not (is_space c)) s)

decode_groups-ne-invalid_length : (s : Str) → decode_groups s ≢ err invalid_length
unfolding decode_groups
decode_groups-ne-invalid_length (c0 ∷ c1 ∷ c2 ∷ c3 ∷ rest) e =
    ground (arith, decode_groups-ne-invalid_length rest)
decode_groups-ne-invalid_length _ e = cc

-- `decode` throws "invalid base64 length" exactly when the characters that are not white space
-- are no multiple of four.
pub decode-invalid_length_iff :
    (s : Str) → (decode s ≡ err invalid_length) ↔ (text_length s % 4 ≢ 0)
unfolding decode strip_spaces
decode-invalid_length_iff s =
    ground (arith, decode_groups-ne-invalid_length (filter (λ c. not (is_space c)) s))
