-- ===== src/Base64/RoundTrip.antt =====
-- What `encode` writes, `decode` reads back.
use Prim.Native.Nat.{bit_and, bit_or}
use wizz_mania.Prelude.{
  ℕ, ◌+◌, ◌*◌, ◌/◌, ◌%◌, ◌<◌, ◌≡◌, refl, ap, false, [], ◌∷◌, arith, length, All,
}
use wizz_mania.Prelude.Text.{Str, empty}
use wizz_mania.Prelude.Result.{ok}
use wizz_mania.Base64.{
  letter, bad_group, group_bytes, encode, decode_groups, decode, strip_spaces, safe_b64_decode,
}
use wizz_mania.Base64.Sextets.{masks, join_2, join_4, join_6, letters}

abbrev pub AreBytes : Str → Type 0
AreBytes = All (λ b. b < 256)

-- The sextets of each kind of group, as arithmetic.
module _ (b0 : ℕ) (h0 : b0 < 256) where
  first : bit_and (b0 / 4) 0x3F ≡ b0 / 4
  first = omega (arith, (masks (b0 / 4) (omega arith)).2)

  encode_1 : encode (b0 ∷ []) ≡ letter (b0 / 4) ∷ letter (b0 % 4 * 16) ∷ b'=' ∷ b'=' ∷ []
  unfolding encode
  encode_1 = rw (first, (masks b0 h0).0)

  second :
      (b1 : ℕ)
      → b1 < 256
      → bit_or (bit_and b0 0x03 * 16) (bit_and (b1 / 16) 0x0F) ≡ b0 % 4 * 16 + b1 / 16
  second b1 h1 =
      rw ((masks b0 h0).0, (masks (b1 / 16) (omega arith)).1)
        (rw (join_4 (b0 % 4) (b1 / 16 % 16) (omega arith) (omega arith)) (omega arith))

  encode_2 :
      (b1 : ℕ)
      → b1 < 256
      → encode (b0 ∷ b1 ∷ [])
        ≡ letter (b0 / 4) ∷ letter (b0 % 4 * 16 + b1 / 16) ∷ letter (b1 % 16 * 4) ∷ b'=' ∷ []
  unfolding encode
  encode_2 b1 h1 = rw (first, second b1 h1, (masks b1 h1).1)

  third :
      (b2 : ℕ)
      → b2 < 256
      → bit_or (bit_and b0 0x0F * 4) (bit_and (b2 / 64) 0x03) ≡ b0 % 16 * 4 + b2 / 64
  third b2 h2 =
      rw ((masks b0 h0).1, (masks (b2 / 64) (omega arith)).0)
        (rw (join_2 (b0 % 16) (b2 / 64 % 4) (omega arith) (omega arith)) (omega arith))

encode_3 :
    (b0 b1 b2 : ℕ) (rest : Str)
    → b0 < 256
    → b1 < 256
    → b2 < 256
    → encode (b0 ∷ b1 ∷ b2 ∷ rest)
      ≡ letter (b0 / 4)
        ∷ letter (b0 % 4 * 16 + b1 / 16)
        ∷ letter (b1 % 16 * 4 + b2 / 64)
        ∷ letter (b2 % 64)
        ∷ encode rest
unfolding encode
encode_3 b0 b1 b2 rest h0 h1 h2 =
    rw (first b0 h0, second b0 h0 b1 h1, third b1 h1 b2 h2, (masks b2 h2).2)

-- The bytes of a group, from its sextets.
module _ (x0 x1 x2 x3 : ℕ) (h0 : x0 < 64) (h1 : x1 < 64) (h2 : x2 < 64) (h3 : x3 < 64) where
  byte_0 : bit_or (x0 * 4) (x1 / 16) % 256 ≡ x0 * 4 + x1 / 16
  byte_0 = omega (arith, join_2 x0 (x1 / 16) h0 (omega arith))

  byte_1 : bit_or (bit_and x1 0x0F * 16) (x2 / 4) % 256 ≡ x1 % 16 * 16 + x2 / 4
  byte_1 =
      rw ((masks x1 (omega arith)).1)
        (omega (arith, join_4 (x1 % 16) (x2 / 4) (omega arith) (omega arith)))

  byte_2 : bit_or (bit_and x2 0x03 * 64) x3 % 256 ≡ x2 % 4 * 64 + x3
  byte_2 = rw ((masks x2 (omega arith)).0) (omega (arith, join_6 (x2 % 4) x3 (omega arith) h3))

  group_3 :
      (bad_group (letter x0) (letter x1) (letter x2) (letter x3) ≡ false)
      × (group_bytes (letter x0) (letter x1) (letter x2) (letter x3)
          ≡ (x0 * 4 + x1 / 16) ∷ (x1 % 16 * 16 + x2 / 4) ∷ (x2 % 4 * 64 + x3) ∷ [])
  unfolding bad_group group_bytes
  group_3 = (
    ground (arith, letters x0 h0, letters x1 h1, letters x2 h2, letters x3 h3),
    ground
        (arith, letters x0 h0, letters x1 h1, letters x2 h2, letters x3 h3, byte_0, byte_1, byte_2),
  )

  group_2 :
      (bad_group (letter x0) (letter x1) (letter x2) b'=' ≡ false)
      × (group_bytes (letter x0) (letter x1) (letter x2) b'='
          ≡ (x0 * 4 + x1 / 16) ∷ (x1 % 16 * 16 + x2 / 4) ∷ [])
  unfolding bad_group group_bytes
  group_2 = (
    ground (arith, letters x0 h0, letters x1 h1, letters x2 h2),
    ground (arith, letters x0 h0, letters x1 h1, letters x2 h2, byte_0, byte_1),
  )

  group_1 :
      (bad_group (letter x0) (letter x1) b'=' b'=' ≡ false)
      × (group_bytes (letter x0) (letter x1) b'=' b'=' ≡ (x0 * 4 + x1 / 16) ∷ [])
  unfolding bad_group group_bytes
  group_1 = (
    ground (arith, letters x0 h0, letters x1 h1),
    ground (arith, letters x0 h0, letters x1 h1, byte_0),
  )

decode_groups-encode : (bs : Str) → AreBytes bs → decode_groups (encode bs) ≡ ok bs
unfolding decode_groups
decode_groups-encode [] h = unfold encode in refl
decode_groups-encode (b0 ∷ []) h =
    let g =
      group_1 (b0 / 4) (b0 % 4 * 16) 0 0 (omega arith) (omega arith) (omega arith) (omega arith) in
    rw (encode_1 b0 h.0, g.0, g.1) (ap (λ (b : ℕ). ok (b ∷ [])) (omega arith))
decode_groups-encode (b0 ∷ b1 ∷ []) h =
    let g =
      group_2 (b0 / 4) (b0 % 4 * 16 + b1 / 16) (b1 % 16 * 4) 0 (omega arith) (omega arith)
        (omega arith) (omega arith) in
    rw (encode_2 b0 h.0 b1 h.1.0, g.0, g.1) (ground arith)
decode_groups-encode (b0 ∷ b1 ∷ b2 ∷ rest) h =
    let g =
      group_3 (b0 / 4) (b0 % 4 * 16 + b1 / 16) (b1 % 16 * 4 + b2 / 64) (b2 % 64) (omega arith)
        (omega arith) (omega arith) (omega arith) in
    rw (encode_3 b0 b1 b2 rest h.0 h.1.0 h.1.1.0, g.0, g.1, decode_groups-encode rest h.1.1.1)
      (ground arith)

strip_spaces-encode : (bs : Str) → AreBytes bs → strip_spaces (encode bs) ≡ encode bs
unfolding strip_spaces
strip_spaces-encode [] h = unfold encode in refl
strip_spaces-encode (b0 ∷ []) h =
    rw (encode_1 b0 h.0)
      (ground (arith, letters (b0 / 4) (omega arith), letters (b0 % 4 * 16) (omega arith)))
strip_spaces-encode (b0 ∷ b1 ∷ []) h = rw (encode_2 b0 h.0 b1 h.1.0) (
    ground (
      arith,
      letters (b0 / 4) (omega arith),
      letters (b0 % 4 * 16 + b1 / 16) (omega arith),
      letters (b1 % 16 * 4) (omega arith),
    ))
strip_spaces-encode (b0 ∷ b1 ∷ b2 ∷ rest) h = rw (encode_3 b0 b1 b2 rest h.0 h.1.0 h.1.1.0) (
    ground (
      arith,
      letters (b0 / 4) (omega arith),
      letters (b0 % 4 * 16 + b1 / 16) (omega arith),
      letters (b1 % 16 * 4 + b2 / 64) (omega arith),
      letters (b2 % 64) (omega arith),
      strip_spaces-encode rest h.1.1.1,
    ))

-- The length of the encoding is the one that `encode` reserves, `((size + 2) / 3) * 4`.
pub length-encode : (bs : Str) → length (encode bs) ≡ (length bs + 2) / 3 * 4
unfolding encode
length-encode [] = refl
length-encode (b0 ∷ []) = refl
length-encode (b0 ∷ b1 ∷ []) = refl
length-encode (b0 ∷ b1 ∷ b2 ∷ rest) = omega (arith, length-encode rest)

empty-encode : (b : ℕ) (bs : Str) → empty (encode (b ∷ bs)) ≡ false
unfolding encode
empty-encode b0 [] = refl
empty-encode b0 (b1 ∷ []) = refl
empty-encode b0 (b1 ∷ b2 ∷ rest) = refl

-- Decoding what `encode` made of a string of bytes gives that string.
pub decode-encode : (bs : Str) → AreBytes bs → decode (encode bs) ≡ ok bs
unfolding decode
decode-encode [] h = unfold encode strip_spaces in refl
decode-encode (b ∷ bs) h =
    rw (strip_spaces-encode (b ∷ bs) h, empty-encode b bs)
      (ground (arith, length-encode (b ∷ bs), decode_groups-encode (b ∷ bs) h))

-- A stored ciphertext comes back from the history as it was sent.
pub safe_b64_decode-encode : (bs : Str) → AreBytes bs → safe_b64_decode (encode bs) ≡ bs
unfolding safe_b64_decode
safe_b64_decode-encode bs h = ground (arith, decode-encode bs h)
