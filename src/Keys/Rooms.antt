-- ===== src/Keys/Rooms.antt =====
-- Room ids are read as they are written.
use wizz_mania.Prelude.{◌≡◌, true, some, refl, Option-cases, inl, inr, sym, ◌∙◌, ap}
use wizz_mania.Prelude.Text.{Str, strip_prefix, strip_prefix-append}
use wizz_mania.Prelude.Int.{ℤ, InRange, int_half}
use wizz_mania.Number.{to_string, parse_int}
use wizz_mania.Number.RoundTrip.{parse_int-to_string, parse_int-InRange}
use wizz_mania.Keys.{parse_room_id, room_id, room_prefix, is_room_id, room_number}

-- Behind the prefix a room id is read as any number is.
room_number-parse_int : (s : Str) → room_number (some s) ≡ parse_int s
unfolding room_number parse_int
room_number-parse_int s = refl

-- The id that the service sends for a room whose number is an `int`, `room:<id>`, is read back
-- as that room.
pub parse_room_id-room_id : (id : ℤ) → InRange int_half id → parse_room_id (room_id id) ≡ some id
unfolding parse_room_id
parse_room_id-room_id id h =
    ap room_number (strip_prefix-append room_prefix (to_string id))
    ∙ (room_number-parse_int (to_string id) ∙ parse_int-to_string id h)

-- A text that the messaging service reads as a room, the gateway takes for a room too, and its
-- number fits an `int`.
pub parse_room_id-is_room_id :
    (s : Str) (id : ℤ) → parse_room_id s ≡ some id → (is_room_id s ≡ true) × InRange int_half id
unfolding parse_room_id is_room_id
parse_room_id-is_room_id s id h = elim (Option-cases (strip_prefix room_prefix s)) [
  | inl e ↦ cc (sym h ∙ ap room_number e)
  | inr (rest, e) ↦ (
    rw (e, is_room_id),
    parse_int-InRange rest id (sym (room_number-parse_int rest) ∙ (sym (ap room_number e) ∙ h)),
  )
]
