-- ===== src/Keys.antt =====
-- The texts that name conversations: `room:<id>` (services/messaging_service/src/
-- messaging_service.cpp), `dm:<id>:<id>` as gateway_service/src/main.cpp makes it, and as
-- services/messaging_service/src/db/Database.cpp takes it apart.
pub mod Rooms
pub mod Pairs
use wizz_mania.Prelude.{
  Bool, true, false, [], ◌∷◌, ◌++◌, ltb, if◌then◌else◌, Option, none, some, length,
}
use wizz_mania.Prelude.Text.{Str, codes, empty, strip_prefix, split_at}
use wizz_mania.Prelude.Int.{ℤ, int_half, int_gt}
use wizz_mania.Number.{stoi, whole, try_parse_int64, to_string}

abbrev pub room_prefix : Str
room_prefix = codes "room:"

abbrev pub dm_prefix : Str
dm_prefix = codes "dm:"

-- `MessagingServiceImpl::parse_room_id`, from the text behind the prefix on.
room_number : Option Str → Option ℤ
unfolding whole
room_number none = none
room_number (some rest) = if empty rest then none else whole (stoi int_half rest)

unfoldable pub parse_room_id : Str → Option ℤ
unfolding room_number
parse_room_id conversation_id = room_number (strip_prefix room_prefix conversation_id)

-- `"room:" + std::to_string(convId)`
abbrev pub room_id : ℤ → Str
room_id id = room_prefix ++ to_string id

-- `is_room_id` and `is_numeric_id` of the gateway.
unfoldable pub is_room_id : Str → Bool
is_room_id s = elim (strip_prefix room_prefix s) [ none ↦ false | some rest ↦ true ]

unfoldable pub is_numeric_id : Str → Bool
is_numeric_id s = elim (try_parse_int64 s) [ none ↦ false | some v ↦ true ]

-- `a <= b` on `std::string`.
str_le : Str → Str → Bool
str_le [] t = true
str_le (c ∷ s) [] = false
str_le (c ∷ s) (d ∷ t) =
    let rest = str_le s t in if ltb c d then true else if ltb d c then false else rest

unfoldable pub dm_text : Str → Str → Str
dm_text a b = dm_prefix ++ (a ++ b':' ∷ b)

unfoldable pub numeric_key : ℤ → ℤ → Str
unfolding dm_text
numeric_key a b =
    if int_gt a b then dm_text (to_string b) (to_string a) else dm_text (to_string a) (to_string b)

-- The key of two users: by the parsed numbers, or in lexical order where one is no number.
unfoldable pub dm_key_of : Str → Str → Option ℤ → Option ℤ → Str
unfolding numeric_key str_le
dm_key_of user_a user_b (some a) (some b) = numeric_key a b
dm_key_of user_a user_b _ _ =
    if str_le user_a user_b then dm_text user_a user_b else dm_text user_b user_a

unfoldable pub dm_conversation_key : Str → Str → Str
unfolding dm_key_of
dm_conversation_key user_a user_b =
    dm_key_of user_a user_b (try_parse_int64 user_a) (try_parse_int64 user_b)

both : Option ℤ → Option ℤ → Option (ℤ × ℤ)
both (some a) (some b) = some (a, b)
both _ _ = none

dm_parts : Option (Str × Str) → Option (ℤ × ℤ)
unfolding both
dm_parts none = none
dm_parts (some (a, b)) = both (whole (stoi int_half a)) (whole (stoi int_half b))

split_dm : Option Str → Option (ℤ × ℤ)
unfolding dm_parts
split_dm none = none
split_dm (some rest) = dm_parts (split_at b':' rest)

-- `parse_dm_key`: the two numbers, or `none` for `false`.
unfoldable pub parse_dm_key : Str → Option (ℤ × ℤ)
unfolding split_dm
parse_dm_key key = split_dm (strip_prefix dm_prefix key)
