-- ===== src/Examples/Texts.antt =====
-- Concrete inputs to Base64.cpp, to the parsers of messaging_service.cpp and to the keys of
-- gateway_service/src/main.cpp.
use wizz_mania.Prelude.{true, ◌≡◌, ◌≢◌, ◌↔◌, refl, [], ◌∷◌, some, length, ◌+◌, ◌*◌, ◌/◌, ◌%◌, arith}
use wizz_mania.Prelude.Text.{strip_prefix, Str, codes}
use wizz_mania.Prelude.Result.{ok, err}
use wizz_mania.Prelude.Int.{pos, InRange, int_half}
use wizz_mania.Base64.{encode, decode, invalid_length}
use wizz_mania.Base64.RoundTrip.{AreBytes, decode-encode, length-encode}
use wizz_mania.Base64.Errors.{text_length, decode-invalid_length_iff}
use wizz_mania.Number.{stoi, try_parse_int64}
use wizz_mania.Keys.{is_room_id, parse_room_id, room_id, parse_dm_key, dm_conversation_key}
use wizz_mania.Keys.Rooms.{parse_room_id-is_room_id, parse_room_id-room_id}
use wizz_mania.Keys.Pairs.{dm_conversation_key_comm, parse_dm_key-dm_conversation_key, ordered}

abbrev some_bytes : Str
some_bytes = 0 ∷ 255 ∷ 16 ∷ 7 ∷ []

some_bytes-AreBytes : AreBytes some_bytes
some_bytes-AreBytes = (omega arith, (omega arith, (omega arith, (omega arith, tt))))

decode-encode_example : decode (encode some_bytes) ≡ ok some_bytes
decode-encode_example = decode-encode some_bytes some_bytes-AreBytes

length-encode_example : length (encode some_bytes) ≡ (length some_bytes + 2) / 3 * 4
length-encode_example = length-encode some_bytes

decode-invalid_length_iff_example :
    (decode (codes "QQ= =A") ≡ err invalid_length) ↔ (text_length (codes "QQ= =A") % 4 ≢ 0)
decode-invalid_length_iff_example = decode-invalid_length_iff (codes "QQ= =A")

parse_room_id-room_id_example : parse_room_id (room_id (pos 12)) ≡ some (pos 12)
parse_room_id-room_id_example = parse_room_id-room_id (pos 12) (omega arith)

dm_conversation_key_comm_example :
    dm_conversation_key (codes "12") (codes "bob") ≡ dm_conversation_key (codes "bob") (codes "12")
dm_conversation_key_comm_example = dm_conversation_key_comm (codes "12") (codes "bob")

seven : try_parse_int64 (codes "7") ≡ some (pos 7)
unfolding try_parse_int64
seven = refl

three : try_parse_int64 (codes "03") ≡ some (pos 3)
unfolding try_parse_int64
three = refl

parse_dm_key-dm_conversation_key_example :
    parse_dm_key (dm_conversation_key (codes "7") (codes "03")) ≡ some (ordered (pos 7) (pos 3))
parse_dm_key-dm_conversation_key_example =
    parse_dm_key-dm_conversation_key (codes "7") (codes "03") (pos 7) (pos 3) seven three
      (omega arith) (omega arith)

room_twelve : parse_room_id (codes "room:012") ≡ some (pos 12)
unfolding parse_room_id strip_prefix stoi
room_twelve = refl

parse_room_id-is_room_id_example :
    (is_room_id (codes "room:012") ≡ true) × InRange int_half (pos 12)
parse_room_id-is_room_id_example = parse_room_id-is_room_id (codes "room:012") (pos 12) room_twelve
