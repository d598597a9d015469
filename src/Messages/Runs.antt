-- ===== src/Messages/Runs.antt =====
-- Runs of the codecs.
use sik_screenworms.Base.{
  fail, out_of_fuel, ◌≢◌, ℕ, ◌≤◌, ◌≡◌, refl, arith, List, [], ◌∷◌, ◌++◌, take, length, All, codes,
  ok,
}
use sik_screenworms.Common.Bytes.{IsByte, read_be, byte_at, read_bytes, write_be}
use sik_screenworms.Common.Crc32.{crc32}
use sik_screenworms.Common.Misc.{is_valid_player_name}
use sik_screenworms.Messages.{
  ClientToServerMessage, left, Event, pixel, in_pixel, game_over, in_game_over,
  ServerToClientMessage, encode_client, decode_client, encode_event, decode_event, get_encoded_size,
  encode_server, decode_server, from_events,
}
use sik_screenworms.Messages.ClientCodec.{
  IsWellFormed, decode_client-encode_client, encode_client-decode_client,
}
use sik_screenworms.Messages.EventCodec.{IsSendable, encode_event_size, decode_event-encode_event}
use sik_screenworms.Messages.ServerCodec.{decode_server-encode_server}
use sik_screenworms.Messages.Termination.{decode_server_ends}
use sik_screenworms.Messages.Packing.{Fills, from_events-Fills}

abbrev turns_left : ClientToServerMessage
turns_left = record {
  session_id = 77;
  turn_direction = left;
  next_expected_event_no = 5;
  player_name = codes "ab";
}

turns_left-IsWellFormed : IsWellFormed turns_left
turns_left-IsWellFormed = record {
  session = omega arith;
  expected = omega arith;
  name = record {
    fits = omega arith;
    printable = ((omega arith, omega arith), ((omega arith, omega arith), tt));
  };
}

decode_client_example :
    decode_client (encode_client turns_left ++ 9 ∷ []) (length (encode_client turns_left))
    ≡ ok turns_left
decode_client_example = decode_client-encode_client turns_left (9 ∷ []) turns_left-IsWellFormed

abbrev datagram : List ℕ
datagram = 0 ∷ 0 ∷ 0 ∷ 0 ∷ 0 ∷ 0 ∷ 0 ∷ 77 ∷ 2 ∷ 0 ∷ 0 ∷ 0 ∷ 5 ∷ b'a' ∷ b'b' ∷ []

datagram-bytes : All IsByte datagram
datagram-bytes = ground arith

datagram_run : decode_client datagram 15 ≡ ok turns_left
unfolding decode_client read_be byte_at read_bytes is_valid_player_name
datagram_run = refl

encode_client_example : (encode_client turns_left ≡ take 15 datagram) × IsWellFormed turns_left
encode_client_example =
    encode_client-decode_client datagram 15 turns_left datagram-bytes datagram_run

abbrev eats : Event
eats = record {
  event_no = 3;
  event_type = pixel;
  event_data = in_pixel (record { player_number = 1; x = 640; y = 479 });
}

eats-IsSendable : IsSendable eats
eats-IsSendable = record { number = omega arith; fits = (omega arith, omega arith) }

encode_event_size_example :
    (bytes : List ℕ) × (encode_event eats ≡ ok bytes)
    × (get_encoded_size eats ≡ ok (length bytes))
    × (13 ≤ length bytes)
    × (length bytes ≤ 546)
encode_event_size_example = encode_event_size eats eats-IsSendable

abbrev eats_bytes : List ℕ
eats_bytes =
    0 ∷ 0 ∷ 0 ∷ 14 ∷ 0 ∷ 0 ∷ 0 ∷ 3 ∷ 1 ∷ 1 ∷ 0 ∷ 0 ∷ 2 ∷ 128 ∷ 0 ∷ 0 ∷ 1 ∷ 223 ∷ 24 ∷ 106 ∷ 33 ∷ 217
    ∷ []

eats_run : encode_event eats ≡ ok eats_bytes
unfolding encode_event write_be crc32
eats_run = refl

decode_event_example : decode_event (eats_bytes ++ 1 ∷ []) 30 ≡ ok (eats, length eats_bytes)
decode_event_example =
    decode_event-encode_event eats eats_bytes (1 ∷ []) 30 eats-IsSendable eats_run (omega arith)

abbrev last : Event
last = record { event_no = 4; event_type = game_over; event_data = in_game_over }

abbrev update : ServerToClientMessage
update = record { game_id = 9; events = last ∷ [] }

last-IsSendable : IsSendable last
last-IsSendable = record { number = omega arith; fits = tt }

abbrev update_bytes : List ℕ
update_bytes = 0 ∷ 0 ∷ 0 ∷ 9 ∷ 0 ∷ 0 ∷ 0 ∷ 5 ∷ 0 ∷ 0 ∷ 0 ∷ 4 ∷ 3 ∷ 75 ∷ 161 ∷ 17 ∷ 163 ∷ []

update_run : encode_server update ≡ ok update_bytes
unfolding encode_server encode_event write_be crc32
update_run = refl

decode_server_example : decode_server (update_bytes ++ 7 ∷ []) (length update_bytes) ≡ ok update
decode_server_example =
    decode_server-encode_server update update_bytes (7 ∷ []) (omega arith) (last-IsSendable, tt)
      update_run (omega arith)

from_events_example :
    (n : ℕ) × (message : ServerToClientMessage) × (from_events 9 (eats ∷ last ∷ [])
      ≡ ok (n, message))
    × Fills 9 (eats ∷ last ∷ []) n message
from_events_example =
    from_events-Fills 9 (eats ∷ last ∷ []) (eats-IsSendable, (last-IsSendable, tt))

-- An event whose length is too great.
decode_server_ends_example :
    decode_server (0 ∷ 0 ∷ 0 ∷ 1 ∷ 255 ∷ 255 ∷ 255 ∷ 255 ∷ []) 8 ≢ fail out_of_fuel
decode_server_ends_example = decode_server_ends (0 ∷ 0 ∷ 0 ∷ 1 ∷ 255 ∷ 255 ∷ 255 ∷ 255 ∷ []) 8
