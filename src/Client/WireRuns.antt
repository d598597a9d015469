-- ===== src/Client/WireRuns.antt =====
-- Runs of the datagrams: the end of the game 9, and a turn to the left.
use sik_screenworms.Base.{
  ℕ, ◌+◌, ◌≡◌, refl, arith, false, true, List, [], ◌∷◌, codes, some, ok, ◌>>=◌,
}
use sik_screenworms.Common.Bytes.{write_be}
use sik_screenworms.Common.Crc32.{crc32}
use sik_screenworms.Config.{ServerConfig}
use sik_screenworms.Messages.{
  Event, game_over, in_game_over, left, ServerToClientMessage, encode_event, encode_server,
}
use sik_screenworms.Messages.EventCodec.{IsSendable}
use sik_screenworms.Messages.ClientCodec.{IsWellFormed}
use sik_screenworms.MqManager.{Fingerprint}
use sik_screenworms.GameManager.State.{Platform}
use sik_screenworms.GameManager.Handlers.{handle_message}
use sik_screenworms.Server
use sik_screenworms.Server.{Server, register, read_message_from_client}
use sik_screenworms.Client.{Client, init}
use sik_screenworms.Client.Events.{process_message_from_server}
use sik_screenworms.Client.Link.{
  read_message_from_server, exit_on_bad_message, send_message_to_server,
}
use sik_screenworms.Client.Wire.{
  message_of, read_message_from_server-encode_server,
  read_message_from_client-send_message_to_server,
}

abbrev turning : Client
turning = record (init 0 (codes "ann") 77) { turn_direction = left }

abbrev last : Event
last = record { event_no = 4; event_type = game_over; event_data = in_game_over }

abbrev update : ServerToClientMessage
update = record { game_id = 9; events = last ∷ [] }

abbrev datagram : List ℕ
datagram = 0 ∷ 0 ∷ 0 ∷ 9 ∷ 0 ∷ 0 ∷ 0 ∷ 5 ∷ 0 ∷ 0 ∷ 0 ∷ 4 ∷ 3 ∷ 75 ∷ 161 ∷ 17 ∷ 163 ∷ []

encoded : encode_server update ≡ ok datagram
unfolding encode_server encode_event write_be crc32
encoded = refl

last-IsSendable : IsSendable last
last-IsSendable = record { number = omega arith; fits = tt }

read_message_from_server_example :
    read_message_from_server (some datagram) (7 ∷ []) turning
    ≡ exit_on_bad_message (process_message_from_server update turning)
read_message_from_server_example =
    read_message_from_server-encode_server update datagram (7 ∷ []) turning (omega arith)
      (last-IsSendable, tt) encoded (omega arith)

abbrev flat : Platform
flat = record {
  Double = ℕ;
  plus_half = λ n. n;
  add_cos = λ x d. x + 1;
  add_sin = λ y d. y;
  is_negative = λ x. false;
  to_u16 = λ x. x;
  indeterminate = 0;
  indeterminate_word = 0;
}

abbrev config : ServerConfig
config = record {
  port = 2021;
  rng_seed = 1;
  turning_speed = 6;
  rounds_per_sec = 50;
  board_width = 640;
  board_height = 480;
}

abbrev name_of : ℕ → Fingerprint
name_of port = 0 ∷ port ∷ []

abbrev started : Server ℕ ℕ
started = Server.init flat config

turning-IsWellFormed : IsWellFormed (message_of turning)
unfolding message_of init
turning-IsWellFormed = record {
  session = omega arith;
  expected = omega arith;
  name = record { fits = omega arith; printable = ground arith };
}

read_message_from_client_example :
    read_message_from_client flat name_of 9
      (some (50, (send_message_to_server true turning).0))
      []
      started
    ≡ (handle_message flat (name_of 50) (message_of turning) started.game_manager >>= λ g.
        ok (record (register flat (name_of 50) 50 9 started) { game_manager = g }))
read_message_from_client_example =
    read_message_from_client-send_message_to_server flat name_of 9 50 [] true turning started
      turning-IsWellFormed
