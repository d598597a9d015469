-- ===== src/Client/Wire.antt =====
-- The datagrams between the client and the server, from one program to the other.
use sik_screenworms.Base.{
  ℕ, zero, suc, ◌^◌, ◌≤◌, ◌<◌, ◌≡◌, refl, ap, arith, Bool, false, List, [], ◌∷◌, All, length, take,
  ltb, some, ok, ◌>>=◌,
}
use sik_screenworms.Messages.{
  ClientToServerMessage, ServerToClientMessage, encode_server, encode_client,
}
use sik_screenworms.Messages.EventCodec.{IsSendable}
use sik_screenworms.Messages.ServerCodec.{decode_server-encode_server}
use sik_screenworms.Messages.ClientCodec.{
  IsWellFormed, length-encode_client, decode_client-encode_client,
}
use sik_screenworms.MqManager.{Fingerprint}
use sik_screenworms.GameManager.State.{Platform}
use sik_screenworms.GameManager.Handlers.{handle_message}
use sik_screenworms.Server.{Server, register, handle_datagram, read_message_from_client}
use sik_screenworms.Client.{Client}
use sik_screenworms.Client.Events.{process_message_from_server}
use sik_screenworms.Client.Link.{
  read_message_from_server, exit_on_bad_message, send_message_to_server,
}

take_short : (n : ℕ) (xs : List ℕ) → length xs ≤ n → take n xs ≡ xs
take_short zero [] h = refl
take_short zero (x ∷ xs) h = absurd (omega arith)
take_short (suc n) [] h = refl
take_short (suc n) (x ∷ xs) h = ap (◌∷◌ x) (take_short n xs (omega arith))

-- A datagram that the server encoded, of events that can be sent and at most 550 bytes long, has
-- the client do with the very message what `processMessageFromServer` does, whatever else is in the
-- client's buffer.
pub read_message_from_server-encode_server :
    (m : ServerToClientMessage) (bytes stale : List ℕ) (c : Client)
    → m.game_id < 2 ^ 32
    → All IsSendable m.events
    → encode_server m ≡ ok bytes
    → length bytes ≤ 550
    → read_message_from_server (some bytes) stale c
      ≡ exit_on_bad_message (process_message_from_server m c)
unfolding read_message_from_server
read_message_from_server-encode_server m bytes stale c id sendable encoded fits =
    let whole : take 560 bytes ≡ bytes = take_short 560 bytes (omega (arith, fits)) in
    let short : ltb 550 (length bytes) ≡ false = ground arith in
    rw (whole, short, decode_server-encode_server m bytes stale id sendable encoded fits) refl

-- The message of a client's state.
unfoldable pub message_of : Client → ClientToServerMessage
message_of c = record {
  session_id = c.session_id;
  turn_direction = c.turn_direction;
  next_expected_event_no = c.next_wanted_event_no;
  player_name = c.player_name;
}

-- A datagram that a client sends, where the name is valid and the numbers fit their types, has the
-- server register the sender and handle the client's session, direction, next wanted event and
-- name, whatever else is in the server's buffer.
pub read_message_from_client-send_message_to_server :
    (pl : Platform) {Address : Type 0} (fingerprint_netuser : Address → Fingerprint) (now : ℕ)
    (address : Address) (stale : List ℕ) (success : Bool) (c : Client)
    (s : Server pl.Double Address)
    → IsWellFormed (message_of c)
    → read_message_from_client pl fingerprint_netuser now
        (some (address, (send_message_to_server success c).0))
        stale
        s
      ≡ (handle_message pl (fingerprint_netuser address) (message_of c) s.game_manager >>= λ g.
          ok
            (record (register pl (fingerprint_netuser address) address now s) { game_manager = g }))
unfolding read_message_from_client handle_datagram send_message_to_server message_of register
read_message_from_client-send_message_to_server pl fingerprint_netuser now address stale success c s
      wf =
    let m = message_of c in
    let whole : take 99 (encode_client m) ≡ encode_client m =
      take_short 99 (encode_client m) (omega (arith, length-encode_client m, wf.name.fits)) in
    rw (whole, decode_client-encode_client m stale wf) refl
