-- ===== src/Server.antt =====
-- server_src/server.h and server.cpp: what the server does with a datagram that has come, with the
-- next message that is to be sent, and with clients that are silent. The sockets and the clock are
-- parameters: a datagram that came, or none; whether one could be sent; the time.
pub mod Sending
pub mod Cleanup
pub mod Addresses
pub mod Running
mod Runs
mod RoundRuns
use sik_screenworms.Base.{
  ℕ, zero, suc, ◌+◌, ◌-◌, ◌*◌, ◌/◌, ◌%◌, ◌^◌, Bool, true, false, not, ◌&&◌, List, [], ◌∷◌, ◌++◌,
  Str, length, take, ltb, if◌then◌else◌, Option, none, some, Outcome, ok, fail, Fault,
  encoder_decoder_error, crc32_mismatch_error, runtime_error, out_of_range, exit_failure,
  undefined_behaviour, out_of_fuel, ◌>>=◌, deref, find, contains, insert, insert_or_assign, erase,
}
use sik_screenworms.Messages.{ClientToServerMessage, decode_client, encode_server}
use sik_screenworms.MqManager.{Fingerprint, MessageAndRecipient, get_next_message, ack, is_empty}
use sik_screenworms.GameManager.State.{Platform, GameManager}
use sik_screenworms.GameManager.State
use sik_screenworms.GameManager.Turns.{run_turn}
use sik_screenworms.Config.{ServerConfig}
use sik_screenworms.GameManager.Handlers.{handle_message, drop_connection}

-- The state of Server that changes; the times are microseconds.
pub record Server (D Address : Type 0) : Type 0 where
  pub game_manager : GameManager D
  pub client_addrs : List (Str × Address)
  pub last_communication_ts : List (Str × ℕ)

abbrev pub incoming_msg_buffer_size : ℕ
incoming_msg_buffer_size = 100

-- CONNECTION_EXPIRATION_TIME_SEC * US_IN_SECOND
abbrev pub connection_expiration_time : ℕ
connection_expiration_time = 2 * 1000000

unfoldable pub is_expired : ℕ → ℕ → Bool
is_expired now last = ltb connection_expiration_time (now - last)

-- What `poll` reports in a round of `run`, and what the calls of the round do.
pub record Polled (Address : Type 0) : Type 0 where
  pub turn_timer : Bool
  pub readable : Bool
  pub writable : Bool
  pub cleanup_time : ℕ
  pub receive_time : ℕ
  pub datagram : Option (Address × List ℕ)
  pub stale : List ℕ
  pub sent : Bool

-- The members as the constructor leaves them.
unfoldable pub init : {Address : Type 0} (pl : Platform) → ServerConfig → Server pl.Double Address
init pl config = record {
  game_manager =
      State.init pl config.rng_seed config.turning_speed config.board_width config.board_height
        (1000000000 / config.rounds_per_sec);
  client_addrs = [];
  last_communication_ts = [];
}

module _ (pl : Platform) {Address : Type 0} where
  open pl use {Double}

  -- The sender is registered, whatever it sent.
  unfoldable pub register :
      Fingerprint → Address → ℕ → Server Double Address → Server Double Address
  unfolding insert_or_assign
  register f address now s = record s {
    last_communication_ts = insert_or_assign f now s.last_communication_ts;
    client_addrs =
        if contains f s.client_addrs then s.client_addrs else insert f address s.client_addrs;
  }

  -- The `try` block: a datagram that is no message is dropped. The block has `handleMessage` in it as
  -- well, which decodes nothing and throws no EncoderDecoderError.
  unfoldable pub handle_datagram :
      Fingerprint
      → Outcome ClientToServerMessage
      → Server Double Address
      → Outcome (Server Double Address)
  handle_datagram f (ok m) s =
      handle_message pl f m s.game_manager >>= λ g. ok (record s { game_manager = g })
  handle_datagram f (fail encoder_decoder_error) s = ok s
  handle_datagram f (fail e) s = fail e

  -- Server::readMessageFromClient. `stale` is what the buffer holds behind the bytes that came.
  unfoldable pub read_message_from_client :
      (Address → Fingerprint)
      → ℕ
      → Option (Address × List ℕ)
      → List ℕ
      → Server Double Address
      → Outcome (Server Double Address)
  unfolding register handle_datagram
  read_message_from_client fingerprint_netuser now none stale s = ok s
  read_message_from_client fingerprint_netuser now (some (address, datagram)) stale s =
      let f = fingerprint_netuser address in
      let received = take (incoming_msg_buffer_size - 1) datagram in
      handle_datagram f (decode_client (received ++ stale) (length received))
        (register f address now s)

  -- Server::sendMessageToClient: the address and the payload of `sendto`, and the state. The
  -- call's success is given.
  unfoldable pub send_message_to_client :
      Bool → Server Double Address → Outcome ((Address × List ℕ) × Server Double Address)
  send_message_to_client success s = get_next_message s.game_manager.mq_manager >>= λ next.
      let s' = record s { game_manager = record s.game_manager { mq_manager = next.1 } } in
      encode_server next.0.message >>= λ payload.
      deref (find next.0.recipient s.client_addrs) >>= λ address.
      if success
      then (ack next.0.recipient next.0.ack_number next.1 >>= λ q. ok (
        (address, payload),
        record s { game_manager = record s.game_manager { mq_manager = q } },
      ))
      else ok ((address, payload), s')

  -- The two loops of Server::cleanupObsoleteConnections.
  unfoldable pub drop_expired : ℕ → List (Str × ℕ) → Server Double Address → Server Double Address
  drop_expired now [] s = s
  drop_expired now ((f, last) ∷ rest) s = drop_expired now rest (
      if is_expired now last
      then record s {
        game_manager = drop_connection f s.game_manager;
        client_addrs = erase f s.client_addrs;
        last_communication_ts = erase f s.last_communication_ts;
      }
      else s)

  -- Server::cleanupObsoleteConnections. If the clock was set back the difference is negative in the
  -- code and 0 here, and below the limit in both.
  unfoldable pub cleanup_obsolete_connections : ℕ → Server Double Address → Server Double Address
  unfolding drop_expired
  cleanup_obsolete_connections now s = drop_expired now s.last_communication_ts s

  -- A round of `run`: what was sent, if anything, and the state.
  unfoldable pub run_round :
      (Address → Fingerprint)
      → Polled Address
      → Server Double Address
      → Outcome (Option (Address × List ℕ) × Server Double Address)
  unfolding read_message_from_client send_message_to_client cleanup_obsolete_connections
  run_round fingerprint_netuser p s = do
    s1 ←
        (if p.turn_timer
          then (let s0 = cleanup_obsolete_connections p.cleanup_time s in
              run_turn pl s0.game_manager >>= λ g. ok (record s0 { game_manager = g }))
          else ok s)
    s2 ←
        (if p.readable
          then read_message_from_client fingerprint_netuser p.receive_time p.datagram p.stale s1
          else ok s1)
    if not (is_empty s2.game_manager.mq_manager) && p.writable
        then (send_message_to_client p.sent s2 >>= λ sent. ok (some sent.0, sent.1))
        else ok (none, s2)
