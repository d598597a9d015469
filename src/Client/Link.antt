-- ===== src/Client/Link.antt =====
-- What comes in and goes out: `readMessageFromServer`, `sendMessageToServer`, `readUpdateFromGui` and
-- a round of `run`.
use sik_screenworms.Base.{
  ℕ, zero, suc, Bool, true, false, ◌&&◌, ◌||◌, List, ◌++◌, codes, length, take, Str, ltb, ◌==s◌,
  if◌then◌else◌, Option, none, some, Outcome, ok, fail, encoder_decoder_error, exit_failure,
  out_of_fuel, ◌>>=◌,
}
use sik_screenworms.Messages.{
  TurnDirection, straight, right, left, max_udp_data_field_size, decode_server, encode_client,
}
use sik_screenworms.Sockets.{
  TcpSocket, Received, Written, readline, has_available_line, has_pending_outgoing_data,
  flush_outgoing,
}
use sik_screenworms.Client.{Client}
use sik_screenworms.Client.Events.{process_message_from_server}

abbrev pub inbound_server_message_buffer_size : ℕ
inbound_server_message_buffer_size = 560

-- `catch (const EncoderDecoderError &e)`
unfoldable pub exit_on_bad_message : Outcome Client → Outcome Client
exit_on_bad_message (ok c) = ok c
exit_on_bad_message (fail encoder_decoder_error) = fail exit_failure
exit_on_bad_message (fail e) = fail e

-- `readMessageFromServer`, with what `recv` does: it gives a datagram, or none. `stale` is what the
-- buffer holds behind the bytes that came.
unfoldable pub read_message_from_server : Option (List ℕ) → List ℕ → Client → Outcome Client
unfolding exit_on_bad_message
read_message_from_server none stale c = ok c
read_message_from_server (some datagram) stale c =
    let bytes = take inbound_server_message_buffer_size datagram in
    if ltb max_udp_data_field_size (length bytes)
    then ok c
    else exit_on_bad_message
        (decode_server (bytes ++ stale) (length bytes) >>= λ m. process_message_from_server m c)

-- `sendMessageToServer`: the payload of `sendto`, whose success is given.
unfoldable pub send_message_to_server : Bool → Client → List ℕ × Client
send_message_to_server success c =
    let payload = encode_client (record {
      session_id = c.session_id;
      turn_direction = c.turn_direction;
      next_expected_event_no = c.next_wanted_event_no;
      player_name = c.player_name;
    }) in
    (
      payload,
      record c {
        message_to_server = payload;
        message_ready = if success then false else c.message_ready;
      },
    )

unfoldable pub enqueue_message_to_server : Client → Client
enqueue_message_to_server c = record c { message_ready = true }

unfoldable pub is_left : TurnDirection → Bool
is_left left = true
is_left right = false
is_left straight = false

unfoldable pub is_right : TurnDirection → Bool
is_right left = false
is_right right = true
is_right straight = false

-- What a line of the user interface does to the direction.
unfoldable pub press_key : Str → TurnDirection → TurnDirection
unfolding is_left is_right
press_key line d =
    if line ==s codes "LEFT_KEY_DOWN"
    then left
    else if line ==s codes "RIGHT_KEY_DOWN"
    then right
    else if line ==s codes "LEFT_KEY_UP" && is_left d || line ==s codes "RIGHT_KEY_UP" && is_right d
    then straight
    else d

-- One round of the loop: the line that was read, if there was one.
unfoldable pub handle_line :
    (Client → Outcome Client) → Client → Option Str × TcpSocket → Outcome Client
unfolding press_key
handle_line again c (none, s) = ok (record c { gui_sock = s })
handle_line again c (some line, s) =
    let c' = record c { gui_sock = s; turn_direction = press_key line c.turn_direction } in
    if has_available_line s then again c' else ok c'

-- The loop of `readUpdateFromGui`; each round but the last takes a line.
unfoldable pub read_lines : ℕ → Received → Client → Outcome Client
unfolding handle_line
read_lines zero r c = fail out_of_fuel
read_lines (suc fuel) r c = readline r c.gui_sock >>= handle_line (λ c'. read_lines fuel r c') c

unfoldable pub read_update_from_gui : Received → Client → Outcome Client
unfolding read_lines
read_update_from_gui r c = read_lines (suc c.gui_sock.unread_newlines) r c

-- What `poll` reported, and what the calls of the round do.
pub record Polled : Type 0 where
  pub timer : Bool
  pub gui_in : Bool
  pub gui_out : Bool
  pub server_in : Bool
  pub server_out : Bool
  pub gui_read : Received
  pub gui_write : Written
  pub datagram : Option (List ℕ)
  pub stale : List ℕ
  pub sent : Bool

-- A round of `run`: the datagram that was sent, if one was, and the state.
unfoldable pub run_round : Polled → Client → Outcome (Option (List ℕ) × Client)
unfolding read_message_from_server send_message_to_server enqueue_message_to_server
    read_update_from_gui
run_round p c = do
  let c1 = if p.timer then enqueue_message_to_server c else c
  c2 ←
      (if has_available_line c1.gui_sock || p.gui_in
        then read_update_from_gui p.gui_read c1
        else ok c1)
  c3 ←
      (if has_pending_outgoing_data c2.gui_sock && p.gui_out
        then (flush_outgoing p.gui_write c2.gui_sock >>= λ s. ok (record c2 { gui_sock = s }))
        else ok c2)
  c4 ← (if p.server_in then read_message_from_server p.datagram p.stale c3 else ok c3)
  if c4.message_ready && p.server_out
      then (let (payload, c5) = send_message_to_server p.sent c4 in ok (some payload, c5))
      else ok (none, c4)
