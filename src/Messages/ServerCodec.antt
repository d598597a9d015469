-- ===== src/Messages/ServerCodec.antt =====
-- The server's datagram: what `encode_server` writes and `decode_server` reads back.
use mathlib.Core.List.{append_assoc}
use sik_screenworms.Base.{
  ℕ, zero, suc, ◌+◌, ◌-◌, ◌^◌, ◌≤◌, ◌<◌, ◌≡◌, refl, ◌∙◌, ap, sym, arith, List, [], ◌∷◌, ◌++◌,
  length, drop, All, ok, ◌>>=◌, >>=-eq-ok, drop-length_append, drop-drop, length-append, lt→ltb,
}
use sik_screenworms.Common.Bytes.{write_be, read_be, read_be-write_be4, length-write_be}
use sik_screenworms.Messages.{
  Event, ServerToClientMessage, encode_event, encode_events, encode_server, decode_event,
  decode_events, decode_server,
}
use sik_screenworms.Messages.EventCodec.{IsSendable, decode_event-encode_event, encode_event-length}

-- The encoding of the first event and of the others.
encode_events-cons :
    (e : Event) (es : List Event) (bytes : List ℕ)
    → encode_events (e ∷ es) ≡ ok bytes
    → (first : List ℕ) × (others : List ℕ) × (encode_event e ≡ ok first)
      × (encode_events es ≡ ok others)
      × (bytes ≡ first ++ others)
unfolding encode_events
encode_events-cons e es bytes h =
    let (first, e1, h1) = >>=-eq-ok (encode_event e) _ h in
    let (others, e2, h2) = >>=-eq-ok (encode_events es) _ h1 in (first, others, e1, e2, cc)

-- A round of the loop that reads an event.
decode_events_step :
    (fuel : ℕ) (buffer : List ℕ) (size read used : ℕ) (e : Event)
    → read < size
    → decode_event (drop read buffer) (size - read) ≡ ok (e, used)
    → decode_events (suc fuel) buffer size read
      ≡ (decode_events fuel buffer size (read + used) >>= λ es. ok (e ∷ es))
unfolding decode_events
decode_events_step fuel buffer size read used e h d = ground (arith, lt→ltb read size h)

decode_events-stop :
    (fuel : ℕ) (buffer : List ℕ) (size read : ℕ)
    → read ≡ size
    → decode_events fuel buffer size read ≡ ok []
unfolding decode_events
decode_events-stop zero buffer size read h = ground arith
decode_events-stop (suc fuel) buffer size read h = ground arith

-- `read` bytes of the buffer are used up, and the encoding of `es` follows.
decode_events-encode_events :
    (es : List Event) (fuel : ℕ) (buffer : List ℕ) (size read : ℕ) (bytes rest : List ℕ)
    → All IsSendable es
    → encode_events es ≡ ok bytes
    → drop read buffer ≡ bytes ++ rest
    → read + length bytes ≡ size
    → length bytes ≤ fuel
    → decode_events fuel buffer size read ≡ ok es
unfolding encode_events
decode_events-encode_events [] fuel buffer size read bytes rest h enc lay len hf =
    decode_events-stop fuel buffer size read (ground arith)
decode_events-encode_events (e ∷ es) zero buffer size read bytes rest (he, hes) enc lay len hf =
    let (first, others, e1, e2, eb) = encode_events-cons e es bytes enc in
    absurd (
      omega (
        arith,
        encode_event-length e first he e1,
        ap (length {A = ℕ}) eb,
        length-append first others,
      ))
decode_events-encode_events (e ∷ es) (suc fuel) buffer size read bytes rest (he, hes) enc lay len
      hf =
    let (first, others, e1, e2, eb) = encode_events-cons e es bytes enc in
    let (_, lo, hi) = encode_event-length e first he e1 in
    let total : length bytes ≡ length first + length others = rw eb (length-append first others) in
    let here : drop read buffer ≡ first ++ (others ++ rest) =
      lay ∙ rw eb (append_assoc first others rest) in
    decode_events_step fuel buffer size read (length first) e (omega arith) (
      rw here
        (decode_event-encode_event e first (others ++ rest) (size - read) he e1 (omega arith)))
    ∙ rw (
        decode_events-encode_events es fuel buffer size (read + length first) others rest hes e2
          (sym (drop-drop read (length first) buffer)
            ∙ rw here (drop-length_append first (others ++ rest)))
          (omega arith) (omega arith))

drop_game_id : (g : ℕ) (p : List ℕ) → drop 4 (write_be 4 g ++ p) ≡ p
unfolding write_be
drop_game_id g p = refl

decode_server_reads :
    (buffer : List ℕ) (size g : ℕ) (es : List Event)
    → 4 ≤ size
    → size ≤ 550
    → read_be 4 buffer ≡ ok g
    → decode_events size buffer size 4 ≡ ok es
    → decode_server buffer size ≡ ok (record { game_id = g; events = es })
unfolding decode_server
decode_server_reads buffer size g es lo hi eg ees = ground arith

encode_server-parts :
    (m : ServerToClientMessage) (bytes : List ℕ)
    → encode_server m ≡ ok bytes
    → (events : List ℕ) × (encode_events m.events ≡ ok events)
      × (bytes ≡ write_be 4 m.game_id ++ events)
unfolding encode_server
encode_server-parts m bytes enc =
    let (events, ee, eb) = >>=-eq-ok (encode_events m.events) _ enc in (events, ee, cc)

-- The client reads back the message that the server wrote, all its events in order, whatever the
-- memory holds behind it, when its game id fits 32 bits, its events can be sent and it fits a
-- datagram of 550 bytes.
pub decode_server-encode_server :
    (m : ServerToClientMessage) (bytes rest : List ℕ)
    → m.game_id < 2 ^ 32
    → All IsSendable m.events
    → encode_server m ≡ ok bytes
    → length bytes ≤ 550
    → decode_server (bytes ++ rest) (length bytes) ≡ ok m
decode_server-encode_server m bytes rest hg hs enc fits =
    let (events, ee, eb) = encode_server-parts m bytes enc in
    let total : length bytes ≡ 4 + length events =
      rw eb (rw (length-append, length-write_be 4 m.game_id)) in
    let here : bytes ++ rest ≡ write_be 4 m.game_id ++ (events ++ rest) =
      rw eb (append_assoc (write_be 4 m.game_id) events rest) in
    rw here (
      decode_server_reads _ (length bytes) m.game_id m.events (omega arith) fits
        (read_be-write_be4 m.game_id _ hg)
        (decode_events-encode_events m.events (length bytes) _ (length bytes) 4 events rest hs ee
          (drop_game_id m.game_id (events ++ rest)) (omega arith) (omega arith)))
