-- ===== src/Messages/EventCodec.antt =====
-- One event record: `encode_event` against `decode_event`.
use mathlib.Core.List.{append_assoc, append-nil}
use native.Mathlib.Nat.{add-sub_cancel_left}
use sik_screenworms.Base.{
  ℕ, ◌+◌, ◌-◌, ◌^◌, ◌≤◌, ◌<◌, ◌≡◌, refl, ◌∙◌, ap, sym, arith, List, [], ◌∷◌, ◌++◌, length, take,
  drop, get_or, Outcome, ok, take-length_append, drop-length_append, length-append,
}
use sik_screenworms.Common.Bytes.{
  write_be, read_be, byte_at, read_bytes-append, read_be-write_be4, length-write_be,
}
use sik_screenworms.Common.Crc32.{crc32, crc32-lt}
use sik_screenworms.Messages.{
  EventType, new_game, pixel, player_eliminated, game_over, unknown, GameEventVariant, in_new_game,
  in_pixel, in_player_eliminated, in_game_over, Event, EventNewGame, EventPixel, type_code, type_of,
  event_data_size, get_encoded_size, encode_data, encode_event, decode_new_game, decode_pixel,
  decode_data, decode_event,
}

-- The type names the alternative that is stored, and the fields fit their types and buffers.
abbrev pub DataFits : EventType → GameEventVariant → Type 0
DataFits new_game (in_new_game d) =
    (d.maxx < 2 ^ 32)
    × (d.maxy < 2 ^ 32)
    × (2 ≤ length d.players)
    × (length d.players ≤ 525)
    × (get_or d.players (length d.players - 1) 0 ≡ 0)
DataFits pixel (in_pixel d) = (d.x < 2 ^ 32) × (d.y < 2 ^ 32)
DataFits player_eliminated (in_player_eliminated d) = Unit
DataFits game_over in_game_over = Unit
DataFits _ _ = ⊥

-- An event that a server can put on the wire.
pub record IsSendable (e : Event) : Type 0 where
  pub number : e.event_no < 2 ^ 32
  pub fits : DataFits e.event_type e.event_data

-- The bytes of the event's data.
abbrev payload : GameEventVariant → List ℕ
payload (in_new_game d) = write_be 4 d.maxx ++ (write_be 4 d.maxy ++ d.players)
payload (in_pixel d) = d.player_number ∷ (write_be 4 d.x ++ write_be 4 d.y)
payload (in_player_eliminated d) = d.player_number ∷ []
payload in_game_over = []

encode_data_lem :
    (t : EventType) (v : GameEventVariant) → DataFits t v → encode_data t v ≡ ok (payload v)
unfolding encode_data
encode_data_lem new_game (in_new_game d) h = refl
encode_data_lem pixel (in_pixel d) h = refl
encode_data_lem player_eliminated (in_player_eliminated d) h = refl
encode_data_lem game_over in_game_over h = refl
encode_data_lem _ _ h = absurd h

event_data_size_lem :
    (t : EventType) (v : GameEventVariant)
    → DataFits t v
    → (event_data_size t v ≡ ok (length (payload v))) × (length (payload v) ≤ 533)
unfolding event_data_size write_be
event_data_size_lem new_game (in_new_game d) h = ground arith
event_data_size_lem pixel (in_pixel d) h = ground arith
event_data_size_lem player_eliminated (in_player_eliminated d) h = ground arith
event_data_size_lem game_over in_game_over h = ground arith
event_data_size_lem _ _ h = absurd h

type_of-code : (t : EventType) → type_of (type_code t) ≡ t
unfolding type_of type_code
type_of-code new_game = refl
type_of-code pixel = refl
type_of-code player_eliminated = refl
type_of-code game_over = refl
type_of-code unknown = refl

decode_new_game_lem :
    (d : EventNewGame) (rest : List ℕ)
    → DataFits new_game (in_new_game d)
    → decode_new_game (payload (in_new_game d) ++ rest) (8 + length d.players) ≡ ok d
unfolding decode_new_game write_be
decode_new_game_lem d rest (hx, hy, lo, hi, last) = ground (
  arith,
  read_be-write_be4 d.maxx (write_be 4 d.maxy ++ (d.players ++ rest)),
  read_be-write_be4 d.maxy (d.players ++ rest),
  read_bytes-append d.players rest,
  add-sub_cancel_left 8 (length d.players),
)

decode_pixel_lem :
    (d : EventPixel) (rest : List ℕ)
    → DataFits pixel (in_pixel d)
    → decode_pixel (payload (in_pixel d) ++ rest) 9 ≡ ok d
unfolding decode_pixel write_be byte_at
decode_pixel_lem d rest (hx, hy) =
    ground (arith, read_be-write_be4 d.x (write_be 4 d.y ++ rest), read_be-write_be4 d.y rest)

decode_data_lem :
    (t : EventType) (v : GameEventVariant) (rest : List ℕ)
    → DataFits t v
    → decode_data t (payload v ++ rest) (length (payload v)) ≡ ok v
unfolding decode_data write_be byte_at
decode_data_lem new_game (in_new_game d) rest h = ground (arith, decode_new_game_lem d rest h)
decode_data_lem pixel (in_pixel d) rest h = ground (arith, decode_pixel_lem d rest h)
decode_data_lem player_eliminated (in_player_eliminated d) rest h = refl
decode_data_lem game_over in_game_over rest h = refl
decode_data_lem _ _ rest h = absurd h

-- The record without its checksum.
abbrev body : Event → List ℕ
body e =
    write_be 4 (5 + length (payload e.event_data))
    ++ (write_be 4 e.event_no ++ type_code e.event_type ∷ payload e.event_data)

length-body : (e : Event) → length (body e) ≡ 9 + length (payload e.event_data)
unfolding write_be
length-body e = omega arith

get_encoded_size_lem :
    (e : Event)
    → IsSendable e
    → (get_encoded_size e ≡ ok (13 + length (payload e.event_data)))
      × (13 + length (payload e.event_data) ≤ 546)
unfolding get_encoded_size
get_encoded_size_lem e h = ground (arith, event_data_size_lem e.event_type e.event_data h.fits)

take-body : (e : Event) (n : ℕ) → n ≡ 9 + length (payload e.event_data) → take n (body e) ≡ body e
take-body e n h =
    rw (h, ← length-body e)
      (ap (take (length (body e))) (sym (append-nil (body e))) ∙ take-length_append (body e) [])

encode_event_lem :
    (e : Event) → IsSendable e → encode_event e ≡ ok (body e ++ write_be 4 (crc32 (body e)))
unfolding encode_event
encode_event_lem e h = ground (
  arith,
  get_encoded_size_lem e h,
  encode_data_lem e.event_type e.event_data h.fits,
  take-body e (5 + length (payload e.event_data) + 4),
)

decode_event_reads :
    (buffer : List ℕ) (size len number code crc : ℕ) (v : GameEventVariant)
    → read_be 4 buffer ≡ ok len
    → 5 ≤ len
    → len + 8 < 2 ^ 32
    → len + 8 ≤ size
    → read_be 4 (drop 4 buffer) ≡ ok number
    → byte_at (drop 8 buffer) ≡ ok code
    → read_be 4 (drop (9 + (len - 5)) buffer) ≡ ok crc
    → crc32 (take (len + 4) buffer) ≡ crc
    → decode_data (type_of code) (drop 9 buffer) (len - 5) ≡ ok v
    → decode_event buffer size
      ≡ ok (record { event_no = number; event_type = type_of code; event_data = v }, len + 8)
unfolding decode_event
decode_event_reads buffer size len number code crc v el lo hi fits en ec es eq ed = ground arith

-- The record as it lies in memory.
abbrev encoding : Event → List ℕ
encoding e = body e ++ write_be 4 (crc32 (body e))

drop-body :
    (e : Event) (p : List ℕ) (n : ℕ)
    → n ≡ 9 + length (payload e.event_data)
    → drop n (body e ++ p) ≡ p
drop-body e p n h = rw (h, ← length-body e) (drop-length_append (body e) p)

take-body_append :
    (e : Event) (p : List ℕ) (n : ℕ)
    → n ≡ 9 + length (payload e.event_data)
    → take n (body e ++ p) ≡ body e
take-body_append e p n h = rw (h, ← length-body e) (take-length_append (body e) p)

length-encoding : (e : Event) → length (encoding e) ≡ 13 + length (payload e.event_data)
length-encoding e = omega (
  arith,
  length-append (body e) (write_be 4 (crc32 (body e))),
  length-body e,
  length-write_be 4 (crc32 (body e)),
)

same_event :
    (e : Event) (n : ℕ)
    → n ≡ length (encoding e)
    → ◌≡◌ {A = Outcome (Event × ℕ)}
        (ok (record e { event_type = type_of (type_code e.event_type) }, n))
        (ok (e, length (encoding e)))
same_event e n h = rw (h, type_of-code)

decode-encoding :
    (e : Event) (rest : List ℕ) (size : ℕ)
    → IsSendable e
    → length (encoding e) ≤ size
    → decode_event (encoding e ++ rest) size ≡ ok (e, length (encoding e))
unfolding write_be byte_at
decode-encoding e rest size h fits =
    let l = length (payload e.event_data) in
    let le : l ≤ 533 = (event_data_size_lem e.event_type e.event_data h.fits).1 in
    let tail = write_be 4 (crc32 (body e)) ++ rest in
    rw (append_assoc (body e) (write_be 4 (crc32 (body e))) rest) (
      decode_event_reads (body e ++ tail) size (5 + l) e.event_no (type_code e.event_type)
        (crc32 (body e)) e.event_data (read_be-write_be4 (5 + l) _ (omega arith)) (omega arith)
        (omega arith) (omega (arith, length-encoding e)) (read_be-write_be4 e.event_no _ h.number)
        refl
        (rw (drop-body e tail (9 + (5 + l - 5)) (omega arith))
          (read_be-write_be4 _ rest (crc32-lt (body e))))
        (ap crc32 (take-body_append e tail (5 + l + 4) (omega arith)))
        (rw (type_of-code, add-sub_cancel_left 5 l, append_assoc)
          (decode_data_lem e.event_type e.event_data _ h.fits))
      ∙ same_event e (5 + l + 8) (omega (arith, length-encoding e)))

-- An event that a server can send is encoded without a fault, in as many bytes as
-- `getEncodedSize` announces, and in 13 to 546 bytes.
pub encode_event_size :
    (e : Event)
    → IsSendable e
    → (bytes : List ℕ) × (encode_event e ≡ ok bytes)
      × (get_encoded_size e ≡ ok (length bytes))
      × (13 ≤ length bytes)
      × (length bytes ≤ 546)
encode_event_size e h =
    let (size, bound) = get_encoded_size_lem e h in
    (
      encoding e,
      encode_event_lem e h,
      rw length-encoding size,
      omega (arith, length-encoding e),
      omega (arith, length-encoding e),
    )

-- The client reads back an event that can be sent as the server wrote it, whatever follows it in
-- memory, as long as the datagram holds the whole record; and it goes on right behind it.
pub decode_event-encode_event :
    (e : Event) (bytes rest : List ℕ) (size : ℕ)
    → IsSendable e
    → encode_event e ≡ ok bytes
    → length bytes ≤ size
    → decode_event (bytes ++ rest) size ≡ ok (e, length bytes)
decode_event-encode_event e bytes rest size h enc fits =
    let same : encoding e ≡ bytes = cc (encode_event_lem e h) in
    rw (← same) (decode-encoding e rest size h (rw same fits))

pub encode_event-length :
    (e : Event) (bytes : List ℕ)
    → IsSendable e
    → encode_event e ≡ ok bytes
    → (get_encoded_size e ≡ ok (length bytes)) × (13 ≤ length bytes) × (length bytes ≤ 546)
encode_event-length e bytes h enc =
    let (own, e1, e2, e3, e4) = encode_event_size e h in
    let same : own ≡ bytes = cc in (rw same at e2, rw same at e3, rw same at e4)
