-- ===== src/Messages.antt =====
-- common/messages.h and messages.cpp: the messages, their events, and the two codecs.
-- A buffer is the list of the bytes from its first one to the end of the memory that it lies in;
-- an encoder returns the bytes that it writes, in order.
pub mod ClientCodec
pub mod EventCodec
pub mod ServerCodec
pub mod Packing
pub mod Players
pub mod Parsing
pub mod Gui
pub mod Numbering
mod Termination
mod Runs
use sik_screenworms.Base.{
  ℕ, zero, suc, ◌+◌, ◌-◌, ◌*◌, ◌%◌, ◌^◌, ◌≤◌, ◌<◌, ◌≡◌, Bool, true, false, not, ◌&&◌, ◌||◌, List,
  [], ◌∷◌, ◌++◌, map, Str, length, take, drop, get_or, ltb, leb, ◌==◌, ◌==s◌, if◌then◌else◌,
  Outcome, ok, fail, Fault, encoder_decoder_error, crc32_mismatch_error, runtime_error,
  out_of_range, exit_failure, undefined_behaviour, out_of_fuel, ◌>>=◌, ◌>>◌, check,
}
use sik_screenworms.Common.Bytes.{write_be, read_be, byte_at, read_bytes}
use sik_screenworms.Common.Crc32.{crc32}
use sik_screenworms.Common.Misc.{is_valid_player_name}

abbrev pub max_udp_data_field_size : ℕ
max_udp_data_field_size = 550

abbrev pub max_players : ℕ
max_players = 25

pub data TurnDirection : Type 0 where
  straight : TurnDirection
  right : TurnDirection
  left : TurnDirection

pub data EventType : Type 0 where
  new_game : EventType
  pixel : EventType
  player_eliminated : EventType
  game_over : EventType
  unknown : EventType

-- `playerName` without its padding; `playerNameSize` is its length.
pub record ClientToServerMessage : Type 0 where
  pub session_id : ℕ
  pub turn_direction : TurnDirection
  pub next_expected_event_no : ℕ
  pub player_name : Str

-- The first `playersFieldSize` bytes of `players`.
pub record EventNewGame : Type 0 where
  pub maxx : ℕ
  pub maxy : ℕ
  pub players : List ℕ

pub record EventPixel : Type 0 where
  pub player_number : ℕ
  pub x : ℕ
  pub y : ℕ

pub record EventPlayerEliminated : Type 0 where
  pub player_number : ℕ

pub data GameEventVariant : Type 0 where
  in_new_game : EventNewGame → GameEventVariant
  in_pixel : EventPixel → GameEventVariant
  in_player_eliminated : EventPlayerEliminated → GameEventVariant
  in_game_over : GameEventVariant

pub record Event : Type 0 where
  pub event_no : ℕ
  pub event_type : EventType
  pub event_data : GameEventVariant

pub record ServerToClientMessage : Type 0 where
  pub game_id : ℕ
  pub events : List Event

-- The value of the enumeration, as it is written.
unfoldable pub direction_code : TurnDirection → ℕ
direction_code straight = 0
direction_code right = 1
direction_code left = 2

unfoldable pub type_code : EventType → ℕ
type_code new_game = 0
type_code pixel = 1
type_code player_eliminated = 2
type_code game_over = 3
type_code unknown = 4

-- The cast of a byte; a value above 2 is refused by `decode_client` before it is used.
unfoldable pub direction_of : ℕ → TurnDirection
direction_of b = if b == 0 then straight else if b == 1 then right else left

-- The cast of a byte, and the last `else` of the decoder: another value becomes `unknown`.
unfoldable pub type_of : ℕ → EventType
type_of b =
    if b == 0
    then new_game
    else if b == 1
    then pixel
    else if b == 2
    then player_eliminated
    else if b == 3
    then game_over
    else unknown

abbrev min_client_size : ℕ
min_client_size = 13

abbrev max_client_size : ℕ
max_client_size = 33

-- ClientToServerMessage (buffer, size)
unfoldable pub decode_client : List ℕ → ℕ → Outcome ClientToServerMessage
unfolding direction_of
decode_client buffer size = do
  check (not (ltb size min_client_size || ltb max_client_size size)) encoder_decoder_error
  session_id ← read_be 8 buffer
  direction ← byte_at (drop 8 buffer)
  next_expected_event_no ← read_be 4 (drop 9 buffer)
  player_name ← read_bytes (size - min_client_size) (drop min_client_size buffer)
  check (not (ltb 2 direction || not (is_valid_player_name player_name))) encoder_decoder_error
  ok (record {
    session_id = session_id;
    turn_direction = direction_of direction;
    next_expected_event_no = next_expected_event_no;
    player_name = player_name;
  })

-- ClientToServerMessage::encode
unfoldable pub encode_client : ClientToServerMessage → List ℕ
unfolding direction_code
encode_client m =
    write_be 8 m.session_id
    ++ direction_code m.turn_direction ∷ (write_be 4 m.next_expected_event_no ++ m.player_name)

-- A size is computed in `size_t` and returned as a `uint32_t`.
abbrev u32 : ℕ → ℕ
u32 n = n % 2 ^ 32

-- Event::getEventDataSize. `std::get` of the other alternative throws, and so does an unknown type.
unfoldable pub event_data_size : EventType → GameEventVariant → Outcome ℕ
event_data_size new_game (in_new_game d) = ok (u32 (8 + length d.players))
event_data_size pixel (in_pixel d) = ok 9
event_data_size player_eliminated (in_player_eliminated d) = ok 1
event_data_size game_over in_game_over = ok 0
event_data_size _ _ = fail runtime_error

-- Event::getEncodedSize
unfoldable pub get_encoded_size : Event → Outcome ℕ
unfolding event_data_size
get_encoded_size e = do
  size ← event_data_size e.event_type e.event_data
  ok (u32 (size + 4 + 4 + 1 + 4))

-- EventNewGame::encode and the other three, chosen by the type.
unfoldable pub encode_data : EventType → GameEventVariant → Outcome (List ℕ)
encode_data new_game (in_new_game d) = ok (write_be 4 d.maxx ++ (write_be 4 d.maxy ++ d.players))
encode_data pixel (in_pixel d) = ok (d.player_number ∷ (write_be 4 d.x ++ write_be 4 d.y))
encode_data player_eliminated (in_player_eliminated d) = ok (d.player_number ∷ [])
encode_data game_over in_game_over = ok []
encode_data unknown _ = ok []
encode_data _ _ = fail runtime_error

-- Event::encode
unfoldable pub encode_event : Event → Outcome (List ℕ)
unfolding encode_data get_encoded_size type_code
encode_event e = do
  encoded_size ← get_encoded_size e
  let len = u32 (encoded_size - 4 - 4)
  event_data ← encode_data e.event_type e.event_data
  let written = write_be 4 len ++ (write_be 4 e.event_no ++ type_code e.event_type ∷ event_data)
  ok (written ++ write_be 4 (crc32 (take (len + 4) written)))

-- EventNewGame (buff, size). `players` has room for 525 bytes.
unfoldable pub decode_new_game : List ℕ → ℕ → Outcome EventNewGame
decode_new_game buff size = do
  check (leb 10 size) encoder_decoder_error
  maxx ← read_be 4 buff
  maxy ← read_be 4 (drop 4 buff)
  players ← read_bytes (size - 8) (drop 8 buff)
  check (leb (size - 8) (max_players * 21)) undefined_behaviour
  check (get_or players (size - 8 - 1) 0 == 0) encoder_decoder_error
  ok (record { maxx = maxx; maxy = maxy; players = players })

-- EventPixel (buff, size)
unfoldable pub decode_pixel : List ℕ → ℕ → Outcome EventPixel
decode_pixel buff size = do
  check (leb 9 size) encoder_decoder_error
  player_number ← byte_at buff
  x ← read_be 4 (drop 1 buff)
  y ← read_be 4 (drop 5 buff)
  ok (record { player_number = player_number; x = x; y = y })

-- EventPlayerEliminated (buff, size)
unfoldable pub decode_player_eliminated : List ℕ → ℕ → Outcome EventPlayerEliminated
decode_player_eliminated buff size = do
  check (leb 1 size) encoder_decoder_error
  player_number ← byte_at buff
  ok (record { player_number = player_number })

unfoldable pub decode_data : EventType → List ℕ → ℕ → Outcome GameEventVariant
unfolding decode_new_game decode_pixel decode_player_eliminated
decode_data new_game buff size = do d ← decode_new_game buff size; ok (in_new_game d)
decode_data pixel buff size = do d ← decode_pixel buff size; ok (in_pixel d)
decode_data player_eliminated buff size = do
  d ← decode_player_eliminated buff size
  ok (in_player_eliminated d)
decode_data game_over buff size = ok in_game_over
decode_data unknown buff size = ok in_game_over

-- Event (buffer, size, &bytesUsed). The sum of two `uint32_t` wraps; a pointer's offset does not.
unfoldable pub decode_event : List ℕ → ℕ → Outcome (Event × ℕ)
unfolding decode_data type_of
decode_event buffer size = do
  len ← read_be 4 buffer
  check (leb 5 len) encoder_decoder_error
  event_no ← read_be 4 (drop 4 buffer)
  type_byte ← byte_at (drop 8 buffer)
  let data_size = len - 5
  check (not (ltb size (u32 (9 + data_size) + 4))) encoder_decoder_error
  crc32_got ← read_be 4 (drop (9 + data_size) buffer)
  check (crc32_got == crc32 (take (len + 4) buffer)) crc32_mismatch_error
  event_data ← decode_data (type_of type_byte) (drop 9 buffer) data_size
  ok (
    record { event_no = event_no; event_type = type_of type_byte; event_data = event_data },
    len + 8,
  )

-- What one round of the loop does with the result of the event's constructor.
decode_round : ℕ → Outcome (Event × ℕ) → (ℕ → Outcome (List Event)) → Outcome (List Event)
decode_round bytes_read (ok (e, used)) rest = do events ← rest (bytes_read + used); ok (e ∷ events)
decode_round bytes_read (fail crc32_mismatch_error) rest = ok []
decode_round bytes_read (fail f) rest = fail f

-- `while (size > bytesRead)`. The events that follow are returned.
unfoldable pub decode_events : ℕ → List ℕ → ℕ → ℕ → Outcome (List Event)
unfolding decode_round
decode_events zero buffer size bytes_read = if ltb bytes_read size then fail out_of_fuel else ok []
decode_events (suc fuel) buffer size bytes_read = elim (ltb bytes_read size) [
  | true ↦
      decode_round bytes_read (decode_event (drop bytes_read buffer) (size - bytes_read))
        (λ read. decode_events fuel buffer size read)
  | false ↦ ok []
]

-- ServerToClientMessage (buffer, size). Each round reads 13 bytes at least.
unfoldable pub decode_server : List ℕ → ℕ → Outcome ServerToClientMessage
unfolding decode_events
decode_server buffer size = do
  check (not (ltb size 4 || ltb max_udp_data_field_size size)) encoder_decoder_error
  game_id ← read_be 4 buffer
  events ← decode_events size buffer size 4
  ok (record { game_id = game_id; events = events })

unfoldable pub encode_events : List Event → Outcome (List ℕ)
encode_events [] = ok []
encode_events (e ∷ events) = do ok ((← encode_event e) ++ (← encode_events events))

-- ServerToClientMessage::encode
unfoldable pub encode_server : ServerToClientMessage → Outcome (List ℕ)
unfolding encode_events
encode_server m = do ok (write_be 4 m.game_id ++ (← encode_events m.events))

-- The loop of `fromEvents`: the events that are picked.
unfoldable pub pick_events : ℕ → List Event → Outcome (List Event)
pick_events reserved_size [] = ok []
pick_events reserved_size (e ∷ events) = do
  event_size ← get_encoded_size e
  let rest = pick_events (reserved_size + event_size) events
  if ltb max_udp_data_field_size (reserved_size + event_size)
      then ok []
      else (rest >>= λ picked. ok (e ∷ picked))

-- ServerToClientMessage::fromEvents
unfoldable pub from_events : ℕ → List Event → Outcome (ℕ × ServerToClientMessage)
unfolding pick_events
from_events game_id events = do
  picked ← pick_events 4 events
  ok (length picked, record { game_id = game_id; events = picked })
