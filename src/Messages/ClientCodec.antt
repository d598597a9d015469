-- ===== src/Messages/ClientCodec.antt =====
-- The client's datagram: what `encode_client` writes and `decode_client` accepts.
use mathlib.Core.List.{append_assoc}
use native.Mathlib.Nat.{add-sub_cancel_left}
use sik_screenworms.Base.{
  ℕ, ◌+◌, ◌-◌, ◌^◌, ◌≤◌, ◌<◌, ◌≡◌, refl, ◌∙◌, ap, arith, true, List, ◌∷◌, ◌++◌, Str, length, take,
  drop, All, All-drop, ok, take_split, drop-drop,
}
use sik_screenworms.Common.Bytes.{
  write_be, read_be, byte_at, read_bytes, read_be-write_be4, read_be-write_be8, write_be-read_be4,
  write_be-read_be8, read_bytes-inv, read_bytes-append, byte_at-inv, IsByte,
}
use sik_screenworms.Common.Misc.{is_valid_player_name, is_valid_player_name_iff, IsPlayerName}
use sik_screenworms.Messages.{
  ClientToServerMessage, TurnDirection, straight, right, left, direction_code, direction_of,
  decode_client, encode_client,
}

-- A message whose fields fit their types and whose name the protocol allows.
pub record IsWellFormed (m : ClientToServerMessage) : Type 0 where
  pub session : m.session_id < 2 ^ 64
  pub expected : m.next_expected_event_no < 2 ^ 32
  pub name : IsPlayerName m.player_name

direction_of-code : (d : TurnDirection) → direction_of (direction_code d) ≡ d
unfolding direction_of direction_code
direction_of-code straight = refl
direction_of-code right = refl
direction_of-code left = refl

direction_code-le : (d : TurnDirection) → direction_code d ≤ 2
unfolding direction_code
direction_code-le straight = omega arith
direction_code-le right = omega arith
direction_code-le left = omega arith

pub length-encode_client :
    (m : ClientToServerMessage) → length (encode_client m) ≡ 13 + length m.player_name
unfolding encode_client write_be
length-encode_client m = omega arith

-- The result in terms of what the reads give.
decode_client_reads :
    (buffer : List ℕ) (size s c n : ℕ) (name : Str)
    → 13 ≤ size
    → size ≤ 33
    → read_be 8 buffer ≡ ok s
    → byte_at (drop 8 buffer) ≡ ok c
    → read_be 4 (drop 9 buffer) ≡ ok n
    → read_bytes (size - 13) (drop 13 buffer) ≡ ok name
    → c ≤ 2
    → is_valid_player_name name ≡ true
    → decode_client buffer size
      ≡ ok (record {
        session_id = s;
        turn_direction = direction_of c;
        next_expected_event_no = n;
        player_name = name;
      })
unfolding decode_client
decode_client_reads buffer size s c n name lo hi es ec en ename hc valid = ground arith

layout :
    (m : ClientToServerMessage) (rest : List ℕ)
    → encode_client m ++ rest
      ≡ write_be 8 m.session_id
        ++ direction_code m.turn_direction
          ∷ (write_be 4 m.next_expected_event_no ++ (m.player_name ++ rest))
unfolding encode_client
layout m rest = simp append_assoc

-- The server reads back the message that a client wrote, whatever the memory holds behind it, when
-- its numbers fit their types and its name is a valid one.
pub decode_client-encode_client :
    (m : ClientToServerMessage) (rest : List ℕ)
    → IsWellFormed m
    → decode_client (encode_client m ++ rest) (length (encode_client m)) ≡ ok m
unfolding write_be byte_at
decode_client-encode_client m rest wf =
    rw (length-encode_client, layout)
      (decode_client_reads _ _ m.session_id (direction_code m.turn_direction)
          m.next_expected_event_no m.player_name (omega arith) (omega (arith, wf.name.fits))
          (read_be-write_be8 m.session_id _ wf.session) refl
          (read_be-write_be4 m.next_expected_event_no _ wf.expected)
          (rw (add-sub_cancel_left 13 (length m.player_name))
            (read_bytes-append m.player_name rest))
          (direction_code-le m.turn_direction) ((is_valid_player_name_iff m.player_name).1 wf.name)
        ∙ rw direction_of-code)

-- A datagram that is accepted, taken apart.
pub record Accepted (buffer : List ℕ) (size : ℕ) (m : ClientToServerMessage) : Type 0 where
  pub at_least : 13 ≤ size
  pub at_most : size ≤ 33
  pub session : read_be 8 buffer ≡ ok m.session_id
  pub direction : byte_at (drop 8 buffer) ≡ ok (direction_code m.turn_direction)
  pub expected : read_be 4 (drop 9 buffer) ≡ ok m.next_expected_event_no
  pub name : read_bytes (size - 13) (drop 13 buffer) ≡ ok m.player_name
  pub valid : is_valid_player_name m.player_name ≡ true

decode_client_inversion :
    (buffer : List ℕ) (size : ℕ) (m : ClientToServerMessage)
    → decode_client buffer size ≡ ok m
    → Accepted buffer size m
unfolding decode_client direction_of direction_code
decode_client_inversion buffer size m h = ground arith

sub_sub : (n a b : ℕ) → n - a - b ≡ n - (a + b)
sub_sub n a b = omega arith

-- The datagram is its four fields.
take_fields :
    (size : ℕ) (buffer : List ℕ)
    → 13 ≤ size
    → take size buffer
      ≡ take 8 buffer
        ++ (take 1 (drop 8 buffer) ++ (take 4 (drop 9 buffer) ++ take (size - 13) (drop 13 buffer)))
take_fields size buffer h =
    take_split 8 size buffer (omega arith)
    ∙ ap (◌++◌ (take 8 buffer)) (
        take_split 1 (size - 8) (drop 8 buffer) (omega arith)
        ∙ ap (◌++◌ (take 1 (drop 8 buffer))) (
            rw (drop-drop 8 1 buffer, sub_sub size 8 1)
              (take_split 4 (size - 9) (drop 9 buffer) (omega arith)
                ∙ ap (◌++◌ (take 4 (drop 9 buffer)))
                    (rw (drop-drop 9 4 buffer, sub_sub size 9 4)))))

-- What is accepted from a buffer of bytes is the datagram of exactly one message: writing the message
-- again gives the bytes that were read, its numbers fit their types and its name is a valid one.
pub encode_client-decode_client :
    (buffer : List ℕ) (size : ℕ) (m : ClientToServerMessage)
    → All IsByte buffer
    → decode_client buffer size ≡ ok m
    → (encode_client m ≡ take size buffer) × IsWellFormed m
unfolding encode_client
encode_client-decode_client buffer size m bytes h =
    let a : Accepted buffer size m = decode_client_inversion buffer size m h in
    let (es, hs, _) = write_be-read_be8 buffer m.session_id bytes a.session in
    let (en, hn, _) =
      write_be-read_be4 (drop 9 buffer) m.next_expected_event_no (All-drop IsByte 9 buffer bytes)
        a.expected in
    let (ename, _) = read_bytes-inv (size - 13) (drop 13 buffer) m.player_name a.name in
    (
      rw (take_fields size buffer a.at_least, es, en, ename, byte_at-inv _ _ a.direction),
      record {
        session = hs;
        expected = hn;
        name = (is_valid_player_name_iff m.player_name).0 a.valid;
      },
    )
