-- ===== src/Messages/Packing.antt =====
-- How `fromEvents` fills a datagram.
use sik_screenworms.Base.{
  ℕ, suc, ◌+◌, ◌≤◌, ◌<◌, ◌≡◌, refl, ap, inl, inr, arith, List, [], ◌∷◌, ◌++◌, length, take, drop,
  All, ltb, ok, ◌⊎◌, length-append, Bool-cases, ltb→lt,
}
use sik_screenworms.Common.Bytes.{write_be, length-write_be}
use sik_screenworms.Messages.{
  Event, ServerToClientMessage, encode_events, encode_server, get_encoded_size, pick_events,
  from_events,
}
use sik_screenworms.Messages.EventCodec.{IsSendable, encode_event_size}

-- What the loop picks: the first `n` events, in `used` bytes; and if it leaves one, that one would
-- pass the limit.
record Picks (reserved : ℕ) (es : List Event) (n used : ℕ) : Type 0 where
  pub result : pick_events reserved es ≡ ok (take n es)
  pub count : length (take n es) ≡ n
  pub encoded : (bytes : List ℕ) × (encode_events (take n es) ≡ ok bytes) × (length bytes ≡ used)
  pub within : reserved + used ≤ 550
  pub progress : reserved ≤ 4 → 0 < length es → 0 < n
  pub maximal :
      (n ≡ length es)
      ⊎ ((e : Event) × (rest : List Event) × (size : ℕ) × (drop n es ≡ e ∷ rest)
          × (get_encoded_size e ≡ ok size)
          × (550 < reserved + used + size))

-- One event in front of those that the rest of the loop picks.
still_maximal :
    (reserved size n used : ℕ) (e : Event) (es : List Event)
    → Picks (reserved + size) es n used
    → (suc n ≡ length (e ∷ es))
      ⊎ ((e' : Event) × (rest : List Event) × (size' : ℕ) × (drop (suc n) (e ∷ es) ≡ e' ∷ rest)
          × (get_encoded_size e' ≡ ok size')
          × (550 < reserved + (size + used) + size'))
still_maximal reserved size n used e es p = elim p.maximal [
  | inl whole ↦ inl (ap suc whole)
  | inr (e', rest, size', d, g, over) ↦ inr (e', rest, size', d, g, omega arith)
]

picks :
    (reserved : ℕ) (es : List Event)
    → reserved ≤ 550
    → All IsSendable es
    → (n : ℕ) × (used : ℕ) × Picks reserved es n used
unfolding pick_events encode_events
picks reserved [] hr hs = (
  0,
  0,
  record {
    result = refl;
    count = refl;
    encoded = ([], refl, refl);
    within = omega arith;
    progress = λ h l. absurd (omega arith);
    maximal = inl refl;
  },
)
picks reserved (e ∷ es) hr (he, hs) =
    let (bytes, e1, e2, lo, hi) = encode_event_size e he in
    elim (Bool-cases (ltb 550 (reserved + length bytes))) [
      | inl full ↦ (
        0,
        0,
        record {
          result = rw (e2, full);
          count = refl;
          encoded = ([], refl, refl);
          within = omega arith;
          progress = λ h l. absurd (omega (arith, ltb→lt 550 (reserved + length bytes) full));
          maximal = inr (e, es, length bytes, refl, e2, ground arith);
        },
      )
      | inr room ↦
          let (n, used, p) = picks (reserved + length bytes) es (ground arith) hs in
          let (more, m1, m2) = p.encoded in
          (
            suc n,
            length bytes + used,
            record {
              result = rw (e2, room, p.result);
              count = omega (arith, p.count);
              encoded = (bytes ++ more, rw (e1, m1), omega (arith, length-append bytes more));
              within = omega (arith, p.within);
              progress = λ _ _. omega arith;
              maximal = still_maximal reserved (length bytes) n used e es p;
            },
          )
    ]

-- A client's share of the events, in one datagram.
pub record Fills (game_id : ℕ) (es : List Event) (n : ℕ) (message : ServerToClientMessage)
    : Type 0 where
  pub first : message ≡ record { game_id = game_id; events = take n es }
  pub count : length message.events ≡ n
  pub some_event : 0 < length es → 0 < n
  pub encoded : (bytes : List ℕ) × (encode_server message ≡ ok bytes) × (length bytes ≤ 550)
  pub maximal :
      (n ≡ length es)
      ⊎ ((bytes : List ℕ) × (e : Event) × (rest : List Event) × (size : ℕ) × (encode_server message
            ≡ ok bytes)
          × (drop n es ≡ e ∷ rest)
          × (get_encoded_size e ≡ ok size)
          × (550 < length bytes + size))

-- `fromEvents` on events that can be sent, from the first one on: it takes the first `n` in order,
-- at least one if there is one; their datagram has at most 550 bytes; and if an event is left over,
-- it would not fit the datagram any more.
pub from_events-Fills :
    (game_id : ℕ) (es : List Event)
    → All IsSendable es
    → (n : ℕ) × (message : ServerToClientMessage) × (from_events game_id es ≡ ok (n, message))
      × Fills game_id es n message
unfolding from_events encode_server
from_events-Fills game_id es hs =
    let (n, used, p) = picks 4 es (omega arith) hs in
    let (bytes, enc, len) = p.encoded in
    let message : ServerToClientMessage = record { game_id = game_id; events = take n es } in
    let total : length (write_be 4 game_id ++ bytes) ≡ 4 + used =
      omega (arith, length-append (write_be 4 game_id) bytes, length-write_be 4 game_id) in
    (
      n,
      message,
      rw (p.result, p.count),
      record {
        first = refl;
        count = p.count;
        some_event = p.progress (omega arith);
        encoded = (write_be 4 game_id ++ bytes, rw enc, omega (arith, p.within));
        maximal = elim p.maximal [
          | inl whole ↦ inl whole
          | inr (e, rest, size, d, g, over) ↦
              inr (write_be 4 game_id ++ bytes, e, rest, size, rw enc, d, g, omega arith)
        ];
      },
    )
