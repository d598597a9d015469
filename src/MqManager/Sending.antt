-- ===== src/MqManager/Sending.antt =====
-- `getNextMessage`: it ends, and what it sends to whom.
use sik_screenworms.Base.{
  ℕ, zero, suc, ◌+◌, ◌-◌, ◌%◌, ◌^◌, ◌≤◌, ◌<◌, min, ◌≡◌, refl, sym, ap, ◌∙◌, inl, inr, arith, Bool,
  true, false, ◌||◌, List, [], ◌∷◌, ◌++◌, length, none, some, drop, take, any, All, All-drop, ltb,
  ltb→lt, ok, Bool-cases, length-take, length-drop, find, contains, contains-find, find_of_contains,
  find_of_any, map_values, lt→ltb, mem, ◌==s◌, ==s_iff, ==s_refl, IsNodup, mem-append,
  IsNodup-append_one,
}
use mathlib.Core.List.{append-nil, append_assoc}
use sik_screenworms.Messages.{ServerToClientMessage, encode_server}
use sik_screenworms.Messages.EventCodec.{IsSendable}
use sik_screenworms.Messages.Packing.{from_events-Fills}
use sik_screenworms.MqManager.{
  MqManager, Fingerprint, MessageAndRecipient, open_next_game,
  has_pending_messages_for_current_game, message_for, serve, get_next_message, open_game,
  ScheduledEvent, is_empty, pending, is_nil,
}
use sik_screenworms.MqManager.Invariant.{
  IsServable, IsWaiting, append_all_lem, open_next_game_busy, open_next_game_idle,
  open_next_game-IsServable,
}

-- A client is in the middle of the events.
abbrev wants : MqManager → Fingerprint → Bool
wants q f = elim (find f q.queues) [ some n ↦ ltb n (length q.current_game_events) | none ↦ false ]

-- What is sent from the state `q`: the recipient `f` gets the events from the one that it wants next
-- on, in order and at least one, in a datagram that fits; and the number that is acknowledged for
-- it is the number of the first event that it has not got.
pub record Serves (q : MqManager) (m : MessageAndRecipient) : Type 0 where
  pub wanted : ℕ
  pub sent : ℕ
  pub queued : find m.recipient q.queues ≡ some wanted
  pub more : wanted < length q.current_game_events
  pub some_event : 0 < sent
  pub acknowledged : m.ack_number ≡ wanted + sent
  pub available : wanted + sent ≤ length q.current_game_events
  pub message : m.message ≡ record {
    game_id = q.currently_broadcasted_game_id;
    events = take sent (drop wanted q.current_game_events);
  }
  pub encoded : (bytes : List ℕ) × (encode_server m.message ≡ ok bytes) × (length bytes ≤ 550)

message_for-Serves :
    (q : MqManager) (f : Fingerprint) (wanted : ℕ)
    → IsServable q
    → find f q.queues ≡ some wanted
    → wanted < length q.current_game_events
    → (m : MessageAndRecipient) × (message_for q f wanted ≡ ok m) × (m.recipient ≡ f) × Serves q m
unfolding message_for
message_for-Serves q f wanted v e h =
    let left = drop wanted q.current_game_events in
    let many : length left ≡ length q.current_game_events - wanted =
      length-drop wanted q.current_game_events in
    let (n, message, r, fills) =
      from_events-Fills q.currently_broadcasted_game_id left
        (All-drop IsSendable wanted _ v.sendable) in
    let taken : n ≡ min n (length left) =
      sym fills.count
      ∙ ap (λ (m : ServerToClientMessage). length m.events) fills.first
      ∙ length-take n left in
    (
      record { recipient = f; ack_number = (wanted + n) % 2 ^ 32; message = message },
      rw r,
      refl,
      record {
        wanted = wanted;
        sent = n;
        queued = e;
        more = h;
        some_event = fills.some_event (omega arith);
        acknowledged = omega (arith, v.few);
        available = omega arith;
        message = fills.first;
        encoded = fills.encoded;
      },
    )

-- The first client of the schedule is moved to its end.
abbrev pub rotate : MqManager → Fingerprint → List Fingerprint → MqManager
rotate q f fs = record q { clients_to_serve_schedule = fs ++ f ∷ [] }

mem-rotate : (g f : Fingerprint) (fs : List Fingerprint) → mem g (fs ++ f ∷ []) ≡ mem g (f ∷ fs)
unfolding mem
mem-rotate g f fs = ground (arith, mem-append g fs (f ∷ []))

mem_head : (f : Fingerprint) (fs : List Fingerprint) → mem f (f ∷ fs) ≡ true
unfolding mem
mem_head f fs = rw ==s_refl

or_right : (a b : Bool) → (a || b) ≡ true → a ≡ false → b ≡ true
or_right a b h e = ground arith

pub rotate-IsServable :
    (q : MqManager) (f : Fingerprint) (fs : List Fingerprint)
    → q.clients_to_serve_schedule ≡ f ∷ fs
    → IsServable q
    → IsServable (rotate q f fs)
unfolding mem
rotate-IsServable q f fs e v =
    let nodup : IsNodup (f ∷ fs) = rw e at v.nodup in
    record {
      nodup = IsNodup-append_one f fs nodup.0 nodup.1;
      registered = λ g. mem-rotate g f fs ∙ sym (ap (mem g) e) ∙ v.registered g;
      distinct = v.distinct;
      bounded = v.bounded;
      few = v.few;
      sendable = v.sendable;
      numbered = v.numbered;
      waiting = v.waiting;
    }

-- The schedule may turn, and nothing else changes.
pub record IsTurned (q q' : MqManager) : Type 0 where
  pub queues : q'.queues ≡ q.queues
  pub events : q'.current_game_events ≡ q.current_game_events
  pub game : q'.currently_broadcasted_game_id ≡ q.currently_broadcasted_game_id
  pub games : q'.next_games ≡ q.next_games
  pub servable : IsServable q'

module _ (q : MqManager) (f : Fingerprint) (fs : List Fingerprint) where
  Serves-rotate : {m : MessageAndRecipient} → Serves (rotate q f fs) m → Serves q m
  Serves-rotate s = record {
    wanted = s.wanted;
    sent = s.sent;
    queued = s.queued;
    more = s.more;
    some_event = s.some_event;
    acknowledged = s.acknowledged;
    available = s.available;
    message = s.message;
    encoded = s.encoded;
  }

  IsTurned-rotate : {q' : MqManager} → IsTurned (rotate q f fs) q' → IsTurned q q'
  IsTurned-rotate t = record {
    queues = t.queues;
    events = t.events;
    game = t.game;
    games = t.games;
    servable = t.servable;
  }

-- A client among the first `length fs` ones wants an event: the loop ends within as many rounds.
serve-Serves :
    (fs gs : List Fingerprint) (fuel : ℕ) (q : MqManager)
    → IsServable q
    → q.clients_to_serve_schedule ≡ fs ++ gs
    → any (wants q) fs ≡ true
    → length fs ≤ fuel
    → (m : MessageAndRecipient) × (q' : MqManager) × (serve fuel q ≡ ok (m, q'))
      × Serves q m
      × IsTurned q q'
unfolding serve
serve-Serves [] gs fuel q v e some_wants enough = cc
serve-Serves (f ∷ fs) gs zero q v e some_wants enough = absurd (omega arith)
serve-Serves (f ∷ fs) gs (suc fuel) q v e some_wants enough =
    let known : contains f q.queues ≡ true =
      sym (v.registered f) ∙ ap (mem f) e ∙ mem_head f (fs ++ gs) in
    let (n, found) = find_of_contains f q.queues known in
    elim (Bool-cases (ltb n (length q.current_game_events))) [
      | inl more ↦
          let (m, r, _, served) = message_for-Serves q f n v found (ltb→lt _ _ more) in
          (
            m,
            rotate q f (fs ++ gs),
            rw (e, found, more, r),
            served,
            record {
              queues = refl;
              events = refl;
              game = refl;
              games = refl;
              servable = rotate-IsServable q f (fs ++ gs) e v;
            },
          )
      | inr done ↦
          let (m, q', r, served, turned) =
            serve-Serves fs (gs ++ f ∷ []) fuel (rotate q f (fs ++ gs))
              (rotate-IsServable q f (fs ++ gs) e v) (append_assoc fs gs (f ∷ []))
              (or_right (wants q f) (any (wants q) fs) some_wants (rw (found, wants) done))
              (omega arith) in
          (
            m,
            q',
            rw (e, found, done, r),
            Serves-rotate q f (fs ++ gs) served,
            IsTurned-rotate q f (fs ++ gs) turned,
          )
    ]

any_of_mem :
    (p : Fingerprint → Bool) (f : Fingerprint) (fs : List Fingerprint)
    → mem f fs ≡ true
    → p f ≡ true
    → any p fs ≡ true
unfolding mem
any_of_mem p f [] h e = cc
any_of_mem p f (g ∷ fs) h e = elim (Bool-cases (g ==s f)) [
  | inl same ↦ rw ((==s_iff g f).0 same, e)
  | inr other ↦ let later : any p fs ≡ true = any_of_mem p f fs (rw other at h) e in ground arith
]

-- Some client that is registered wants an event.
pending-wants :
    (q : MqManager)
    → IsServable q
    → has_pending_messages_for_current_game q ≡ true
    → any (wants q) q.clients_to_serve_schedule ≡ true
unfolding has_pending_messages_for_current_game
pending-wants q v h =
    let (f, n, found, more) =
      find_of_any (λ n. ltb n (length q.current_game_events)) q.queues v.distinct h in
    any_of_mem (wants q) f q.clients_to_serve_schedule
      (v.registered f ∙ contains-find f q.queues n found) (rw (found, wants) more)

zeros-pending :
    (size : ℕ) (queues : List (Fingerprint × ℕ))
    → 0 < size
    → is_nil queues ≡ false
    → pending size (map_values (λ _. 0) queues) ≡ true
unfolding map_values
zeros-pending size [] h e = cc
zeros-pending size ((f, n) ∷ queues) h e = rw (lt→ltb 0 size h)

open_game-pending :
    (q : MqManager) (games : List (ℕ × List ScheduledEvent))
    → All IsWaiting games
    → is_nil games ≡ false
    → is_nil q.queues ≡ false
    → has_pending_messages_for_current_game (open_game q games) ≡ true
unfolding open_game has_pending_messages_for_current_game
open_game-pending q [] w h e = cc
open_game-pending q ((g, events) ∷ games) (w, ws) h e =
    let (_, _, n) = append_all_lem [] events (omega (arith, w.few)) tt tt w.fit in
    zeros-pending _ q.queues (omega (arith, w.started)) e

open_next_game-pending :
    (q : MqManager)
    → IsServable q
    → is_empty q ≡ false
    → is_nil q.queues ≡ false
    → has_pending_messages_for_current_game (open_next_game q) ≡ true
unfolding is_empty
open_next_game-pending q v work clients =
    elim (Bool-cases (has_pending_messages_for_current_game q)) [
      | inl busy ↦ rw (open_next_game_busy q busy) busy
      | inr idle ↦
          rw (open_next_game_idle q idle)
            (open_game-pending q q.next_games v.waiting (rw idle at work) clients)
    ]

-- When the manager meets its invariant, is not empty and a client is registered, `getNextMessage`
-- ends without a fault.
-- From the state in which the next game is opened, if it is opened, it sends
-- to a client that is behind the events from the one that it wants next on, in order and at least
-- one, in a datagram of at most 550 bytes, with the number of the first event that is not sent as
-- the one to acknowledge; after that only the schedule has turned.
pub get_next_message-Serves :
    (q : MqManager)
    → IsServable q
    → is_empty q ≡ false
    → is_nil q.queues ≡ false
    → (m : MessageAndRecipient) × (q' : MqManager) × (get_next_message q ≡ ok (m, q'))
      × Serves (open_next_game q) m
      × IsTurned (open_next_game q) q'
unfolding get_next_message
get_next_message-Serves q v work clients =
    let q1 = open_next_game q in
    let v1 : IsServable q1 = open_next_game-IsServable q v in
    serve-Serves q1.clients_to_serve_schedule [] (suc (length q1.clients_to_serve_schedule)) q1 v1
      (sym (append-nil q1.clients_to_serve_schedule))
      (pending-wants q1 v1 (open_next_game-pending q v work clients)) (omega arith)
