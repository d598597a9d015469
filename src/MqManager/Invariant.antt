-- ===== src/MqManager/Invariant.antt =====
-- The invariant of MQManager, and that its own steps keep it.
use sik_screenworms.Base.{
  ℕ, suc, ◌+◌, ◌^◌, ◌≤◌, ◌<◌, ◌≡◌, refl, sym, inl, inr, arith, true, false, List, [], ◌∷◌, ◌++◌,
  length, All, All-append, ◌==◌, if◌then◌else◌, Bool-cases, length-append, contains, mem, IsNodup,
  AllValues, AllValues-map_values, contains-map_values, AllValues-mono, keys, keys-map_values, ◌∙◌,
}
use sik_screenworms.Messages.{Event}
use sik_screenworms.Messages.EventCodec.{IsSendable, DataFits}
use sik_screenworms.MqManager.{
  MqManager, Fingerprint, ScheduledEvent, init, append_event, append_scheduled, schedule,
  append_all, open_game, open_next_game, has_pending_messages_for_current_game,
}

-- The events are numbered from `k` on.
abbrev pub IsNumbered : ℕ → List Event → Type 0
IsNumbered k [] = Unit {0}
IsNumbered k (e ∷ es) = (e.event_no ≡ k) × IsNumbered (suc k) es

abbrev pub Fits : ScheduledEvent → Type 0
Fits s = DataFits s.event_type s.event_data

-- A game that waits has an event, no more than fit a `uint32_t`, and each can be sent.
pub record IsWaiting (game : ℕ × List ScheduledEvent) : Type 0 where
  pub started : 0 < length game.1
  pub few : length game.1 < 2 ^ 32
  pub fit : All Fits game.1

-- The invariant: the clients in the schedule are those with a queue, each once; each wants one of
-- the stored events or the one after them; the stored events are numbered from 0 and can be sent,
-- and so will be those of the games that wait.
pub record IsServable (q : MqManager) : Type 0 where
  pub nodup : IsNodup q.clients_to_serve_schedule
  pub registered : (f : Fingerprint) → mem f q.clients_to_serve_schedule ≡ contains f q.queues
  pub distinct : IsNodup (keys q.queues)
  pub bounded : AllValues (λ n. n ≤ length q.current_game_events) q.queues
  pub few : length q.current_game_events < 2 ^ 32
  pub sendable : All IsSendable q.current_game_events
  pub numbered : IsNumbered 0 q.current_game_events
  pub waiting : All IsWaiting q.next_games

pub init-IsServable : (garbage : ℕ) → IsServable (init garbage)
unfolding init mem contains
init-IsServable garbage = record {
  nodup = tt;
  registered = λ f. refl;
  distinct = tt;
  bounded = tt;
  few = omega arith;
  sendable = tt;
  numbered = tt;
  waiting = tt;
}

IsNumbered-append :
    (k n : ℕ) (es : List Event) (e : Event)
    → IsNumbered k es
    → e.event_no ≡ n
    → n ≡ k + length es
    → IsNumbered k (es ++ e ∷ [])
IsNumbered-append k n [] e h he hn = (omega arith, tt)
IsNumbered-append k n (x ∷ es) e (hx, hes) he hn =
    (hx, IsNumbered-append (suc k) n es e hes he (omega arith))

pub length-append_event :
    (events : List Event) (s : ScheduledEvent) → length (append_event events s) ≡ length events + 1
unfolding append_event
length-append_event events s = length-append events _

module _ (events : List Event) (s : ScheduledEvent) (few : length events + 1 < 2 ^ 32) where
  append_event-IsSendable : All IsSendable events → Fits s → All IsSendable (append_event events s)
  unfolding append_event
  append_event-IsSendable h hs =
      All-append IsSendable events _ h (record { number = omega arith; fits = hs }, tt)

  append_event-IsNumbered : IsNumbered 0 events → IsNumbered 0 (append_event events s)
  unfolding append_event
  append_event-IsNumbered h = IsNumbered-append 0 _ events _ h refl (omega arith)

-- The events that are stored for a game that waits.
abbrev pub waiting_count : ℕ → List (ℕ × List ScheduledEvent) → ℕ
waiting_count game_id [] = 0
waiting_count game_id ((g, events) ∷ games) =
    if g == game_id then length events else waiting_count game_id games

-- The events that are stored for a game.
abbrev pub stored_count : ℕ → MqManager → ℕ
stored_count game_id q =
    if game_id == q.currently_broadcasted_game_id
    then length q.current_game_events
    else waiting_count game_id q.next_games

append_scheduled-IsWaiting :
    (game_id : ℕ) (s : ScheduledEvent) (games : List (ℕ × List ScheduledEvent))
    → waiting_count game_id games + 1 < 2 ^ 32
    → Fits s
    → All IsWaiting games
    → All IsWaiting (append_scheduled game_id s games)
unfolding append_scheduled
append_scheduled-IsWaiting game_id s [] few fit h =
    (record { started = omega arith; few = omega arith; fit = (fit, tt) }, tt)
append_scheduled-IsWaiting game_id s ((g, events) ∷ games) few fit (hg, hgs) =
    elim (Bool-cases (g == game_id)) [
      | inl e ↦
          let r : length events + 1 < 2 ^ 32 = rw e at few in
          rw e (
            record {
              started = omega (arith, length-append events (s ∷ []));
              few = omega (arith, length-append events (s ∷ []));
              fit = All-append Fits events _ hg.fit (fit, tt);
            },
            hgs,
          )
      | inr e ↦ rw e (hg, append_scheduled-IsWaiting game_id s games (rw e at few) fit hgs)
    ]

module _ (q : MqManager) (v : IsServable q) where
  -- From a state that meets the invariant, scheduling an event leads to one that does, when the
  -- event's type names the data that it holds, its fields fit, and its game has less than 2^32 - 1
  -- stored events.
  pub schedule-IsServable :
      (game_id : ℕ) (s : ScheduledEvent)
      → Fits s
      → stored_count game_id q + 1 < 2 ^ 32
      → IsServable (schedule game_id s q)
  unfolding schedule
  schedule-IsServable game_id s fit few =
      elim (Bool-cases (game_id == q.currently_broadcasted_game_id)) [
        | inl now ↦
            rw (now, schedule)
              (let room : length q.current_game_events + 1 < 2 ^ 32 = rw now at few in
                let more : length (append_event q.current_game_events s)
                    ≡ length q.current_game_events + 1 =
                  length-append_event q.current_game_events s in
                record {
                  nodup = v.nodup;
                  registered = v.registered;
                  distinct = v.distinct;
                  bounded = AllValues-mono _ _ q.queues (λ n h. omega arith) v.bounded;
                  few = omega arith;
                  sendable = append_event-IsSendable q.current_game_events s room v.sendable fit;
                  numbered = append_event-IsNumbered q.current_game_events s room v.numbered;
                  waiting = v.waiting;
                })
        | inr later ↦
            rw (later, schedule)
              (record {
                nodup = v.nodup;
                registered = v.registered;
                distinct = v.distinct;
                bounded = v.bounded;
                few = v.few;
                sendable = v.sendable;
                numbered = v.numbered;
                waiting =
                    append_scheduled-IsWaiting game_id s q.next_games (rw later at few) fit
                      v.waiting;
              })
      ]

-- The events that `getNextMessage` makes of a game that waited.
pub append_all_lem :
    (es : List Event) (ss : List ScheduledEvent)
    → length es + length ss < 2 ^ 32
    → All IsSendable es
    → IsNumbered 0 es
    → All Fits ss
    → All IsSendable (append_all es ss)
      × IsNumbered 0 (append_all es ss)
      × (length (append_all es ss) ≡ length es + length ss)
unfolding append_all
append_all_lem es [] few hs hn fit = (hs, hn, omega arith)
append_all_lem es (s ∷ ss) few hs hn (fit, fits) =
    let room : length es + 1 < 2 ^ 32 = omega arith in
    let more : length (append_event es s) ≡ length es + 1 = length-append_event es s in
    let (a, b, c) =
      append_all_lem (append_event es s) ss (omega arith) (append_event-IsSendable es s room hs fit)
        (append_event-IsNumbered es s room hn) fits in
    (a, b, omega arith)

open_game-IsServable :
    (q : MqManager) (games : List (ℕ × List ScheduledEvent))
    → IsServable q
    → All IsWaiting games
    → IsServable (open_game q games)
unfolding open_game
open_game-IsServable q [] v w = v
open_game-IsServable q ((g, events) ∷ games) v (w, ws) =
    let (a, b, c) = append_all_lem [] events (omega (arith, w.few)) tt tt w.fit in
    record {
      nodup = v.nodup;
      registered = λ f. v.registered f ∙ sym (contains-map_values _ f q.queues);
      distinct = rw keys-map_values v.distinct;
      bounded = AllValues-map_values _ _ _ q.queues (λ n h. omega arith) v.bounded;
      few = omega (arith, w.few);
      sendable = a;
      numbered = b;
      waiting = ws;
    }

pub open_next_game_busy :
    (q : MqManager) → has_pending_messages_for_current_game q ≡ true → open_next_game q ≡ q
unfolding open_next_game
open_next_game_busy q busy = rw busy

pub open_next_game_idle :
    (q : MqManager)
    → has_pending_messages_for_current_game q ≡ false
    → open_next_game q ≡ open_game q q.next_games
unfolding open_next_game
open_next_game_idle q idle = rw idle

-- From a state that meets the invariant, opening the next game if no client is behind leads to one
-- that does.
pub open_next_game-IsServable : (q : MqManager) → IsServable q → IsServable (open_next_game q)
open_next_game-IsServable q v = elim (Bool-cases (has_pending_messages_for_current_game q)) [
  | inl busy ↦ rw (open_next_game_busy q busy) v
  | inr idle ↦ rw (open_next_game_idle q idle) (open_game-IsServable q q.next_games v v.waiting)
]
