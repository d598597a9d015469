-- ===== src/MqManager.antt =====
-- server_src/game.h and game.cpp, class MQManager: the events of the game that is broadcast, those
-- of the games that wait behind it, and for each client the number of the next event to send.
pub mod Invariant
pub mod Clients
pub mod Sending
pub mod Recipient
pub mod Operations
pub mod Opening
pub mod Starvation
mod Runs
use sik_screenworms.Base.{
  ℕ, zero, suc, ◌+◌, ◌%◌, ◌^◌, min, Bool, true, false, not, ◌&&◌, List, [], ◌∷◌, ◌++◌, Str, length,
  drop, any, ltb, ◌==◌, if◌then◌else◌, Outcome, ok, fail, undefined_behaviour, out_of_fuel, ◌>>=◌,
  deref, Map, find, contains, insert, erase, assign, map_values, place, erase_first, mem, ◌==s◌,
}
use sik_screenworms.Messages.{
  EventType, GameEventVariant, Event, ServerToClientMessage, from_events,
}

-- A client's address as text.
abbrev pub Fingerprint : Type 0
Fingerprint = Str

pub record ScheduledEvent : Type 0 where
  pub event_type : EventType
  pub event_data : GameEventVariant

pub record MqManager : Type 0 where
  pub next_games : List (ℕ × List ScheduledEvent)
  pub queues : List (Fingerprint × ℕ)
  pub clients_to_serve_schedule : List Fingerprint
  pub current_game_events : List Event
  pub currently_broadcasted_game_id : ℕ

pub record MessageAndRecipient : Type 0 where
  pub recipient : Fingerprint
  pub ack_number : ℕ
  pub message : ServerToClientMessage

-- The members as a constructor leaves them; the id of the game is not initialised, so it is any.
unfoldable pub init : ℕ → MqManager
init garbage = record {
  next_games = [];
  queues = [];
  clients_to_serve_schedule = [];
  current_game_events = [];
  currently_broadcasted_game_id = garbage;
}

-- `currentGameEvents.emplace_back (currentGameEvents.size (), …)`
unfoldable pub append_event : List Event → ScheduledEvent → List Event
append_event events s =
    events
    ++ record {
      event_no = length events % 2 ^ 32;
      event_type = s.event_type;
      event_data = s.event_data;
    }
      ∷ []

-- The loop over `nextGames`, and the new container behind it.
unfoldable pub append_scheduled :
    ℕ → ScheduledEvent → List (ℕ × List ScheduledEvent) → List (ℕ × List ScheduledEvent)
append_scheduled game_id s [] = (game_id, s ∷ []) ∷ []
append_scheduled game_id s ((g, events) ∷ games) =
    if g == game_id
    then (g, events ++ s ∷ []) ∷ games
    else (g, events) ∷ append_scheduled game_id s games

unfoldable pub schedule : ℕ → ScheduledEvent → MqManager → MqManager
unfolding append_event append_scheduled
schedule game_id s q =
    if game_id == q.currently_broadcasted_game_id
    then record q { current_game_events = append_event q.current_game_events s }
    else record q { next_games = append_scheduled game_id s q.next_games }

abbrev pub pending : ℕ → List (Fingerprint × ℕ) → Bool
pending size = any (λ queue. ltb queue.1 size)

unfoldable pub has_pending_messages_for_current_game : MqManager → Bool
has_pending_messages_for_current_game q = pending (length q.current_game_events) q.queues

abbrev pub is_nil {ℓ} : {A : Type ℓ} → List A → Bool
is_nil [] = true
is_nil (x ∷ xs) = false

unfoldable pub is_empty : MqManager → Bool
unfolding has_pending_messages_for_current_game
is_empty q = not (has_pending_messages_for_current_game q) && is_nil q.next_games

-- The events of a scheduled game, numbered in the order of their arrival.
unfoldable pub append_all : List Event → List ScheduledEvent → List Event
unfolding append_event
append_all events [] = events
append_all events (s ∷ rest) = append_all (append_event events s) rest

unfoldable pub open_game : MqManager → List (ℕ × List ScheduledEvent) → MqManager
unfolding append_all
open_game q [] = q
open_game q ((g, events) ∷ games) = record q {
  next_games = games;
  queues = map_values (λ _. 0) q.queues;
  current_game_events = append_all [] events;
  currently_broadcasted_game_id = g;
}

-- The first `if` of `getNextMessage`.
unfoldable pub open_next_game : MqManager → MqManager
unfolding open_game has_pending_messages_for_current_game
open_next_game q = if has_pending_messages_for_current_game q then q else open_game q q.next_games

-- What is sent to the client whose turn it is, from the event that it wants next.
unfoldable pub message_for : MqManager → Fingerprint → ℕ → Outcome MessageAndRecipient
message_for q f wanted = do
  (items_read, message) ←
      from_events q.currently_broadcasted_game_id (drop wanted q.current_game_events)
  ok (record { recipient = f; ack_number = (wanted + items_read) % 2 ^ 32; message = message })

-- `while (true)`: the first client moves to the end, and is served if it wants an event.
serve_front :
    (MqManager → Outcome (MessageAndRecipient × MqManager))
    → MqManager
    → List Fingerprint
    → Outcome (MessageAndRecipient × MqManager)
unfolding message_for
serve_front others q [] = fail undefined_behaviour
serve_front others q (f ∷ fs) =
    let rotated = record q { clients_to_serve_schedule = fs ++ f ∷ [] } in
    deref (find f q.queues) >>= λ wanted.
    if ltb wanted (length q.current_game_events)
    then (message_for q f wanted >>= λ m. ok (m, rotated))
    else others rotated

unfoldable pub serve : ℕ → MqManager → Outcome (MessageAndRecipient × MqManager)
unfolding serve_front
serve zero q = fail out_of_fuel
serve (suc fuel) q = serve_front (λ r. serve fuel r) q q.clients_to_serve_schedule

-- One round for each client is enough if one of them wants an event; else the loop would not end.
unfoldable pub get_next_message : MqManager → Outcome (MessageAndRecipient × MqManager)
unfolding serve open_next_game
get_next_message q =
    let q' = open_next_game q in serve (suc (length q'.clients_to_serve_schedule)) q'

unfoldable pub ack : Fingerprint → ℕ → MqManager → Outcome MqManager
ack f next_expected_event_no q =
    if is_nil q.next_games
    then (deref (find f q.queues) >>= λ _. ok (record q {
      queues =
          assign f (min (length q.current_game_events % 2 ^ 32) next_expected_event_no) q.queues;
    }))
    else ok q

unfoldable pub drop_queue : Fingerprint → MqManager → MqManager
drop_queue f q = record q {
  queues = erase f q.queues;
  clients_to_serve_schedule = erase_first f q.clients_to_serve_schedule;
}

unfoldable pub add_queue : Fingerprint → ℕ → MqManager → MqManager
add_queue f next_expected_event_no q = if contains f q.queues then q else record q {
  queues = insert f (min (length q.current_game_events % 2 ^ 32) next_expected_event_no) q.queues;
  clients_to_serve_schedule = q.clients_to_serve_schedule ++ f ∷ [];
}
