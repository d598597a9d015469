-- ===== src/MqManager/Opening.antt =====
-- The opening of a game that waits, and a manager without clients.
use sik_screenworms.Base.{
  ℕ, ◌≤◌, ◌≡◌, refl, sym, ap, ◌∙◌, arith, true, false, List, [], ◌∷◌, ◌++◌, length, All, fail,
  undefined_behaviour, subst, keys, keys-map_values, AllValues-map_values, map, AllValues,
}
use mathlib.Core.List.{append-nil, append_assoc, map-append}
use sik_screenworms.Messages.{Event}
use sik_screenworms.MqManager.{
  MqManager, open_next_game, has_pending_messages_for_current_game, get_next_message, open_game,
  append_all, append_event, ScheduledEvent, is_empty,
}
use sik_screenworms.MqManager.Invariant.{
  IsServable, IsWaiting, IsNumbered, append_all_lem, open_next_game_busy, open_next_game_idle,
}

-- What an event was scheduled as.
abbrev pub scheduled : Event → ScheduledEvent
scheduled e = record { event_type = e.event_type; event_data = e.event_data }

scheduled-append_all :
    (es : List Event) (ss : List ScheduledEvent)
    → map scheduled (append_all es ss) ≡ map scheduled es ++ ss
unfolding append_all append_event
scheduled-append_all es [] = sym (append-nil (map scheduled es))
scheduled-append_all es (s ∷ ss) =
    scheduled-append_all (append_event es s) ss ∙ rw (map-append, append_assoc)

-- `q'` is `q` with a waiting game opened: its events are those that were scheduled, in that order and
-- numbered from 0, and every client is to get them from number 0 on.
pub record IsOpened (q : MqManager) (g : ℕ) (events : List ScheduledEvent)
    (games : List (ℕ × List ScheduledEvent)) (q' : MqManager) : Type 0 where
  pub game : q'.currently_broadcasted_game_id ≡ g
  pub others : q'.next_games ≡ games
  pub in_order : map scheduled q'.current_game_events ≡ events
  pub numbered : IsNumbered 0 q'.current_game_events
  pub clients : keys q'.queues ≡ keys q.queues
  pub from_start : AllValues (λ n. n ≡ 0) q'.queues

open_game-IsOpened :
    (q : MqManager) (g : ℕ) (events : List ScheduledEvent) (games : List (ℕ × List ScheduledEvent))
    → IsServable q
    → IsWaiting (g, events)
    → IsOpened q g events games (open_game q ((g, events) ∷ games))
unfolding open_game
open_game-IsOpened q g events games v w =
    let (_, n, _) = append_all_lem [] events (omega (arith, w.few)) tt tt w.fit in
    record {
      game = refl;
      others = refl;
      in_order = scheduled-append_all [] events;
      numbered = n;
      clients = keys-map_values _ q.queues;
      from_start =
          AllValues-map_values (λ n. n ≤ length q.current_game_events) _ _ q.queues (λ _ _. refl)
            v.bounded;
    }

-- When the manager meets its invariant and a game waits: as long as a client is behind in the current
-- game, that game stays; when no client is, the first game that waits is opened. Then its events are
-- those that were scheduled for it, in that order and numbered from 0, and every client is to get
-- them from number 0 on.
pub open_next_game-IsOpened :
    (q : MqManager) (g : ℕ) (events : List ScheduledEvent) (games : List (ℕ × List ScheduledEvent))
    → IsServable q
    → q.next_games ≡ (g, events) ∷ games
    → (has_pending_messages_for_current_game q ≡ true → open_next_game q ≡ q)
      × (has_pending_messages_for_current_game q ≡ false
          → IsOpened q g events games (open_next_game q))
open_next_game-IsOpened q g events games v e = (
  open_next_game_busy q,
  λ idle.
      let waiting : All IsWaiting ((g, events) ∷ games) = subst (All IsWaiting) e v.waiting in
      subst (IsOpened q g events games) (sym (open_next_game_idle q idle ∙ ap (open_game q) e))
        (open_game-IsOpened q g events games v waiting.0),
)

-- With a game waiting and no client left, the manager is not empty, and `getNextMessage` is undefined
-- behaviour: it reads the front of an empty schedule.
pub get_next_message_no_clients :
    (q : MqManager) (g : ℕ) (events : List ScheduledEvent) (games : List (ℕ × List ScheduledEvent))
    → q.next_games ≡ (g, events) ∷ games
    → q.queues ≡ []
    → q.clients_to_serve_schedule ≡ []
    → (is_empty q ≡ false) × (get_next_message q ≡ fail undefined_behaviour)
unfolding is_empty get_next_message
get_next_message_no_clients q g events games waiting none_queued none_scheduled = ground (arith)
