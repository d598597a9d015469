-- ===== src/GameManager/Queued.antt =====
-- Which clients have a queue: the game and its turns add none, and a message only its sender's.
pub mod Turns
pub mod Handlers
use sik_screenworms.Base.{
  ℕ, ◌+◌, ◌%◌, ◌≡◌, refl, sym, ap, ◌∙◌, subst, inl, inr, arith, Bool, true, false, not, ◌&&◌, ◌||◌,
  List, [], ◌∷◌, ◌++◌, Str, length, ltb, leb, ◌==◌, ◌==s◌, ==s_iff, if◌then◌else◌, Bool-cases,
  Option, none, some, Option-cases, Outcome, ok, fail, undefined_behaviour, ◌>>=◌, ◌>>◌, After,
  After->>=, After-any, if-elim, check, deref, find, contains, insert, erase, assign, keys,
  contains-erase, contains-insert, contains-assign, ok-injective,
}
use sik_screenworms.Common.Rng.{generate_next}
use sik_screenworms.Messages.{
  EventType, GameEventVariant, game_over, in_game_over, ClientToServerMessage, max_players,
}
use sik_screenworms.Messages.Players.{make_new_game}
use sik_screenworms.MqManager.{
  Fingerprint, MqManager, ScheduledEvent, schedule, ack, add_queue, drop_queue, is_nil,
}
use sik_screenworms.GameManager.State.{Platform, Player, GameManager, save_event, is_eaten}
use sik_screenworms.GameManager.Ending.{
  emit_new_game_event, emit_game_over, emit_pixel_event, emit_player_eliminated_event,
  erase_players, disconnected, erase_disconnected_players, end_game, eliminate_player,
}
use sik_screenworms.GameManager.Turns.{
  remainder, place_player, take_pixel, start_player, start_players, start_game, settle, advance,
  run_player, run_players, run_turn,
}
use sik_screenworms.GameManager.Handlers.{
  drop_connection, handle_message_from_watcher, drop_older_sessions, maybe_start_game,
  update_player, add_player, handle_message_from_player, handle_message, can_start_game,
}

-- Every client that has a queue is in `P`.
unfoldable pub IsQueuedIn : (Str → Type 0) → MqManager → Type 0
IsQueuedIn P q = (k : Str) → contains k q.queues ≡ true → P k

-- The queue of `f` is gone, and no other was added.
pub drop_queue_out :
    (P Q : Str → Type 0) (f : Fingerprint) (q : MqManager)
    → ((k : Str) → P k → (f ==s k) ≡ false → Q k)
    → IsQueuedIn P q
    → IsQueuedIn Q (drop_queue f q)
unfolding IsQueuedIn drop_queue
drop_queue_out P Q f q kept h k there = elim (Bool-cases (f ==s k)) [
  | inl same ↦ absurd (ground (arith, contains-erase f k q.queues))
  | inr differ ↦ kept k (h k (ground (arith, contains-erase f k q.queues))) differ
]

inserted_key :
    (f k : Str) (v : ℕ) (m : List (Str × ℕ))
    → contains k (insert f v m) ≡ true
    → (f ==s k) ≡ false
    → contains k m ≡ true
inserted_key f k v m h differ = ground (arith, contains-insert f k v m)

module _ (P : Str → Type 0) where
  pub drop_queue-IsQueuedIn :
      (f : Fingerprint) (q : MqManager) → IsQueuedIn P q → IsQueuedIn P (drop_queue f q)
  drop_queue-IsQueuedIn f q h = drop_queue_out P P f q (λ k p _. p) h

  pub add_queue-IsQueuedIn :
      (f : Fingerprint) (next : ℕ) (q : MqManager)
      → P f
      → IsQueuedIn P q
      → IsQueuedIn P (add_queue f next q)
  unfolding IsQueuedIn add_queue
  add_queue-IsQueuedIn f next q p h = elim (Bool-cases (contains f q.queues)) [
    | inl there ↦ rw there h
    | inr new ↦ rw new (λ k queued. elim (Bool-cases (f ==s k)) [
      | inl same ↦ subst P (ground (arith, ==s_iff f k)) p
      | inr differ ↦ h k (inserted_key f k _ q.queues queued differ)
    ])
  ]

  pub ack-IsQueuedIn :
      (f : Fingerprint) (next : ℕ) (q : MqManager)
      → IsQueuedIn P q
      → After (IsQueuedIn P) (ack f next q)
  unfolding IsQueuedIn ack
  ack-IsQueuedIn f next q h =
      if-elim (After (IsQueuedIn P)) (is_nil q.next_games) _ (ok q)
        (After-any (IsQueuedIn P) (deref (find f q.queues)) _
          (λ _ k queued. h k (sym (contains-assign f k _ q.queues) ∙ queued)))
        h

  schedule-IsQueuedIn :
      (game_id : ℕ) (e : ScheduledEvent) (q : MqManager)
      → IsQueuedIn P q
      → IsQueuedIn P (schedule game_id e q)
  unfolding IsQueuedIn schedule
  schedule-IsQueuedIn game_id e q h =
      elim (Bool-cases (game_id == q.currently_broadcasted_game_id)) [
        | inl current ↦ rw current h
        | inr other ↦ rw other h
      ]

  module _ {D : Type 0} where
    abbrev pub IsIn : GameManager D → Type 0
    IsIn g = IsQueuedIn P g.mq_manager

    save_event-IsIn :
        (t : EventType) (v : GameEventVariant) (g : GameManager D)
        → IsIn g
        → IsIn (save_event t v g)
    unfolding save_event
    save_event-IsIn t v g h = schedule-IsQueuedIn g.game_id _ g.mq_manager h

    pub emit_pixel_event-IsIn :
        (p : Player D) (g : GameManager D) → IsIn g → After IsIn (emit_pixel_event p g)
    unfolding emit_pixel_event
    emit_pixel_event-IsIn p g h =
        After-any IsIn (deref (find p.player_name g.player_number_in_game)) _
          (λ n. save_event-IsIn _ _ g h)

    emit_player_eliminated_event-IsIn :
        (p : Player D) (g : GameManager D) → IsIn g → After IsIn (emit_player_eliminated_event p g)
    unfolding emit_player_eliminated_event
    emit_player_eliminated_event-IsIn p g h =
        After-any IsIn (deref (find p.player_name g.player_number_in_game)) _
          (λ n. save_event-IsIn _ _ g h)

    pub emit_new_game_event-IsIn : (g : GameManager D) → IsIn g → After IsIn (emit_new_game_event g)
    unfolding emit_new_game_event
    emit_new_game_event-IsIn g h =
        After-any IsIn (make_new_game g.maxx g.maxy (keys g.players)) _
          (λ e. save_event-IsIn _ _ g h)

    erase_players-IsIn :
        (l : List (Str × Fingerprint)) (g : GameManager D) → IsIn g → IsIn (erase_players l g)
    unfolding erase_players
    erase_players-IsIn [] g h = h
    erase_players-IsIn ((name, f) ∷ l) g h =
        erase_players-IsIn l _ (drop_queue-IsQueuedIn f g.mq_manager h)

    pub erase_disconnected_players-IsIn :
        (g : GameManager D) → IsIn g → IsIn (erase_disconnected_players g)
    unfolding erase_disconnected_players
    erase_disconnected_players-IsIn g h = erase_players-IsIn (disconnected g.players) _ h

    end_game-IsIn : (g : GameManager D) → IsIn g → IsIn (end_game g)
    unfolding end_game emit_game_over
    end_game-IsIn g h =
        erase_disconnected_players-IsIn (record (emit_game_over g) { game_started = false })
          (save_event-IsIn game_over in_game_over g h)

    pub eliminate_player-IsIn :
        (name : Str) (p : Player D) (g : GameManager D)
        → IsIn g
        → After IsIn (eliminate_player name p g)
    unfolding eliminate_player
    eliminate_player-IsIn name p g h =
        let p' = record p { is_eliminated = true } in
        let g' = record g {
          players = assign name p' g.players;
          alive_players = (g.alive_players + 255) % 256;
        } in
        After->>= IsIn IsIn (emit_player_eliminated_event p' g') _
          (emit_player_eliminated_event-IsIn p' g' h)
          (λ g'' h''.
            if-elim IsIn (ltb g''.alive_players 2) (end_game g'') g'' (end_game-IsIn g'' h'') h'')
