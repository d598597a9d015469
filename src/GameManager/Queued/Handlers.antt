-- ===== src/GameManager/Queued/Handlers.antt =====
-- A message gives at most its sender a queue, and a client that is dropped has none.
use sik_screenworms.Base.{
  ℕ, ◌≡◌, false, not, ◌&&◌, List, [], ◌∷◌, Str, length, any, ltb, ◌==◌, ◌==s◌, Option-cases, inl,
  inr, Outcome, ok, undefined_behaviour, ◌>>=◌, After, After->>=, After-any, if-elim, check, find,
  contains, keys,
}
use sik_screenworms.Messages.{ClientToServerMessage, max_players}
use sik_screenworms.MqManager.{Fingerprint, MqManager, ack, drop_queue, is_nil}
use sik_screenworms.GameManager.State.{Platform, Player, GameManager}
use sik_screenworms.GameManager.Handlers.{
  drop_connection, handle_message_from_watcher, drop_older_sessions, maybe_start_game,
  update_player, add_player, handle_message_from_player, handle_message, can_start_game,
}
use sik_screenworms.GameManager.Queued.{
  IsQueuedIn, IsIn, drop_queue_out, drop_queue-IsQueuedIn, add_queue-IsQueuedIn, ack-IsQueuedIn,
  erase_disconnected_players-IsIn,
}
use sik_screenworms.GameManager.Queued.Turns.{start_game-IsIn}

module _ (Q : Str → Type 0) {D : Type 0} where
  without_queue :
      (f : Fingerprint) (g : GameManager D)
      → IsQueuedIn Q (drop_queue f g.mq_manager)
      → IsIn Q (drop_connection f g)
  unfolding drop_connection
  without_queue f g h =
      if-elim (IsIn Q) (contains f g.watchers) _ _ h
        (if-elim (IsIn Q) (not g.game_started) _ _ (erase_disconnected_players-IsIn Q _ h) h)

pub drop_connection_out :
    {D : Type 0} (P Q : Str → Type 0) (f : Fingerprint) (g : GameManager D)
    → ((k : Str) → P k → (f ==s k) ≡ false → Q k)
    → IsIn P g
    → IsIn Q (drop_connection f g)
drop_connection_out P Q f g kept h = without_queue Q f g (drop_queue_out P Q f g.mq_manager kept h)

module _ (P : Str → Type 0) (pl : Platform) where
  open pl use {Double}

  with_queues :
      (o : Outcome MqManager) (again : MqManager → Outcome (GameManager Double))
      → After (IsQueuedIn P) o
      → ((q : MqManager) → IsQueuedIn P q → After (IsIn P) (again q))
      → After (IsIn P) (o >>= again)
  with_queues o again h step = After->>= (IsQueuedIn P) (IsIn P) o again h step

  handle_message_from_watcher-IsIn :
      (f : Fingerprint) (msg : ClientToServerMessage) (g : GameManager Double)
      → P f
      → IsIn P g
      → After (IsIn P) (handle_message_from_watcher f msg g)
  unfolding handle_message_from_watcher
  handle_message_from_watcher-IsIn f msg g p h = elim (Option-cases (find f g.watchers)) [
    | inl e ↦
        rw (e, handle_message_from_watcher)
          (if-elim (After (IsIn P))
            (any (λ (x : Str × Player Double). x.1.fingerprint ==s f) g.players) (ok g) _ h
            (add_queue-IsQueuedIn P f _ g.mq_manager p h))
    | inr (watcher, e) ↦
        rw (e, handle_message_from_watcher)
          (if-elim (After (IsIn P)) (watcher.session_id == msg.session_id) _ _
            (with_queues (ack f msg.next_expected_event_no g.mq_manager) _
              (ack-IsQueuedIn P f _ g.mq_manager h) (λ q hq. hq))
            (if-elim (After (IsIn P)) (ltb watcher.session_id msg.session_id) _ (ok g)
              (add_queue-IsQueuedIn P f _ _ p (drop_queue-IsQueuedIn P f g.mq_manager h)) h))
  ]

  drop_older_sessions-IsIn :
      (names : List Str) (f : Fingerprint) (session_id : ℕ) (g : GameManager Double)
      → IsIn P g
      → After (IsIn P) (drop_older_sessions names f session_id g)
  unfolding drop_older_sessions
  drop_older_sessions-IsIn [] f session_id g h = h
  drop_older_sessions-IsIn (name ∷ names) f session_id g h =
      After->>= (IsIn P) (IsIn P) _ _
        (elim (Option-cases (find name g.players)) [
          | inl e ↦ rw e h
          | inr (p, e) ↦ rw e (
              if-elim (After (IsIn P)) (p.fingerprint ==s f && ltb p.session_id session_id) _ (ok g)
                (After-any (IsIn P)
                  (check (contains name (drop_connection f g).players) undefined_behaviour) _
                  (λ _. drop_connection_out P P f g (λ k hk _. hk) h))
                h)
        ])
        (λ g' h'. drop_older_sessions-IsIn names f session_id g' h')

  maybe_start_game-IsIn :
      (g : GameManager Double) → IsIn P g → After (IsIn P) (maybe_start_game pl g)
  unfolding maybe_start_game
  maybe_start_game-IsIn g h =
      if-elim (After (IsIn P)) (not g.game_started && can_start_game g) _ (ok g)
        (start_game-IsIn P pl g h) h

  update_player-IsIn :
      (f : Fingerprint) (msg : ClientToServerMessage) (p : Player Double) (g : GameManager Double)
      → IsIn P g
      → After (IsIn P) (update_player pl f msg p g)
  unfolding update_player
  update_player-IsIn f msg p g h =
      with_queues (ack f msg.next_expected_event_no g.mq_manager) _
        (ack-IsQueuedIn P f _ g.mq_manager h) (λ q hq. maybe_start_game-IsIn _ hq)

  add_player-IsIn :
      (f : Fingerprint) (msg : ClientToServerMessage) (g : GameManager Double)
      → P f
      → IsIn P g
      → After (IsIn P) (add_player pl f msg g)
  unfolding add_player
  add_player-IsIn f msg g p h =
      if-elim (After (IsIn P)) (length g.players == max_players) (ok g) _ h (
        maybe_start_game-IsIn _
          (add_queue-IsQueuedIn P f msg.next_expected_event_no g.mq_manager p h))

  handle_message_from_player-IsIn :
      (f : Fingerprint) (msg : ClientToServerMessage) (g : GameManager Double)
      → P f
      → IsIn P g
      → After (IsIn P) (handle_message_from_player pl f msg g)
  unfolding handle_message_from_player
  handle_message_from_player-IsIn f msg g p h =
      elim (Option-cases (find msg.player_name g.players)) [
        | inr (player, e) ↦
            rw (e, handle_message_from_player)
              (if-elim (After (IsIn P)) (not (player.fingerprint ==s f)) (ok g) _ h
                (update_player-IsIn f msg player g h))
        | inl e ↦
            rw (e, handle_message_from_player)
              (After->>= (IsIn P) (IsIn P) (drop_older_sessions (keys g.players) f msg.session_id g)
                _ (drop_older_sessions-IsIn (keys g.players) f msg.session_id g h)
                (λ g' h'. add_player-IsIn f msg g' p h'))
      ]

  -- Where every client that has a queue is in `P`, and the sender too, this holds after the message
  -- was handled.
  pub handle_message-IsIn :
      (f : Fingerprint) (msg : ClientToServerMessage) (g : GameManager Double)
      → P f
      → IsIn P g
      → After (IsIn P) (handle_message pl f msg g)
  unfolding handle_message
  handle_message-IsIn f msg g p h =
      if-elim (After (IsIn P)) (is_nil msg.player_name) _ _
        (handle_message_from_watcher-IsIn f msg g p h) (handle_message_from_player-IsIn f msg g p h)
