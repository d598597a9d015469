-- ===== src/GameManager/Handlers.antt =====
-- What a client's message or its silence does: `handleMessage` and `dropConnection`.
use sik_screenworms.Base.{
  ℕ, suc, Bool, true, false, not, ◌&&◌, List, [], ◌∷◌, Str, length, any, ltb, ◌==◌, ◌==s◌,
  if◌then◌else◌, Outcome, ok, undefined_behaviour, ◌>>=◌, ◌>>◌, check, find, contains, insert,
  erase, assign, keys, none, some,
}
use sik_screenworms.Messages.{
  TurnDirection, straight, right, left, ClientToServerMessage, max_players,
}
use sik_screenworms.MqManager.{Fingerprint, ack, add_queue, drop_queue, is_nil}
use sik_screenworms.GameManager.State.{Platform, Player, GameManager}
use sik_screenworms.GameManager.Ending.{erase_disconnected_players}
use sik_screenworms.GameManager.Turns.{start_game}

unfoldable pub is_straight : TurnDirection → Bool
is_straight straight = true
is_straight right = false
is_straight left = false

module _ {D : Type 0} where
  -- The first player with this address is marked.
  unfoldable pub mark_disconnected : Fingerprint → List (Str × Player D) → List (Str × Player D)
  mark_disconnected f [] = []
  mark_disconnected f ((name, p) ∷ players) =
      if p.fingerprint ==s f
      then (name, record p { is_disconnected = true }) ∷ players
      else (name, p) ∷ mark_disconnected f players

  unfoldable pub drop_connection : Fingerprint → GameManager D → GameManager D
  unfolding mark_disconnected
  drop_connection f g =
      let g' = record g { mq_manager = drop_queue f g.mq_manager } in
      if contains f g.watchers
      then record g' { watchers = erase f g.watchers }
      else let g'' = record g' { players = mark_disconnected f g.players } in
        if not g.game_started then erase_disconnected_players g'' else g''

  abbrev plays_from : Fingerprint → List (Str × Player D) → Bool
  plays_from f = any (λ e. e.1.fingerprint ==s f)

  unfoldable pub handle_message_from_watcher :
      Fingerprint → ClientToServerMessage → GameManager D → Outcome (GameManager D)
  handle_message_from_watcher f msg g = elim (find f g.watchers) [
    | none ↦
        if plays_from f g.players
        then ok g
        else ok (record g {
          watchers = insert f (record { session_id = msg.session_id }) g.watchers;
          mq_manager = add_queue f msg.next_expected_event_no g.mq_manager;
        })
    | some watcher ↦
        if watcher.session_id == msg.session_id
        then (ack f msg.next_expected_event_no g.mq_manager >>= λ q.
            ok (record g { mq_manager = q }))
        else if ltb watcher.session_id msg.session_id
        then ok (record g {
          watchers = assign f (record { session_id = msg.session_id }) g.watchers;
          mq_manager = add_queue f msg.next_expected_event_no (drop_queue f g.mq_manager);
        })
        else ok g
  ]

  -- The loop that looks for an older session of the client, over the names that were there at its
  -- start. An entry that has been erased is passed over, but to step on from it is undefined.
  unfoldable pub drop_older_sessions :
      List Str → Fingerprint → ℕ → GameManager D → Outcome (GameManager D)
  drop_older_sessions [] f session_id g = ok g
  drop_older_sessions (name ∷ names) f session_id g =
      (elim (find name g.players) [
        | none ↦ ok g
        | some p ↦
            if p.fingerprint ==s f && ltb p.session_id session_id
            then (let g' = drop_connection f g in
                check (contains name g'.players) undefined_behaviour >> ok g')
            else ok g
      ])
      >>= λ g'. drop_older_sessions names f session_id g'

  unfoldable pub count_ready : List (Str × Player D) → ℕ
  count_ready [] = 0
  count_ready ((name, p) ∷ players) =
      if p.is_ready_to_play then suc (count_ready players) else count_ready players

  unfoldable pub can_start_game : GameManager D → Bool
  unfolding count_ready
  can_start_game g = ltb 1 (count_ready g.players) && count_ready g.players == length g.players

module _ (pl : Platform) where
  open pl use {Double}

  -- The player that is created for a message.
  unfoldable pub new_player :
      Fingerprint → ClientToServerMessage → GameManager Double → Player Double
  unfolding is_straight
  new_player f msg g = record {
    fingerprint = f;
    player_name = msg.player_name;
    coord_x = pl.indeterminate;
    coord_y = pl.indeterminate;
    session_id = msg.session_id;
    pixel_x = pl.indeterminate_word;
    pixel_y = pl.indeterminate_word;
    movement_direction = pl.indeterminate_word;
    turn_direction = msg.turn_direction;
    takes_part_in_current_game = false;
    is_disconnected = false;
    is_eliminated = false;
    is_ready_to_play = not g.game_started && not (is_straight msg.turn_direction);
  }

  -- The end of `handleMessageFromPlayer`.
  unfoldable pub maybe_start_game : GameManager Double → Outcome (GameManager Double)
  maybe_start_game g = if not g.game_started && can_start_game g then start_game pl g else ok g

  unfoldable pub update_player :
      Fingerprint
      → ClientToServerMessage
      → Player Double
      → GameManager Double
      → Outcome (GameManager Double)
  unfolding is_straight
  update_player f msg p g =
      let p' = record p {
        turn_direction = msg.turn_direction;
        is_ready_to_play =
            if not g.game_started && not (is_straight msg.turn_direction)
            then true
            else p.is_ready_to_play;
      } in
      ack f msg.next_expected_event_no g.mq_manager >>= λ q.
      maybe_start_game (record g { players = assign msg.player_name p' g.players; mq_manager = q })

  unfoldable pub add_player :
      Fingerprint → ClientToServerMessage → GameManager Double → Outcome (GameManager Double)
  unfolding new_player
  add_player f msg g =
      if length g.players == max_players
      then ok g
      else maybe_start_game (record g {
        players = insert msg.player_name (new_player f msg g) g.players;
        mq_manager = add_queue f msg.next_expected_event_no g.mq_manager;
      })

  unfoldable pub handle_message_from_player :
      Fingerprint → ClientToServerMessage → GameManager Double → Outcome (GameManager Double)
  unfolding update_player add_player
  handle_message_from_player f msg g = elim (find msg.player_name g.players) [
    | some p ↦ if not (p.fingerprint ==s f) then ok g else update_player f msg p g
    | none ↦ do g' ← drop_older_sessions (keys g.players) f msg.session_id g; add_player f msg g'
  ]

  unfoldable pub handle_message :
      Fingerprint → ClientToServerMessage → GameManager Double → Outcome (GameManager Double)
  unfolding handle_message_from_watcher handle_message_from_player
  handle_message f msg g =
      if is_nil msg.player_name
      then handle_message_from_watcher f msg g
      else handle_message_from_player f msg g
