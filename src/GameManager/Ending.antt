-- ===== src/GameManager/Ending.antt =====
-- The events that a game emits, and how players leave it: `eliminatePlayer`, `endGame`,
-- `eraseDisconnectedPlayers`.
use sik_screenworms.Base.{
  ◌+◌, ◌%◌, true, false, List, [], ◌∷◌, Str, ltb, if◌then◌else◌, Outcome, ok, ◌>>=◌, deref, find,
  erase, assign, map_values, keys,
}
use sik_screenworms.Messages.{
  new_game, pixel, player_eliminated, game_over, in_new_game, in_pixel, in_player_eliminated,
  in_game_over,
}
use sik_screenworms.Messages.Players.{make_new_game}
use sik_screenworms.MqManager.{Fingerprint, drop_queue}
use sik_screenworms.GameManager.State.{Player, GameManager, save_event}

module _ {D : Type 0} where
  unfoldable pub emit_new_game_event : GameManager D → Outcome (GameManager D)
  unfolding save_event
  emit_new_game_event g = do
    e ← make_new_game g.maxx g.maxy (keys g.players)
    ok (save_event new_game (in_new_game e) g)

  unfoldable pub emit_game_over : GameManager D → GameManager D
  unfolding save_event
  emit_game_over g = save_event game_over in_game_over g

  unfoldable pub emit_pixel_event : Player D → GameManager D → Outcome (GameManager D)
  unfolding save_event
  emit_pixel_event p g = do
    player_no ← deref (find p.player_name g.player_number_in_game)
    ok (
        save_event pixel
          (in_pixel (record { player_number = player_no; x = p.pixel_x; y = p.pixel_y })) g)

  unfoldable pub emit_player_eliminated_event : Player D → GameManager D → Outcome (GameManager D)
  unfolding save_event
  emit_player_eliminated_event p g = do
    player_no ← deref (find p.player_name g.player_number_in_game)
    ok (
        save_event player_eliminated (in_player_eliminated (record { player_number = player_no }))
          g)

  -- `playersToErase`
  unfoldable pub disconnected : List (Str × Player D) → List (Str × Fingerprint)
  disconnected [] = []
  disconnected ((name, p) ∷ players) =
      if p.is_disconnected
      then (name, p.fingerprint) ∷ disconnected players
      else disconnected players

  unfoldable pub erase_players : List (Str × Fingerprint) → GameManager D → GameManager D
  erase_players [] g = g
  erase_players ((name, f) ∷ rest) g =
      erase_players rest
        (record g { players = erase name g.players; mq_manager = drop_queue f g.mq_manager })

  abbrev pub not_ready : Player D → Player D
  not_ready p = record p { is_ready_to_play = false }

  unfoldable pub erase_disconnected_players : GameManager D → GameManager D
  unfolding disconnected erase_players
  erase_disconnected_players g =
      erase_players (disconnected g.players) (record g { players = map_values not_ready g.players })

  unfoldable pub end_game : GameManager D → GameManager D
  unfolding emit_game_over erase_disconnected_players
  end_game g = erase_disconnected_players (record (emit_game_over g) { game_started = false })

  -- `player` refers to the entry of `name` in `players`; `p` is what the entry holds at the call.
  unfoldable pub eliminate_player : Str → Player D → GameManager D → Outcome (GameManager D)
  unfolding emit_player_eliminated_event end_game
  eliminate_player name p g = do
    let p' = record p { is_eliminated = true }
    let g' = record g {
      players = assign name p' g.players;
      alive_players = (g.alive_players + 255) % 256;
    }
    g'' ← emit_player_eliminated_event p' g'
    ok (if ltb g''.alive_players 2 then end_game g'' else g'')
