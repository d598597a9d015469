-- ===== src/GameManager/Queued/Turns.antt =====
-- Neither the start of a game nor a turn adds a queue.
use sik_screenworms.Base.{
  not, ◌&&◌, ◌||◌, List, [], ◌∷◌, Str, leb, ◌==◌, if◌then◌else◌, ok, undefined_behaviour, After,
  After->>=, After-any, if-elim, check, deref, find, contains, assign, keys,
}
use sik_screenworms.GameManager.State.{Platform, Player, GameManager, is_eaten}
use sik_screenworms.GameManager.Ending.{emit_new_game_event, eliminate_player}
use sik_screenworms.GameManager.Turns.{
  remainder, place_player, take_pixel, start_player, start_players, start_game, settle, advance,
  run_player, run_players, run_turn,
}
use sik_screenworms.GameManager.Queued.{
  IsIn, emit_new_game_event-IsIn, emit_pixel_event-IsIn, eliminate_player-IsIn,
}

module _ (P : Str → Type 0) (pl : Platform) where
  open pl use {Double, plus_half, to_u16, is_negative}

  place_player-IsIn :
      (p : Player Double) (g : GameManager Double)
      → IsIn P g
      → After (λ (r : Player Double × GameManager Double). IsIn P r.1) (place_player pl p g)
  unfolding place_player
  place_player-IsIn p g h =
      let placed : Player Double × GameManager Double → Type 0 = λ r. IsIn P r.1 in
      After-any placed (remainder _ g.maxx) _
        (λ cx. After-any placed (remainder _ g.maxy) _ (λ cy. h))

  take_pixel-IsIn :
      (name : Str) (p : Player Double) (g : GameManager Double)
      → IsIn P g
      → After (IsIn P) (take_pixel pl name p g)
  unfolding take_pixel
  take_pixel-IsIn name p g h = emit_pixel_event-IsIn P p _ h

  start_player-IsIn :
      (name : Str) (g : GameManager Double) → IsIn P g → After (IsIn P) (start_player pl name g)
  unfolding start_player
  start_player-IsIn name g h = After-any (IsIn P) (deref (find name g.players)) _ (λ p.
      After->>= (λ (r : Player Double × GameManager Double). IsIn P r.1) (IsIn P)
        (place_player pl p g) _ (place_player-IsIn p g h)
        (λ (p', g') h'.
          if-elim (After (IsIn P)) (is_eaten p'.pixel_x p'.pixel_y g'.eaten_pixels) _ _
            (eliminate_player-IsIn P name p' g' h') (take_pixel-IsIn name p' g' h')))

  start_players-IsIn :
      (names : List Str) (g : GameManager Double)
      → IsIn P g
      → After (IsIn P) (start_players pl names g)
  unfolding start_players
  start_players-IsIn [] g h = h
  start_players-IsIn (name ∷ names) g h =
      After->>= (IsIn P) (IsIn P) (start_player pl name g) _ (start_player-IsIn name g h) (λ g' h'.
        if-elim (After (IsIn P)) (not g'.game_started) (ok g') (start_players pl names g') h'
          (start_players-IsIn names g' h'))

  pub start_game-IsIn : (g : GameManager Double) → IsIn P g → After (IsIn P) (start_game pl g)
  unfolding start_game
  start_game-IsIn g h =
      After->>= (IsIn P) (IsIn P) (emit_new_game_event _) _ (emit_new_game_event-IsIn P _ h)
        (λ g1 h1.
          After->>= (IsIn P) (IsIn P) (start_players pl (keys g1.players) g1) _
            (start_players-IsIn (keys g1.players) g1 h1)
            (λ g2 h2. if-elim (IsIn P) g2.game_started _ g2 h2 h2))

  settle-IsIn :
      (name : Str) (p : Player Double) (g : GameManager Double)
      → IsIn P g
      → After (IsIn P) (settle pl name p g)
  unfolding settle
  settle-IsIn name p g h =
      let x = to_u16 p.coord_x in
      let y = to_u16 p.coord_y in
      let p' = record p { pixel_x = x; pixel_y = y } in
      let out = eliminate_player-IsIn P name p g h in
      let moved =
        if-elim (After (IsIn P)) (leb g.maxx x || leb g.maxy y || is_eaten x y g.eaten_pixels)
          (eliminate_player name p g) (take_pixel pl name p' g) out (take_pixel-IsIn name p' g h) in
      let on_board =
        if-elim (After (IsIn P)) (x == p.pixel_x && y == p.pixel_y)
          (ok (record g { players = assign name p g.players })) _ h moved in
      if-elim (After (IsIn P)) (is_negative p.coord_x || is_negative p.coord_y)
        (eliminate_player name p g) _ out on_board

  run_player-IsIn :
      (name : Str) (g : GameManager Double) → IsIn P g → After (IsIn P) (run_player pl name g)
  unfolding run_player
  run_player-IsIn name g h = After-any (IsIn P) (deref (find name g.players)) _ (λ p.
      After->>= (IsIn P) (IsIn P)
        (if p.is_eliminated || not p.takes_part_in_current_game
          then ok g
          else settle pl name (advance pl g.turning_speed p) g)
        _
        (if-elim (After (IsIn P)) _ (ok g) _ h
          (settle-IsIn name (advance pl g.turning_speed p) g h))
        (λ g' h'.
          After-any (IsIn P) (check (contains name g'.players) undefined_behaviour) _ (λ _. h')))

  run_players-IsIn :
      (names : List Str) (g : GameManager Double)
      → IsIn P g
      → After (IsIn P) (run_players pl names g)
  unfolding run_players
  run_players-IsIn [] g h = h
  run_players-IsIn (name ∷ names) g h = if-elim (After (IsIn P)) (not g.game_started) (ok g) _ h (
      After->>= (IsIn P) (IsIn P) (run_player pl name g) _ (run_player-IsIn name g h)
        (λ g' h'. run_players-IsIn names g' h'))

  pub run_turn-IsIn : (g : GameManager Double) → IsIn P g → After (IsIn P) (run_turn pl g)
  unfolding run_turn
  run_turn-IsIn g h = run_players-IsIn (keys g.players) g h
