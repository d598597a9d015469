-- ===== src/GameManager/Turns.antt =====
-- `startGame` and `runTurn`.
use sik_screenworms.Base.{
  ℕ, ◌+◌, ◌-◌, ◌%◌, ◌^◌, true, false, not, ◌&&◌, ◌||◌, List, [], ◌∷◌, ◌++◌, Str, length, leb, ◌==◌,
  if◌then◌else◌, Outcome, ok, fail, undefined_behaviour, ◌>>=◌, ◌>>◌, check, deref, find, contains,
  insert, assign, keys,
}
use sik_screenworms.Common.Rng.{generate_next}
use sik_screenworms.Messages.{TurnDirection, straight, right, left}
use sik_screenworms.GameManager.State.{
  Platform, Player, GameManager, set_interval, clear, is_eaten, eat,
}
use sik_screenworms.GameManager.Ending.{emit_new_game_event, emit_pixel_event, eliminate_player}

-- `a % b`
unfoldable pub remainder : ℕ → ℕ → Outcome ℕ
remainder a b = if b == 0 then fail undefined_behaviour else ok (a % b)

-- `playerNumberInGame.insert ({name, playerNumberInGame.size ()})` for each name; the numbers are
-- of type `uint8_t`.
unfoldable pub number_players : List Str → List (Str × ℕ) → List (Str × ℕ)
number_players [] numbers = numbers
number_players (name ∷ names) numbers =
    number_players names (insert name (length numbers % 256) numbers)

-- A turn by `turningSpeed` degrees. The sums are of type `int`.
unfoldable pub turn : TurnDirection → ℕ → ℕ → ℕ
turn straight speed direction = direction
turn right speed direction = (direction + speed) % 360 % 2 ^ 16
turn left speed direction = (direction + 360 - speed) % 360 % 2 ^ 16

module _ (pl : Platform) where
  open pl use {Double, plus_half, add_cos, add_sin, is_negative, to_u16}

  -- A player's place and direction, from three numbers of the generator.
  unfoldable pub place_player :
      Player Double → GameManager Double → Outcome (Player Double × GameManager Double)
  place_player p g = do
    let (rx, rng1) = generate_next g.rng
    cx ← remainder rx g.maxx
    let (ry, rng2) = generate_next rng1
    cy ← remainder ry g.maxy
    let (rd, rng3) = generate_next rng2
    ok (
      record p {
        takes_part_in_current_game = true;
        is_eliminated = false;
        coord_x = plus_half cx;
        coord_y = plus_half cy;
        movement_direction = rd % 360 % 2 ^ 16;
        pixel_x = to_u16 (plus_half cx);
        pixel_y = to_u16 (plus_half cy);
      },
      record g { rng = rng3 },
    )

  -- The player of `name` moves to a pixel that is free, or is eliminated.
  unfoldable pub take_pixel :
      Str → Player Double → GameManager Double → Outcome (GameManager Double)
  take_pixel name p g = emit_pixel_event p (record g {
    players = assign name p g.players;
    eaten_pixels = eat p.pixel_x p.pixel_y g.eaten_pixels;
  })

  unfoldable pub start_player : Str → GameManager Double → Outcome (GameManager Double)
  unfolding place_player take_pixel
  start_player name g = do
    p ← deref (find name g.players)
    (p', g') ← place_player p g
    if is_eaten p'.pixel_x p'.pixel_y g'.eaten_pixels
        then eliminate_player name p' g'
        else take_pixel name p' g'

  -- The loop over the players; it is left when the game has ended.
  unfoldable pub start_players : List Str → GameManager Double → Outcome (GameManager Double)
  start_players [] g = ok g
  start_players (name ∷ names) g = start_player name g >>= λ g'.
      let rest = start_players names g' in if not g'.game_started then ok g' else rest

  unfoldable pub start_game : GameManager Double → Outcome (GameManager Double)
  unfolding start_players number_players
  start_game g = do
    let (game_id, rng) = generate_next g.rng
    g1 ← emit_new_game_event (record g {
      game_id = game_id;
      rng = rng;
      game_started = true;
      alive_players = length g.players % 256;
      eaten_pixels = [];
      player_number_in_game = number_players (keys g.players) [];
    })
    g2 ← start_players (keys g1.players) g1
    ok (
        if g2.game_started
        then record g2 {
          timer_calls = g2.timer_calls ++ set_interval g2.turn_interval_ns ∷ clear ∷ [];
        }
        else g2)

  -- The player turns and moves by one; the pixel is what it was.
  unfoldable pub advance : ℕ → Player Double → Player Double
  unfolding turn
  advance speed p =
      let direction = turn p.turn_direction speed p.movement_direction in
      record p {
        movement_direction = direction;
        coord_x = add_cos p.coord_x direction;
        coord_y = add_sin p.coord_y direction;
      }

  -- The body of the loop, once the player has moved.
  unfoldable pub settle : Str → Player Double → GameManager Double → Outcome (GameManager Double)
  unfolding take_pixel
  settle name p g =
      let x = to_u16 p.coord_x in
      let y = to_u16 p.coord_y in
      if is_negative p.coord_x || is_negative p.coord_y
      then eliminate_player name p g
      else if x == p.pixel_x && y == p.pixel_y
      then ok (record g { players = assign name p g.players })
      else if leb g.maxx x || leb g.maxy y || is_eaten x y g.eaten_pixels
      then eliminate_player name p g
      else take_pixel name (record p { pixel_x = x; pixel_y = y }) g

  -- One round of the loop. Where the entry that the iterator is at has been erased, the step to the
  -- next one is undefined.
  unfoldable pub run_player : Str → GameManager Double → Outcome (GameManager Double)
  unfolding advance settle
  run_player name g = do
    p ← deref (find name g.players)
    g' ←
        (if p.is_eliminated || not p.takes_part_in_current_game
          then ok g
          else settle name (advance g.turning_speed p) g)
    check (contains name g'.players) undefined_behaviour
    ok g'

  unfoldable pub run_players : List Str → GameManager Double → Outcome (GameManager Double)
  run_players [] g = ok g
  run_players (name ∷ names) g =
      if not g.game_started then ok g else (run_player name g >>= λ g'. run_players names g')

  unfoldable pub run_turn : GameManager Double → Outcome (GameManager Double)
  unfolding run_players
  run_turn g = run_players (keys g.players) g
