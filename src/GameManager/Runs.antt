-- ===== src/GameManager/Runs.antt =====
-- Runs of GameManager on a board of 10 by 10, where every worm moves to the right.
use sik_screenworms.Base.{
  ℕ, ◌+◌, ◌%◌, ◌≤◌, ◌<◌, ◌≡◌, refl, ◌⊎◌, ◌↔◌, arith, Bool, true, false, not, [], ◌∷◌, Str, length,
  codes, some, ok, fail, undefined_behaviour, ltb, find, contains, AllEntries, mem, ◌==s◌, ==s_refl,
  sum_values, List, All, ◌++◌, find_at, str_lt,
}
use sik_screenworms.Messages.{straight, right, ClientToServerMessage}
use sik_screenworms.Messages.{EventNewGame}
use sik_screenworms.Messages.Players.{
  make_new_game, space_separated, spaces_to_zeros, parsed_players,
}
use sik_screenworms.Common.Misc.{IsPlayerName}
use sik_screenworms.GameManager.Naming.{number_players-parsed_players}
use sik_screenworms.MqManager
use sik_screenworms.GameManager.State.{Platform, Player, GameManager, init}
use sik_screenworms.GameManager.Ending.{eliminate_player, erase_disconnected_players}
use sik_screenworms.GameManager.Turns.{advance, run_player, run_turn, number_players}
use sik_screenworms.GameManager.Handlers.{can_start_game, drop_connection, handle_message}
use sik_screenworms.GameManager.Invariant.{IsConsistent, IsPlaying, GoesOn, has_left}
use sik_screenworms.GameManager.Erasing.{contains-erase_disconnected_players}
use sik_screenworms.GameManager.Elimination.{Round, eliminate_player-Round}
use sik_screenworms.GameManager.TurnSafety.{run_turn-GoesOn, run_player_erased}
use sik_screenworms.GameManager.Joining.{can_start_game_iff}
use sik_screenworms.GameManager.Dropped.{handle_message-drop_connection}

-- Coordinates are whole numbers, and 1000 or more stands for what lies beyond the left edge.
abbrev grid : Platform
grid = record {
  Double = ℕ;
  plus_half = λ n. n;
  add_cos = λ x d. x + 1;
  add_sin = λ y d. y;
  is_negative = λ x. ltb 999 x;
  to_u16 = λ x. x % 65536;
  indeterminate = 0;
  indeterminate_word = 0;
}

abbrev worm_at : Str → ℕ → ℕ → Bool → Player ℕ
worm_at name x y gone = record {
  fingerprint = name;
  player_name = name;
  coord_x = x;
  coord_y = y;
  session_id = 1;
  pixel_x = x;
  pixel_y = y;
  movement_direction = 0;
  turn_direction = straight;
  takes_part_in_current_game = true;
  is_disconnected = gone;
  is_eliminated = false;
  is_ready_to_play = true;
}

abbrev ann : Str
ann = codes "ann"

abbrev ben : Str
ben = codes "ben"

-- Two worms; the client of the second one may be gone, and its worm is anywhere.
abbrev board : ℕ → Bool → GameManager ℕ
board x gone = record (init grid 1 5 10 10 20) {
  game_id = 7;
  game_started = true;
  players = (ann, worm_at ann 2 3 false) ∷ (ben, worm_at ben x 5 gone) ∷ [];
  player_number_in_game = (ann, 0) ∷ (ben, 1) ∷ [];
  alive_players = 2;
}

board-IsConsistent : (x : ℕ) (gone : Bool) → IsConsistent (board x gone)
unfolding init mem ◌==s◌
board-IsConsistent x gone = record {
  keyed = (refl, (refl, tt));
  distinct = (refl, (refl, tt));
  few = omega arith;
  board = tt;
}

board-IsPlaying : (x : ℕ) (gone : Bool) → IsPlaying (board x gone)
unfolding init contains ◌==s◌ sum_values
board-IsPlaying x gone = record {
  started = refl;
  numbered = (λ _. refl, (λ _. refl, tt));
  counted = refl;
  enough = omega arith;
}

run_turn_example :
    ((run_turn grid (board 4 false) ≡ fail undefined_behaviour)
      × (0 < sum_values has_left (board 4 false).players))
    ⊎ (g' : GameManager ℕ) × (run_turn grid (board 4 false) ≡ ok g') × GoesOn g'
run_turn_example =
    run_turn-GoesOn grid (board 4 false) (board-IsConsistent 4 false) (board-IsPlaying 4 false)

ben_found : find ben (board 1000 true).players ≡ some (worm_at ben 1000 5 true)
unfolding init find ◌==s◌
ben_found = refl

ben_out :
    grid.is_negative
      (advance grid (board 1000 true).turning_speed (worm_at ben 1000 5 true)).coord_x
    ≡ true
unfolding advance
ben_out = refl

run_player_erased_example : run_player grid ben (board 1000 true) ≡ fail undefined_behaviour
run_player_erased_example =
    run_player_erased grid ben (worm_at ben 1000 5 true) (board 1000 true)
      (board-IsConsistent 1000 true) (board-IsPlaying 1000 true) ben_found refl refl refl ben_out

eliminate_player_example :
    (g' : GameManager ℕ) × (eliminate_player ben (worm_at ben 1000 5 true) (board 1000 true)
      ≡ ok g')
    × Round ben (board 1000 true) g'
eliminate_player_example =
    eliminate_player-Round ben (worm_at ben 1000 5 true) (board 1000 true) (worm_at ben 1000 5 true)
      (board-IsConsistent 1000 true) (board-IsPlaying 1000 true) ben_found refl refl refl

erase_disconnected_players_example :
    contains ben (erase_disconnected_players (board 1000 true)).players ≡ not true
erase_disconnected_players_example =
    contains-erase_disconnected_players ben (worm_at ben 1000 5 true) (board 1000 true)
      (board-IsConsistent 1000 true) ben_found

can_start_game_example :
    (can_start_game (board 4 false) ≡ true)
    ↔ (2 ≤ length (board 4 false).players)
      × AllEntries (λ name p. p.is_ready_to_play ≡ true) (board 4 false).players
can_start_game_example = can_start_game_iff (board 4 false)

abbrev game : EventNewGame
game = record { maxx = 20; maxy = 30; players = ann ++ 0 ∷ (ben ++ 0 ∷ []) }

game_made : make_new_game 20 30 (ann ∷ ben ∷ []) ≡ ok game
unfolding make_new_game space_separated spaces_to_zeros
game_made = refl

two_names-IsPlayerName : All IsPlayerName (ann ∷ ben ∷ [])
two_names-IsPlayerName = (
  record { fits = omega arith; printable = ground arith },
  (record { fits = omega arith; printable = ground arith }, tt),
)

number_players_example :
    (numbered : List (ℕ × Str)) × (parsed_players game ≡ ok numbered)
    × (find ben (number_players (ann ∷ ben ∷ []) []) ≡ some 1)
    × (find_at 1 numbered ≡ some ben)
unfolding str_lt
number_players_example =
    number_players-parsed_players 20 30 (ann ∷ ben ∷ []) game 1 ben two_names-IsPlayerName
      (omega arith, (omega arith, tt)) (refl, tt) (omega arith) game_made refl

abbrev hello : ClientToServerMessage
hello = record {
  session_id = 1;
  turn_direction = right;
  next_expected_event_no = 3;
  player_name = ben;
}

-- Both clients have a queue.
abbrev served : GameManager ℕ
served = record (board 4 false) {
  mq_manager = record (board 4 false).mq_manager {
    queues = (ann, 0) ∷ (ben, 0) ∷ [];
    clients_to_serve_schedule = ann ∷ ben ∷ [];
  };
}

ben_found_served : find ben served.players ≡ some (worm_at ben 4 5 false)
unfolding init find ◌==s◌
ben_found_served = refl

handle_message_dropped_example :
    (contains ben (drop_connection ben served).players ≡ true)
    × (handle_message grid ben hello (drop_connection ben served) ≡ fail undefined_behaviour)
unfolding init contains MqManager.init
handle_message_dropped_example =
    handle_message-drop_connection grid ben hello (worm_at ben 4 5 false) served refl
      ben_found_served (==s_refl ben) refl refl refl
