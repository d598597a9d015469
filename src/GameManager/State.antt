-- ===== src/GameManager/State.antt =====
-- The state of GameManager. Coordinates are doubles, which are a parameter with the operations that
-- the game applies to them.
use sik_screenworms.Base.{ℕ, Bool, true, false, ◌&&◌, List, [], ◌∷◌, Str, ◌==◌, if◌then◌else◌}
use sik_screenworms.Messages.{TurnDirection, EventType, GameEventVariant}
use sik_screenworms.MqManager.{MqManager, Fingerprint, ScheduledEvent, schedule}
use sik_screenworms.MqManager

-- `double` and <cmath>, and what an uninitialised field may hold.
pub record Platform : Type 1 where
  pub Double : Type 0
  -- `n + 0.5`
  pub plus_half : ℕ → Double
  -- `x + cos (d / 180.0 * M_PI)` and `y + sin (d / 180.0 * M_PI)`
  pub add_cos : Double → ℕ → Double
  pub add_sin : Double → ℕ → Double
  -- `x < 0`
  pub is_negative : Double → Bool
  -- `static_cast<uint16_t> (x)`
  pub to_u16 : Double → ℕ
  pub indeterminate : Double
  pub indeterminate_word : ℕ

pub record Watcher : Type 0 where
  pub session_id : ℕ

pub record Player (D : Type 0) : Type 0 where
  pub fingerprint : Fingerprint
  pub player_name : Str
  pub coord_x : D
  pub coord_y : D
  pub session_id : ℕ
  pub pixel_x : ℕ
  pub pixel_y : ℕ
  pub movement_direction : ℕ
  pub turn_direction : TurnDirection
  pub takes_part_in_current_game : Bool
  pub is_disconnected : Bool
  pub is_eliminated : Bool
  pub is_ready_to_play : Bool

-- The calls on the timer of the turns, which are only recorded: what `setIntervalTimer` does, and when
-- it ends the program, is in Common/Time.
pub data TimerCall : Type 0 where
  set_interval : ℕ → TimerCall
  clear : TimerCall

pub record GameManager (D : Type 0) : Type 0 where
  pub game_id : ℕ
  pub game_started : Bool
  pub watchers : List (Fingerprint × Watcher)
  pub players : List (Str × Player D)
  pub player_number_in_game : List (Str × ℕ)
  pub eaten_pixels : List (ℕ × ℕ)
  pub rng : ℕ
  pub maxx : ℕ
  pub maxy : ℕ
  pub turning_speed : ℕ
  pub alive_players : ℕ
  pub turn_interval_ns : ℕ
  pub timer_calls : List TimerCall
  pub mq_manager : MqManager

-- The constructor. `alivePlayers` and the id of the broadcast game are left uninitialised. The timer
-- is taken to be set; where `setIntervalTimer` fails, the program ends here.
unfoldable pub init : (pl : Platform) → ℕ → ℕ → ℕ → ℕ → ℕ → GameManager pl.Double
init pl rng_seed turning_speed maxx maxy turn_interval_ns = record {
  game_id = 0;
  game_started = false;
  watchers = [];
  players = [];
  player_number_in_game = [];
  eaten_pixels = [];
  rng = rng_seed;
  maxx = maxx;
  maxy = maxy;
  turning_speed = turning_speed;
  alive_players = pl.indeterminate_word;
  turn_interval_ns = turn_interval_ns;
  timer_calls = set_interval turn_interval_ns ∷ [];
  mq_manager = MqManager.init pl.indeterminate_word;
}

-- `eatenPixels.find ({x, y}) != eatenPixels.end ()`
unfoldable pub is_eaten : ℕ → ℕ → List (ℕ × ℕ) → Bool
is_eaten x y [] = false
is_eaten x y ((a, b) ∷ pixels) = if a == x && b == y then true else is_eaten x y pixels

-- `eatenPixels.insert ({x, y})`
unfoldable pub eat : ℕ → ℕ → List (ℕ × ℕ) → List (ℕ × ℕ)
eat x y pixels = if is_eaten x y pixels then pixels else (x, y) ∷ pixels

module _ {D : Type 0} where
  unfoldable pub save_event : EventType → GameEventVariant → GameManager D → GameManager D
  save_event t v g = record g {
    mq_manager = schedule g.game_id (record { event_type = t; event_data = v }) g.mq_manager;
  }
