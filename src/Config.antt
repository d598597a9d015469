-- ===== src/Config.antt =====
-- The parameters of the two programs: server_src/server_config.cpp and client_src/client_config.cpp.
-- The map of the parameters has a letter for its keys, here a string of one byte.
pub mod Limits
mod Runs
use sik_screenworms.Base.{
  ℕ, ◌%◌, ◌^◌, ◌≤◌, ◌<◌, ◌≡◌, refl, List, Str, codes, Option, none, some, find, Outcome, ok, fail,
  runtime_error, ◌>>=◌, ◌>>◌, check,
}
use sik_screenworms.Common.Misc.{optional_param_value_to_uint, is_valid_player_name}

pub record ServerConfig : Type 0 where
  pub port : ℕ
  pub rng_seed : ℕ
  pub turning_speed : ℕ
  pub rounds_per_sec : ℕ
  pub board_width : ℕ
  pub board_height : ℕ

pub record ClientConfig : Type 0 where
  pub player_name : Str
  pub server_port : ℕ
  pub gui_server : Str
  pub gui_port : ℕ
  pub game_server : Str

-- `if ((it = params.find (key)) != params.end ()) field = optionalParamValueToUint<…> (it)`
unfoldable pub numeric_value : ℕ → ℕ → ℕ → ℕ → Option Str → Outcome ℕ
numeric_value w min_value max_value default_value none = ok default_value
numeric_value w min_value max_value default_value (some s) =
    optional_param_value_to_uint w min_value max_value s

unfoldable pub numeric_param : ℕ → ℕ → ℕ → Str → ℕ → List (Str × Str) → Outcome ℕ
unfolding numeric_value
numeric_param w min_value max_value key default_value params =
    numeric_value w min_value max_value default_value (find key params)

-- ServerConfig (params), at the time `now`.
unfoldable pub make_server_config : ℕ → List (Str × Str) → Outcome ServerConfig
make_server_config now params = do
  port ← numeric_param 16 1 65535 (codes "p") 2021 params
  rng_seed ← numeric_param 32 1 4294967295 (codes "s") (now % 2 ^ 32) params
  turning_speed ← numeric_param 8 1 90 (codes "t") 6 params
  rounds_per_sec ← numeric_param 16 1 250 (codes "v") 50 params
  board_width ← numeric_param 16 16 4096 (codes "w") 640 params
  board_height ← numeric_param 16 16 4096 (codes "h") 480 params
  ok (record {
    port = port;
    rng_seed = rng_seed;
    turning_speed = turning_speed;
    rounds_per_sec = rounds_per_sec;
    board_width = board_width;
    board_height = board_height;
  })

unfoldable pub text_param : Str → Str → List (Str × Str) → Str
text_param key default_value params = elim (find key params) [ none ↦ default_value | some s ↦ s ]

-- ClientConfig (server, params)
unfoldable pub make_client_config : Str → List (Str × Str) → Outcome ClientConfig
unfolding text_param
make_client_config server params = do
  server_port ← numeric_param 16 1024 65535 (codes "p") 2021 params
  gui_port ← numeric_param 16 1024 65535 (codes "r") 20210 params
  check (is_valid_player_name (text_param (codes "n") (codes "") params)) runtime_error
  ok (record {
    player_name = text_param (codes "n") (codes "") params;
    server_port = server_port;
    gui_server = text_param (codes "i") (codes "localhost") params;
    gui_port = gui_port;
    game_server = server;
  })
