-- ===== src/Config/Runs.antt =====
-- A run of the server's parameters.
use sik_screenworms.Base.{◌≡◌, ◌↔◌, List, [], ◌∷◌, Str, codes, ok}
use sik_screenworms.Config.{ServerConfig, make_server_config}
use sik_screenworms.Config.Limits.{IsServerConfig, make_server_config_iff}

abbrev small_board : List (Str × Str)
small_board = (codes "w", codes "20") ∷ (codes "h", codes "016") ∷ []

abbrev small_config : ServerConfig
small_config = record {
  port = 2021;
  rng_seed = 5;
  turning_speed = 6;
  rounds_per_sec = 50;
  board_width = 20;
  board_height = 16;
}

make_server_config_example :
    (make_server_config 5 small_board ≡ ok small_config) ↔ IsServerConfig 5 small_board small_config
make_server_config_example = make_server_config_iff 5 small_board small_config
