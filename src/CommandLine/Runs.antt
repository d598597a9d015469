-- ===== src/CommandLine/Runs.antt =====
-- Runs of the command lines: `-p 2000 -v 1 -p 3000`.
use sik_screenworms.Base.{
  ℕ, ◌≡◌, ◌⊎◌, refl, List, [], ◌∷◌, Str, codes, drop, none, ok, fail, exit_failure, find,
}
use sik_screenworms.Config.{ServerConfig}
use sik_screenworms.CommandLine.{
  option, GetoptRun, interweave_with_colons, parse_cmd_parameters, parse_server_params,
}
use sik_screenworms.CommandLine.Options.{is_recognised, last_value, parse_cmd_parameters-last_value}
use sik_screenworms.CommandLine.Exits.{IsInLimits, parse_server_params-IsInLimits}

abbrev arguments : List Str
arguments =
    codes "server"
    ∷ codes "-p"
    ∷ codes "2000"
    ∷ codes "-v"
    ∷ codes "1"
    ∷ codes "-p"
    ∷ codes "3000"
    ∷ []

abbrev getopt : Str → List Str → GetoptRun
getopt accepted argv = record {
  returned = option b'p' (codes "2000") ∷ option b'v' (codes "1") ∷ option b'p' (codes "3000") ∷ [];
  argv = argv;
  optind = 7;
}

parse_cmd_parameters_example :
    (params : List (Str × Str)) × (parse_cmd_parameters getopt arguments (codes "pstvwh")
      ≡ ok (params, drop 7 arguments))
    × ((k : ℕ)
        → find (k ∷ []) params
          ≡ last_value k none (getopt (interweave_with_colons (codes "pstvwh")) arguments).returned)
unfolding is_recognised
parse_cmd_parameters_example =
    parse_cmd_parameters-last_value getopt arguments (codes "pstvwh") refl

parse_server_params_example :
    ((c : ServerConfig) × (parse_server_params getopt 77 arguments ≡ ok c) × IsInLimits c)
    ⊎ (parse_server_params getopt 77 arguments ≡ fail exit_failure)
parse_server_params_example = parse_server_params-IsInLimits getopt 77 arguments
