-- ===== src/CommandLine.antt =====
-- common/getopt_wrapper.cpp, and `parseCmdParams` of the two programs' main.cpp. `getopt` is a
-- parameter: from the option string and the arguments, what its calls return one after another, the
-- order in which it leaves the arguments, and `optind` at the end.
pub mod Options
pub mod Exits
mod Runs
use sik_screenworms.Base.{
  ℕ, Bool, true, false, List, [], ◌∷◌, Str, codes, drop, length, ltb, if◌then◌else◌, Outcome, ok,
  fail, Fault, encoder_decoder_error, crc32_mismatch_error, runtime_error, out_of_range,
  exit_failure, undefined_behaviour, out_of_fuel, ◌>>=◌, insert_or_assign,
}
use sik_screenworms.Config.{ServerConfig, ClientConfig, make_server_config, make_client_config}

-- A call of `getopt`: an option with its argument, or '?'.
pub data Returned : Type 0 where
  option : ℕ → Str → Returned
  unrecognised : Returned

pub record GetoptRun : Type 0 where
  pub returned : List Returned
  pub argv : List Str
  pub optind : ℕ

-- `interweaveWithColons`
unfoldable pub interweave_with_colons : Str → Str
interweave_with_colons [] = []
interweave_with_colons (c ∷ s) = c ∷ b':' ∷ interweave_with_colons s

-- The loop over `getopt`.
unfoldable pub read_options : List Returned → List (Str × Str) → Outcome (List (Str × Str))
read_options [] params = ok params
read_options (option c arg ∷ returned) params =
    read_options returned (insert_or_assign (c ∷ []) arg params)
read_options (unrecognised ∷ returned) params = fail runtime_error

-- `parseCmdParameters`, with the map and the vector that the callers give it, which are empty.
unfoldable pub parse_cmd_parameters :
    (Str → List Str → GetoptRun) → List Str → Str → Outcome (List (Str × Str) × List Str)
unfolding interweave_with_colons read_options
parse_cmd_parameters getopt argv accepted =
    let run = getopt (interweave_with_colons accepted) argv in
    read_options run.returned [] >>= λ params. ok (params, drop run.optind run.argv)

-- `catch (const std::exception &e)`
unfoldable pub exit_on_exception {ℓ} : {A : Type ℓ} → Outcome A → Outcome A
exit_on_exception (ok a) = ok a
exit_on_exception (fail encoder_decoder_error) = fail exit_failure
exit_on_exception (fail crc32_mismatch_error) = fail exit_failure
exit_on_exception (fail runtime_error) = fail exit_failure
exit_on_exception (fail out_of_range) = fail exit_failure
exit_on_exception (fail exit_failure) = fail exit_failure
exit_on_exception (fail undefined_behaviour) = fail undefined_behaviour
exit_on_exception (fail out_of_fuel) = fail out_of_fuel

unfoldable pub server_config : ℕ → List Str → List (Str × Str) → Outcome ServerConfig
server_config now [] params = make_server_config now params
server_config now (p ∷ positional) params = fail runtime_error

unfoldable pub client_config : List Str → List (Str × Str) → Outcome ClientConfig
client_config [] params = fail runtime_error
client_config (server ∷ []) params = make_client_config server params
client_config (server ∷ p ∷ positional) params = fail runtime_error

-- `parseCmdParams` of the server, at the time `now`.
unfoldable pub parse_server_params :
    (Str → List Str → GetoptRun) → ℕ → List Str → Outcome ServerConfig
unfolding parse_cmd_parameters exit_on_exception server_config
parse_server_params getopt now argv = exit_on_exception (
    parse_cmd_parameters getopt argv (codes "pstvwh") >>= λ parsed.
    server_config now parsed.1 parsed.0)

-- `parseCmdParams` of the client.
unfoldable pub parse_client_params : (Str → List Str → GetoptRun) → List Str → Outcome ClientConfig
unfolding parse_cmd_parameters exit_on_exception client_config
parse_client_params getopt argv =
    exit_on_exception (
      parse_cmd_parameters getopt argv (codes "npir") >>= λ parsed. client_config parsed.1 parsed.0)
