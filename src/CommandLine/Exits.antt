-- ===== src/CommandLine/Exits.antt =====
-- How the reading of the parameters can end.
use sik_screenworms.Base.{
  ℕ, ◌^◌, ◌%◌, ◌≤◌, ◌<◌, ◌≡◌, ◌⊎◌, refl, ap, inl, inr, arith, List, [], ◌∷◌, Str, codes, Option,
  none, some, Option-cases, Outcome, ok, fail, Outcome-cases, runtime_error, exit_failure, ◌>>=◌,
  >>=-eq-ok, fail-ne-ok, find, insert_or_assign,
}
use sik_screenworms.Common.Misc.{str_to_u64, optional_param_value_to_uint, rethrow, in_limits}
use sik_screenworms.Config.{ServerConfig, numeric_value, numeric_param, make_server_config}
use sik_screenworms.Config.Limits.{IsChosenFrom, make_server_config_iff}
use sik_screenworms.CommandLine.{
  Returned, option, unrecognised, GetoptRun, read_options, interweave_with_colons,
  parse_cmd_parameters, exit_on_exception, server_config, parse_server_params,
}

-- Nothing but a runtime_error is thrown.
abbrev Throws {ℓ} : {A : Type ℓ} → Outcome A → Type 0
Throws (ok a) = Unit {0}
Throws (fail e) = e ≡ runtime_error

Throws->>= {ℓ κ} :
    {A : Type ℓ} {B : Type κ} (m : Outcome A) (k : A → Outcome B)
    → Throws m
    → ((a : A) → Throws (k a))
    → Throws (m >>= k)
Throws->>= (ok a) k h step = step a
Throws->>= (fail e) k h step = h

rethrow-Throws : (o : Outcome ℕ) → Throws (rethrow o)
unfolding rethrow
rethrow-Throws (ok n) = tt
rethrow-Throws (fail e) = refl

optional_param_value_to_uint-Throws :
    (w min_value max_value : ℕ) (s : Str)
    → Throws (optional_param_value_to_uint w min_value max_value s)
unfolding optional_param_value_to_uint
optional_param_value_to_uint-Throws w min_value max_value s = elim (Outcome-cases (str_to_u64 s)) [
  | inl (n, reads) ↦
      rw (optional_param_value_to_uint, reads) (rethrow-Throws (in_limits w min_value max_value n))
  | inr (e, fails) ↦ rw (optional_param_value_to_uint, fails) refl
]

numeric_param-Throws :
    (w min_value max_value : ℕ) (key : Str) (default_value : ℕ) (params : List (Str × Str))
    → Throws (numeric_param w min_value max_value key default_value params)
unfolding numeric_param numeric_value
numeric_param-Throws w min_value max_value key default_value params =
    elim (Option-cases (find key params)) [
      | inl absent ↦ rw absent tt
      | inr (s, given) ↦ rw given (optional_param_value_to_uint-Throws w min_value max_value s)
    ]

make_server_config-Throws :
    (now : ℕ) (params : List (Str × Str)) → Throws (make_server_config now params)
unfolding make_server_config
make_server_config-Throws now params =
    Throws->>= (numeric_param 16 1 65535 (codes "p") 2021 params) _
      (numeric_param-Throws 16 1 65535 (codes "p") 2021 params)
      (λ p.
        Throws->>= (numeric_param 32 1 4294967295 (codes "s") (now % 2 ^ 32) params) _
          (numeric_param-Throws 32 1 4294967295 (codes "s") (now % 2 ^ 32) params)
          (λ s.
            Throws->>= (numeric_param 8 1 90 (codes "t") 6 params) _
              (numeric_param-Throws 8 1 90 (codes "t") 6 params)
              (λ t.
                Throws->>= (numeric_param 16 1 250 (codes "v") 50 params) _
                  (numeric_param-Throws 16 1 250 (codes "v") 50 params)
                  (λ v.
                    Throws->>= (numeric_param 16 16 4096 (codes "w") 640 params) _
                      (numeric_param-Throws 16 16 4096 (codes "w") 640 params)
                      (λ w.
                        Throws->>= (numeric_param 16 16 4096 (codes "h") 480 params) _
                          (numeric_param-Throws 16 16 4096 (codes "h") 480 params) (λ b. tt))))))

read_options-Throws :
    (returned : List Returned) (params : List (Str × Str)) → Throws (read_options returned params)
unfolding read_options
read_options-Throws [] params = tt
read_options-Throws (option c arg ∷ returned) params =
    read_options-Throws returned (insert_or_assign (c ∷ []) arg params)
read_options-Throws (unrecognised ∷ returned) params = refl

parse_cmd_parameters-Throws :
    (getopt : Str → List Str → GetoptRun) (argv : List Str) (accepted : Str)
    → Throws (parse_cmd_parameters getopt argv accepted)
unfolding parse_cmd_parameters
parse_cmd_parameters-Throws getopt argv accepted =
    let returned = (getopt (interweave_with_colons accepted) argv).returned in
    Throws->>= (read_options returned []) _ (read_options-Throws returned []) (λ params. tt)

server_config-Throws :
    (now : ℕ) (positional : List Str) (params : List (Str × Str))
    → Throws (server_config now positional params)
unfolding server_config
server_config-Throws now [] params = make_server_config-Throws now params
server_config-Throws now (p ∷ positional) params = refl

-- The limits of the protocol, which the default values are within.
pub record IsInLimits (c : ServerConfig) : Type 0 where
  pub port : (1 ≤ c.port) × (c.port ≤ 65535)
  pub turning_speed : (1 ≤ c.turning_speed) × (c.turning_speed ≤ 90)
  pub rounds_per_sec : (1 ≤ c.rounds_per_sec) × (c.rounds_per_sec ≤ 250)
  pub board_width : (16 ≤ c.board_width) × (c.board_width ≤ 4096)
  pub board_height : (16 ≤ c.board_height) × (c.board_height ≤ 4096)
  pub rng_seed : c.rng_seed < 2 ^ 32

chosen :
    (min_value max_value default_value : ℕ) (given : Option Str) (n : ℕ)
    → min_value ≤ default_value
    → default_value ≤ max_value
    → IsChosenFrom min_value max_value default_value given n
    → (min_value ≤ n) × (n ≤ max_value)
chosen min_value max_value default_value none n least most h = (omega (arith, h), omega (arith, h))
chosen min_value max_value default_value (some s) n least most h = (h.at_least, h.at_most)

seed_below :
    (now : ℕ) (given : Option Str) (n : ℕ)
    → IsChosenFrom 1 4294967295 (now % 2 ^ 32) given n
    → n < 2 ^ 32
seed_below now none n h = omega (arith, h)
seed_below now (some s) n h = omega (arith, h.at_most)

config-IsInLimits :
    (now : ℕ) (params : List (Str × Str)) (c : ServerConfig)
    → make_server_config now params ≡ ok c
    → IsInLimits c
config-IsInLimits now params c h =
    let k = (make_server_config_iff now params c).0 h in
    record {
      port =
          chosen 1 65535 2021 (find (codes "p") params) c.port (omega arith) (omega arith) k.port;
      turning_speed =
          chosen 1 90 6 (find (codes "t") params) c.turning_speed (omega arith) (omega arith)
            k.turning_speed;
      rounds_per_sec =
          chosen 1 250 50 (find (codes "v") params) c.rounds_per_sec (omega arith) (omega arith)
            k.rounds_per_sec;
      board_width =
          chosen 16 4096 640 (find (codes "w") params) c.board_width (omega arith) (omega arith)
            k.board_width;
      board_height =
          chosen 16 4096 480 (find (codes "h") params) c.board_height (omega arith) (omega arith)
            k.board_height;
      rng_seed = seed_below now (find (codes "s") params) c.rng_seed k.rng_seed;
    }

server_config-IsInLimits :
    (now : ℕ) (positional : List Str) (params : List (Str × Str)) (c : ServerConfig)
    → server_config now positional params ≡ ok c
    → IsInLimits c
unfolding server_config
server_config-IsInLimits now [] params c h = config-IsInLimits now params c h
server_config-IsInLimits now (p ∷ positional) params c h = absurd (fail-ne-ok h)

caught {ℓ} :
    {A : Type ℓ} (o : Outcome A)
    → Throws o
    → ((a : A) × (o ≡ ok a)) ⊎ (exit_on_exception o ≡ fail exit_failure)
unfolding exit_on_exception
caught (ok a) h = inl (a, refl)
caught (fail e) h = inr (rw h refl)

-- Whatever `getopt` returns and whatever the arguments are, the server's `parseCmdParams` returns a
-- configuration whose values are all within the limits of the protocol, or exits with a failure; no
-- exception leaves it.
pub parse_server_params-IsInLimits :
    (getopt : Str → List Str → GetoptRun) (now : ℕ) (argv : List Str)
    → ((c : ServerConfig) × (parse_server_params getopt now argv ≡ ok c) × IsInLimits c)
      ⊎ (parse_server_params getopt now argv ≡ fail exit_failure)
unfolding parse_server_params exit_on_exception
parse_server_params-IsInLimits getopt now argv =
    let read = parse_cmd_parameters getopt argv (codes "pstvwh") in
    let config : List (Str × Str) × List Str → Outcome ServerConfig =
      λ parsed. server_config now parsed.1 parsed.0 in
    let throws =
      Throws->>= read config (parse_cmd_parameters-Throws getopt argv (codes "pstvwh"))
        (λ parsed. server_config-Throws now parsed.1 parsed.0) in
    elim (caught (read >>= config) throws) [
      | inr exits ↦ inr exits
      | inl (c, goes) ↦
          let (parsed, _, made) = >>=-eq-ok read config goes in
          inl (c, ap exit_on_exception goes, server_config-IsInLimits now parsed.1 parsed.0 c made)
    ]
