-- ===== src/Config/Limits.antt =====
-- What a configuration that is accepted holds.
use sik_screenworms.Base.{
  ℕ, ◌%◌, ◌^◌, ◌≤◌, ◌<◌, ◌≡◌, refl, sym, ap, subst, ◌↔◌, arith, true, List, Str, codes, Option,
  none, some, find, ok, >>=-eq-ok, ok-injective,
}
use sik_screenworms.Common.Misc.{optional_param_iff, is_non_negative_number, decimal_value}
use sik_screenworms.Config.{ServerConfig, numeric_value, numeric_param, make_server_config}

-- The value `n` of a parameter: the default one if it is not given, else the number that is given,
-- within the limits.
pub record IsGiven (min_value max_value : ℕ) (s : Str) (n : ℕ) : Type 0 where
  pub digits : is_non_negative_number s ≡ true
  pub value : n ≡ decimal_value 0 s
  pub at_least : min_value ≤ n
  pub at_most : n ≤ max_value

abbrev pub IsChosenFrom : ℕ → ℕ → ℕ → Option Str → ℕ → Type 0
IsChosenFrom min_value max_value default_value none n = n ≡ default_value
IsChosenFrom min_value max_value default_value (some s) n = IsGiven min_value max_value s n

abbrev pub IsChosen : ℕ → ℕ → Str → ℕ → List (Str × Str) → ℕ → Type 0
IsChosen min_value max_value key default_value params =
    IsChosenFrom min_value max_value default_value (find key params)

module _ (w min_value max_value : ℕ) (fits : max_value < 2 ^ w) (narrow : w ≤ 64) where
  numeric_value_iff :
      (default_value : ℕ) (given : Option Str) (n : ℕ)
      → (numeric_value w min_value max_value default_value given ≡ ok n)
        ↔ IsChosenFrom min_value max_value default_value given n
  unfolding numeric_value
  numeric_value_iff default_value none n = ((λ h. sym (ok-injective h)), λ h. ap ok (sym h))
  numeric_value_iff default_value (some s) n =
      let (there, back) = optional_param_iff w min_value max_value fits s n narrow in
      (
        (λ h.
            let (d, v, l, u) = there h in
            record { digits = d; value = v; at_least = l; at_most = u }),
        λ g. back (g.digits, g.value, g.at_least, g.at_most),
      )

  numeric_param_iff :
      (key : Str) (default_value : ℕ) (params : List (Str × Str)) (n : ℕ)
      → (numeric_param w min_value max_value key default_value params ≡ ok n)
        ↔ IsChosen min_value max_value key default_value params n
  unfolding numeric_param
  numeric_param_iff key default_value params n = numeric_value_iff default_value (find key params) n

-- What ServerConfig promises.
pub record IsServerConfig (now : ℕ) (params : List (Str × Str)) (c : ServerConfig) : Type 0 where
  pub port : IsChosen 1 65535 (codes "p") 2021 params c.port
  pub rng_seed : IsChosen 1 4294967295 (codes "s") (now % 2 ^ 32) params c.rng_seed
  pub turning_speed : IsChosen 1 90 (codes "t") 6 params c.turning_speed
  pub rounds_per_sec : IsChosen 1 250 (codes "v") 50 params c.rounds_per_sec
  pub board_width : IsChosen 16 4096 (codes "w") 640 params c.board_width
  pub board_height : IsChosen 16 4096 (codes "h") 480 params c.board_height

make_server_config_sound :
    (now : ℕ) (params : List (Str × Str)) (c : ServerConfig)
    → make_server_config now params ≡ ok c
    → IsServerConfig now params c
unfolding make_server_config
make_server_config_sound now params c h =
    let (p, hp, h1) = >>=-eq-ok (numeric_param 16 1 65535 (codes "p") 2021 params) _ h in
    let (s, hs, h2) =
      >>=-eq-ok (numeric_param 32 1 4294967295 (codes "s") (now % 2 ^ 32) params) _ h1 in
    let (t, ht, h3) = >>=-eq-ok (numeric_param 8 1 90 (codes "t") 6 params) _ h2 in
    let (v, hv, h4) = >>=-eq-ok (numeric_param 16 1 250 (codes "v") 50 params) _ h3 in
    let (w, hw, h5) = >>=-eq-ok (numeric_param 16 16 4096 (codes "w") 640 params) _ h4 in
    let (b, hb, h6) = >>=-eq-ok (numeric_param 16 16 4096 (codes "h") 480 params) _ h5 in
    subst (IsServerConfig now params) (ok-injective h6) (record {
      port = (numeric_param_iff 16 1 65535 (omega arith) (omega arith) _ _ params p).0 hp;
      rng_seed = (numeric_param_iff 32 1 4294967295 (omega arith) (omega arith) _ _ params s).0 hs;
      turning_speed = (numeric_param_iff 8 1 90 (omega arith) (omega arith) _ _ params t).0 ht;
      rounds_per_sec = (numeric_param_iff 16 1 250 (omega arith) (omega arith) _ _ params v).0 hv;
      board_width = (numeric_param_iff 16 16 4096 (omega arith) (omega arith) _ _ params w).0 hw;
      board_height = (numeric_param_iff 16 16 4096 (omega arith) (omega arith) _ _ params b).0 hb;
    })

make_server_config_complete :
    (now : ℕ) (params : List (Str × Str)) (c : ServerConfig)
    → IsServerConfig now params c
    → make_server_config now params ≡ ok c
unfolding make_server_config
make_server_config_complete now params c k =
    rw
      (
        (numeric_param_iff 16 1 65535 (omega arith) (omega arith) (codes "p") 2021 params c.port).1
            k.port,
        (numeric_param_iff 32 1 4294967295 (omega arith) (omega arith) (codes "s") (now % 2 ^ 32)
              params c.rng_seed).1
            k.rng_seed,
        (numeric_param_iff 8 1 90 (omega arith) (omega arith) (codes "t") 6 params
              c.turning_speed).1
            k.turning_speed,
        (numeric_param_iff 16 1 250 (omega arith) (omega arith) (codes "v") 50 params
              c.rounds_per_sec).1
            k.rounds_per_sec,
        (numeric_param_iff 16 16 4096 (omega arith) (omega arith) (codes "w") 640 params
              c.board_width).1
            k.board_width,
        (numeric_param_iff 16 16 4096 (omega arith) (omega arith) (codes "h") 480 params
              c.board_height).1
            k.board_height,
      )
      refl

-- ServerConfig accepts its parameters exactly with a configuration in which every field is the
-- default one where its parameter is not given, and else the number that is given, which has only
-- decimal digits and lies within the limits of that parameter.
pub make_server_config_iff :
    (now : ℕ) (params : List (Str × Str)) (c : ServerConfig)
    → (make_server_config now params ≡ ok c) ↔ IsServerConfig now params c
make_server_config_iff now params c =
    (make_server_config_sound now params c, make_server_config_complete now params c)
