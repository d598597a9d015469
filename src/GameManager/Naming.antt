-- ===== src/GameManager/Naming.antt =====
-- The server's numbers for the players and the names that a client makes of a NEW_GAME event.
use sik_screenworms.Base.{
  ℕ, ◌≤◌, ◌<◌, ◌≡◌, refl, ◌∙◌, arith, true, false, List, [], ◌∷◌, Str, length, get_elem?, All, some,
  ok, find, find_at, IsNodup, IsAscending, mem, str_lt, str_lt_ne, str_lt_trans, ==s_iff,
}
use sik_screenworms.Common.Misc.{IsPlayerName}
use sik_screenworms.Messages.{EventNewGame}
use sik_screenworms.Messages.Players.{make_new_game, parsed_players}
use sik_screenworms.Messages.Parsing.{parsed_players-make_new_game}
use sik_screenworms.GameManager.Turns.{number_players}
use sik_screenworms.GameManager.Joining.{number_players-get_elem?}

smaller_not_mem :
    (x : Str) (ys : List Str) (y : Str)
    → str_lt x y ≡ true
    → IsAscending (y ∷ ys)
    → mem x (y ∷ ys) ≡ false
unfolding mem
smaller_not_mem x [] y less sorted = ground (arith, str_lt_ne x y less, ==s_iff x y, ==s_iff y x)
smaller_not_mem x (z ∷ ys) y less (next, sorted) =
    let rest = smaller_not_mem x ys z (str_lt_trans x y z less next) sorted in
    ground (arith, str_lt_ne x y less, ==s_iff x y, ==s_iff y x, rest)

ascending-IsNodup : (names : List Str) → IsAscending names → IsNodup names
unfolding mem
ascending-IsNodup [] sorted = tt
ascending-IsNodup (x ∷ []) sorted = (refl, tt)
ascending-IsNodup (x ∷ y ∷ ys) (less, sorted) =
    (smaller_not_mem x ys y less sorted, ascending-IsNodup (y ∷ ys) sorted)

-- For at most 256 non-empty names, valid and in ascending order, that fit the buffer of a NEW_GAME
-- event: `startGame` gives each name the number that is its place in the list, and under this number
-- the client finds the name in what `parsedPlayers` makes of the event.
pub number_players-parsed_players :
    (maxx maxy : ℕ) (names : List Str) (e : EventNewGame) (i : ℕ) (name : Str)
    → All IsPlayerName names
    → All (λ n. 0 < length n) names
    → IsAscending names
    → length names ≤ 256
    → make_new_game maxx maxy names ≡ ok e
    → get_elem? names i ≡ some name
    → (numbered : List (ℕ × Str)) × (parsed_players e ≡ ok numbered)
      × (find name (number_players names []) ≡ some i)
      × (find_at i numbered ≡ some name)
number_players-parsed_players maxx maxy names e i name valid long sorted few made place =
    let (numbered, parsed, at) =
      parsed_players-make_new_game maxx maxy names e valid long sorted few made in
    (
      numbered,
      parsed,
      number_players-get_elem? names (ascending-IsNodup names sorted) few i name place,
      at i ∙ place,
    )
