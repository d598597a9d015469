-- ===== src/Messages/Numbering.antt =====
-- The numbers that `parsedPlayers` gives to the names, and the names' lookup for the user interface.
use sik_screenworms.Base.{
  ℕ, zero, suc, ◌+◌, ◌%◌, ◌≤◌, ◌<◌, ◌≡◌, refl, ◌∙◌, subst, inl, inr, arith, true, false, ◌&&◌, List,
  [], ◌∷◌, ◌++◌, Str, length, all, ltb, ◌==◌, Bool-cases, some, ok, >>=-eq-ok, ok-injective, check,
  encoder_decoder_error, find_at, contains_at, insert_at, find_at_of_contains,
}
use sik_screenworms.Common.Misc.{is_valid_player_name}
use sik_screenworms.Messages.{EventNewGame}
use sik_screenworms.Messages.Players.{
  zeros_to_spaces, words, sort, unique, same_elements, number_names, parsed_players,
}
use sik_screenworms.Messages.Gui.{list_names}

-- The keys are the numbers below the length, which fit in `uint8_t`.
unfoldable pub IsNumbered : List (ℕ × Str) → Type 0
IsNumbered names = (length names ≤ 256) × ((i : ℕ) → contains_at i names ≡ ltb i (length names))

entered_new :
    (k : ℕ) (name : Str) (names : List (ℕ × Str))
    → contains_at k names ≡ false
    → insert_at k name names ≡ (k, name) ∷ names
unfolding insert_at
entered_new k name names h = rw h refl

entered_old :
    (k : ℕ) (name : Str) (names : List (ℕ × Str))
    → contains_at k names ≡ true
    → insert_at k name names ≡ names
unfolding insert_at
entered_old k name names h = rw h refl

entered_keys :
    (i : ℕ) (name : Str) (names : List (ℕ × Str))
    → contains_at i names ≡ ltb i (length names)
    → contains_at i ((length names, name) ∷ names) ≡ ltb i (length ((length names, name) ∷ names))
unfolding contains_at
entered_keys i name names keys = rw keys (ground arith)

next_number-IsNumbered :
    (name : Str) (names : List (ℕ × Str))
    → IsNumbered names
    → IsNumbered (insert_at (length names % 256) name names)
unfolding IsNumbered
next_number-IsNumbered name names (le, keys) = elim (Bool-cases (ltb (length names) 256)) [
  | inl room ↦
      let key : length names % 256 ≡ length names = ground arith in
      let fresh : contains_at (length names) names ≡ false = ground (arith, keys (length names)) in
      let entered : insert_at (length names % 256) name names ≡ (length names, name) ∷ names =
        rw key (entered_new (length names) name names fresh) in
      rw entered (ground arith, λ i. entered_keys i name names (keys i))
  | inr no_room ↦
      let key : length names % 256 ≡ 0 = ground arith in
      let there : contains_at 0 names ≡ true = ground (arith, keys 0) in
      rw (key, entered_old 0 name names there) (le, keys)
]

number_names-IsNumbered :
    (rest : List Str) (names : List (ℕ × Str))
    → IsNumbered names
    → IsNumbered (number_names rest names)
unfolding number_names
number_names-IsNumbered [] names h = h
number_names-IsNumbered (name ∷ rest) names h =
    number_names-IsNumbered rest (insert_at (length names % 256) name names)
      (next_number-IsNumbered name names h)

none-IsNumbered : IsNumbered []
unfolding IsNumbered contains_at
none-IsNumbered = (omega arith, λ i. ground arith)

-- Whatever the bytes are, the names that `parsedPlayers` returns have the numbers from 0 on, below
-- 256, with none left out.
pub parsed_players-IsNumbered :
    (e : EventNewGame) (names : List (ℕ × Str)) → parsed_players e ≡ ok names → IsNumbered names
unfolding parsed_players
parsed_players-IsNumbered e names h =
    let (text, _, h1) = >>=-eq-ok (zeros_to_spaces e.players) _ h in
    let (_, _, h2) =
      >>=-eq-ok (check (all is_valid_player_name (words [] text)) encoder_decoder_error) _ h1 in
    let sorted = unique (sort (words [] text)) in
    let (_, _, h3) =
      >>=-eq-ok
        (check (length sorted == length (words [] text) && same_elements sorted (words [] text))
          encoder_decoder_error)
        _ h2 in
    subst IsNumbered (ok-injective h3) (number_names-IsNumbered (words [] text) [] none-IsNumbered)

pub find_at_of_number :
    (i : ℕ) (names : List (ℕ × Str))
    → IsNumbered names
    → i < length names
    → (name : Str) × (find_at i names ≡ some name)
unfolding IsNumbered
find_at_of_number i names (le, keys) below = find_at_of_contains i names (keys i ∙ ground arith)

-- Every name is found.
pub list_names-ok :
    (n i : ℕ) (names : List (ℕ × Str))
    → IsNumbered names
    → i + n ≤ length names
    → (text : Str) × (list_names n i names ≡ ok text)
unfolding list_names
list_names-ok zero i names h le = ([], refl)
list_names-ok (suc n) i names h le =
    let (name, found) = find_at_of_number i names h (omega arith) in
    let (more, rest) = list_names-ok n (i + 1) names h (omega arith) in
    (b' ' ∷ (name ++ more), rw (found, list_names, rest) refl)
