-- ===== src/Messages/Players.antt =====
-- The player names of a NEW_GAME event: EventNewGame's constructor from a list of names, and
-- `parsedPlayers`, which takes the list apart again.
use sik_screenworms.Base.{
  ℕ, ◌*◌, ◌%◌, Bool, true, false, ◌&&◌, ◌||◌, List, [], ◌∷◌, ◌++◌, Str, length, all, leb, ◌==◌,
  ◌==s◌, str_lt, if◌then◌else◌, Outcome, ok, fail, check, ◌>>◌, ◌>>=◌, undefined_behaviour,
  encoder_decoder_error, insert_at,
}
use sik_screenworms.Common.Misc.{is_valid_player_name}
use sik_screenworms.Messages.{EventNewGame, max_players}

-- Each name with a space behind it.
unfoldable pub space_separated : List Str → Str
space_separated [] = []
space_separated (name ∷ names) = name ++ b' ' ∷ space_separated names

-- Each space becomes a zero.
unfoldable pub spaces_to_zeros : Str → List ℕ
spaces_to_zeros [] = []
spaces_to_zeros (c ∷ s) = (if c == b' ' then 0 else c) ∷ spaces_to_zeros s

-- EventNewGame (maxx, maxy, playerNames). `players` has room for 525 bytes.
unfoldable pub make_new_game : ℕ → ℕ → List Str → Outcome EventNewGame
unfolding space_separated spaces_to_zeros
make_new_game maxx maxy names = do
  check (leb (length (space_separated names)) (max_players * 21)) undefined_behaviour
  ok (record { maxx = maxx; maxy = maxy; players = spaces_to_zeros (space_separated names) })

-- The first loop of `parsedPlayers`: the zeros become spaces, and there is no space before.
unfoldable pub zeros_to_spaces : List ℕ → Outcome Str
zeros_to_spaces [] = ok []
zeros_to_spaces (c ∷ p) =
    let rest = zeros_to_spaces p in
    if c == b' '
    then fail encoder_decoder_error
    else (rest >>= λ s. ok ((if c == 0 then b' ' else c) ∷ s))

-- `std::isspace` in the "C" locale.
unfoldable pub is_space : ℕ → Bool
is_space c = c == b' ' || (leb 9 c && leb c 13)

unfoldable pub is_nil_str : Str → Bool
is_nil_str [] = true
is_nil_str (c ∷ s) = false

-- `while (ss >> name)`: the words that white space separates. `word` is what the current word has
-- so far.
unfoldable pub words : Str → Str → List Str
unfolding is_nil_str
words word [] = if is_nil_str word then [] else word ∷ []
words word (c ∷ s) =
    let next = words [] s in
    let more = words (word ++ c ∷ []) s in
    if is_space c then (if is_nil_str word then next else word ∷ next) else more

-- `playerNames.insert ({playerNames.size (), name})`; the keys are of type `uint8_t`.
unfoldable pub number_names : List Str → List (ℕ × Str) → List (ℕ × Str)
number_names [] names = names
number_names (name ∷ rest) names = number_names rest (insert_at (length names % 256) name names)

-- `std::sort`, by insertion.
unfoldable pub insert_sorted : Str → List Str → List Str
insert_sorted x [] = x ∷ []
insert_sorted x (y ∷ ys) = if str_lt y x then y ∷ insert_sorted x ys else x ∷ y ∷ ys

unfoldable pub sort : List Str → List Str
unfolding insert_sorted
sort [] = []
sort (x ∷ xs) = insert_sorted x (sort xs)

-- `std::unique` with the `erase` behind it. `x` is the element before.
unfoldable pub unique_from : Str → List Str → List Str
unique_from x [] = x ∷ []
unique_from x (y ∷ ys) =
    let skipped = unique_from x ys in
    let kept = unique_from y ys in if x ==s y then skipped else x ∷ kept

unfoldable pub unique : List Str → List Str
unfolding unique_from
unique [] = []
unique (x ∷ xs) = unique_from x xs

-- The comparison of the elements, one by one.
unfoldable pub same_elements : List Str → List Str → Bool
same_elements [] ys = true
same_elements (x ∷ xs) [] = true
same_elements (x ∷ xs) (y ∷ ys) = x ==s y && same_elements xs ys

-- EventNewGame::parsedPlayers
unfoldable pub parsed_players : EventNewGame → Outcome (List (ℕ × Str))
unfolding zeros_to_spaces words number_names sort unique same_elements
parsed_players e = do
  text ← zeros_to_spaces e.players
  let names = words [] text
  check (all is_valid_player_name names) encoder_decoder_error
  let sorted = unique (sort names)
  check (length sorted == length names && same_elements sorted names) encoder_decoder_error
  ok (number_names names [])
