-- ===== src/GameManager/Joining.antt =====
-- The lobby and the start of a game: when it starts, the numbers of the players, and the turns.
use sik_screenworms.Base.{
  ℕ, zero, suc, ◌+◌, ◌%◌, ◌≤◌, ◌<◌, ◌≡◌, refl, ap, subst, inl, inr, ◌∙◌, arith, true, false, List,
  [], ◌∷◌, Str, length, ◌==s◌, ==s_iff, ==s_refl, if◌then◌else◌, ◌↔◌, some, get_elem?, find,
  contains, insert, mem, IsNodup, AllEntries, Bool-cases, find-place, length-place, contains-insert,
}
use sik_screenworms.Messages.{right, left}
use sik_screenworms.GameManager.State.{Player, GameManager}
use sik_screenworms.GameManager.Turns.{number_players, turn}
use sik_screenworms.GameManager.Handlers.{count_ready, can_start_game}

module _ {D : Type 0} where
  count_ready-le : (players : List (Str × Player D)) → count_ready players ≤ length players
  unfolding count_ready
  count_ready-le [] = omega arith
  count_ready-le ((name, p) ∷ players) = ground (arith, count_ready-le players)

  count_ready_iff :
      (players : List (Str × Player D))
      → (count_ready players ≡ length players)
        ↔ AllEntries (λ name p. p.is_ready_to_play ≡ true) players
  unfolding count_ready
  count_ready_iff [] = (λ _. tt, λ _. refl)
  count_ready_iff ((name, p) ∷ players) = elim (Bool-cases p.is_ready_to_play) [
    | inl ready ↦ (
      λ all. (ready, (count_ready_iff players).0 (ground arith)),
      λ all. rw ready (ap suc ((count_ready_iff players).1 all.1)),
    )
    | inr idle ↦ (λ all. ground (arith, count_ready-le players), λ all. ground arith)
  ]

  -- `canStartGame` holds exactly when there are at least two players and all of them are ready.
  pub can_start_game_iff :
      (g : GameManager D)
      → (can_start_game g ≡ true)
        ↔ ((2 ≤ length g.players) × AllEntries (λ name p. p.is_ready_to_play ≡ true) g.players)
  unfolding can_start_game
  can_start_game_iff g = (
    λ can. (ground arith, (count_ready_iff g.players).0 (ground arith)),
    λ (many, all). ground (arith, (count_ready_iff g.players).1 all),
  )

-- For a speed of at most 360 and a direction below 360, a turn to either side leads to a direction
-- below 360, and a turn to the other side leads back.
turn_back :
    (speed direction : ℕ)
    → speed ≤ 360
    → direction < 360
    → (turn right speed direction < 360)
      × (turn left speed direction < 360)
      × (turn left speed (turn right speed direction) ≡ direction)
      × (turn right speed (turn left speed direction) ≡ direction)
unfolding turn
turn_back speed direction hs hd = (omega arith, omega arith, omega arith, omega arith)

insert-fresh :
    (k : Str) (v : ℕ) (m : List (Str × ℕ))
    → contains k m ≡ false
    → ((j : Str) → find j (insert k v m) ≡ (if k ==s j then some v else find j m))
      × (length (insert k v m) ≡ length m + 1)
unfolding insert
insert-fresh k v m fresh = rw fresh ((λ j. find-place k j v m fresh), length-place k v m)

-- The names that are still to be numbered have no number.
abbrev AreFresh : List Str → List (Str × ℕ) → Type 0
AreFresh names numbers = (k : Str) → mem k names ≡ true → contains k numbers ≡ false

insert-AreFresh :
    (first : Str) (v : ℕ) (names : List Str) (numbers : List (Str × ℕ))
    → mem first names ≡ false
    → AreFresh (first ∷ names) numbers
    → AreFresh names (insert first v numbers)
unfolding mem
insert-AreFresh first v names numbers here fresh k known =
    ground (arith, contains-insert first k v numbers, fresh k, ==s_iff first k)

number_players-absent :
    (names : List Str) (numbers : List (Str × ℕ))
    → IsNodup names
    → AreFresh names numbers
    → (name : Str) → mem name names ≡ false
    → find name (number_players names numbers) ≡ find name numbers
unfolding number_players mem
number_players-absent [] numbers n fresh name h = refl
number_players-absent (first ∷ names) numbers (here, n) fresh name h =
    let n0 = length numbers % 256 in
    let (find_new, _) =
      insert-fresh first n0 numbers (fresh first (ground (arith, ==s_refl first))) in
    number_players-absent names _ n (insert-AreFresh first n0 names numbers here fresh) name
      (ground arith)
    ∙ ground (arith, find_new name)

number_players-find :
    (names : List Str) (numbers : List (Str × ℕ))
    → IsNodup names
    → AreFresh names numbers
    → length names + length numbers ≤ 256
    → (i : ℕ) (name : Str) → get_elem? names i ≡ some name
    → find name (number_players names numbers) ≡ some (i + length numbers)
unfolding number_players mem
number_players-find [] numbers n fresh few i name h = cc
number_players-find (first ∷ names) numbers (here, n) fresh few zero name h =
    let n0 = length numbers % 256 in
    let (find_new, _) =
      insert-fresh first n0 numbers (fresh first (ground (arith, ==s_refl first))) in
    let same : first ≡ name = cc in
    let small : length numbers % 256 ≡ length numbers = omega (arith, few) in
    number_players-absent names _ n (insert-AreFresh first n0 names numbers here fresh) name
      (subst (λ x. mem x names ≡ false) same here)
    ∙ find_new name
    ∙ rw (← same, ==s_refl, small) (ap some (omega arith))
number_players-find (first ∷ names) numbers (here, n) fresh few (suc j) name h =
    let n0 = length numbers % 256 in
    let (_, longer) =
      insert-fresh first n0 numbers (fresh first (ground (arith, ==s_refl first))) in
    number_players-find names (insert first n0 numbers) n
      (insert-AreFresh first n0 names numbers here fresh) (omega (arith, longer, few)) j name h
    ∙ ap some (omega (arith, longer))

-- When at most 256 different names are numbered, the number of each is its place in the list, from 0
-- on.
pub number_players-get_elem? :
    (names : List Str)
    → IsNodup names
    → length names ≤ 256
    → (i : ℕ) (name : Str) → get_elem? names i ≡ some name
    → find name (number_players names []) ≡ some i
unfolding contains
number_players-get_elem? names n few i name h =
    number_players-find names [] n (λ k known. refl) (omega (arith, few)) i name h
    ∙ ap some (omega arith)
