-- ===== src/Messages/Parsing.antt =====
-- `parsedPlayers` on the names that EventNewGame's constructor has packed.
use mathlib.Core.List.{append_assoc, append-nil}
use sik_screenworms.Base.{
  ℕ, suc, ◌+◌, ◌*◌, ◌%◌, ◌≤◌, ◌<◌, ◌≡◌, refl, ap, ◌∙◌, subst, inl, inr, arith, true, false, List,
  [], ◌∷◌, ◌++◌, Str, length, all, All, leb, ◌==◌, ◌==s◌, ==s_refl, str_lt, str_lt_asym, str_lt_ne,
  IsAscending, if◌then◌else◌, ok, insert_at, find_at, Bool-cases, ok-injective, fail-ne-ok, Option,
  none, some, get_elem?, contains_at, ◌-◌, ltb,
}
use sik_screenworms.Common.Misc.{
  is_valid_player_name, is_valid_player_name_iff, IsPlayerName, IsNameChar,
}
use sik_screenworms.Messages.{EventNewGame, max_players}
use sik_screenworms.Messages.Players.{
  space_separated, spaces_to_zeros, make_new_game, zeros_to_spaces, is_space, is_nil_str, words,
  number_names, insert_sorted, sort, unique_from, unique, same_elements, parsed_players,
}

-- A name that can be packed: it has a character, and no space.
abbrev pub IsPackable : Str → Type 0
IsPackable name = (0 < length name) × All IsNameChar name

zeros_to_spaces-append :
    (xs ys : Str) (t : Str)
    → All IsNameChar xs
    → zeros_to_spaces ys ≡ ok t
    → zeros_to_spaces (spaces_to_zeros xs ++ ys) ≡ ok (xs ++ t)
unfolding zeros_to_spaces spaces_to_zeros
zeros_to_spaces-append [] ys t h e = e
zeros_to_spaces-append (x ∷ xs) ys t (hx, h) e = ground (arith, zeros_to_spaces-append xs ys t)

spaces_to_zeros-append :
    (xs ys : Str) → spaces_to_zeros (xs ++ ys) ≡ spaces_to_zeros xs ++ spaces_to_zeros ys
unfolding spaces_to_zeros
spaces_to_zeros-append [] ys = refl
spaces_to_zeros-append (x ∷ xs) ys =
    ap (◌∷◌ (if x == b' ' then 0 else x)) (spaces_to_zeros-append xs ys)

empty : zeros_to_spaces (spaces_to_zeros []) ≡ ok []
unfolding zeros_to_spaces spaces_to_zeros
empty = refl

after_name :
    (s t : Str)
    → zeros_to_spaces (spaces_to_zeros s) ≡ ok t
    → zeros_to_spaces (spaces_to_zeros (b' ' ∷ s)) ≡ ok (b' ' ∷ t)
unfolding zeros_to_spaces spaces_to_zeros
after_name s t e = rw e refl

-- The separators are put back.
zeros_to_spaces-packed :
    (names : List Str)
    → All IsPackable names
    → zeros_to_spaces (spaces_to_zeros (space_separated names)) ≡ ok (space_separated names)
unfolding space_separated
zeros_to_spaces-packed [] h = empty
zeros_to_spaces-packed (name ∷ names) ((long, chars), h) =
    rw spaces_to_zeros-append
      (zeros_to_spaces-append name _ _ chars (after_name _ _ (zeros_to_spaces-packed names h)))

words_in_word :
    (x : ℕ) (word s : Str) → IsNameChar x → words word (x ∷ s) ≡ words (word ++ x ∷ []) s
unfolding words is_space
words_in_word x word s h = ground arith

words_after : (word s : Str) → 0 < length word → words word (b' ' ∷ s) ≡ word ∷ words [] s
unfolding words is_space is_nil_str
words_after [] s h = absurd (omega arith)
words_after (c ∷ word) s h = refl

words-append : (xs word s : Str) → All IsNameChar xs → words word (xs ++ s) ≡ words (word ++ xs) s
words-append [] word s h = rw append-nil refl
words-append (x ∷ xs) word s (hx, h) =
    words_in_word x word (xs ++ s) hx
    ∙ words-append xs (word ++ x ∷ []) s h
    ∙ ap (λ w. words w s) (append_assoc word (x ∷ []) xs)

no_words : words [] (space_separated []) ≡ []
unfolding words is_nil_str space_separated
no_words = refl

words-space_separated :
    (names : List Str) → All IsPackable names → words [] (space_separated names) ≡ names
unfolding space_separated
words-space_separated [] h = no_words
words-space_separated (name ∷ names) ((long, chars), h) =
    words-append name [] (b' ' ∷ space_separated names) chars
    ∙ words_after name (space_separated names) long
    ∙ ap (◌∷◌ name) (words-space_separated names h)

insert_first :
    (x y : Str) (ys : List Str) → str_lt y x ≡ false → insert_sorted x (y ∷ ys) ≡ x ∷ y ∷ ys
unfolding insert_sorted
insert_first x y ys h = rw h refl

-- Sorted already.
sort-IsAscending : (names : List Str) → IsAscending names → sort names ≡ names
unfolding sort insert_sorted
sort-IsAscending [] h = refl
sort-IsAscending (x ∷ []) h = refl
sort-IsAscending (x ∷ y ∷ ys) (lt, h) =
    let rest : sort (y ∷ ys) ≡ y ∷ ys = sort-IsAscending (y ∷ ys) h in
    ap (insert_sorted x) rest ∙ insert_first x y ys (str_lt_asym x y lt)

unique-IsAscending :
    (x : Str) (names : List Str) → IsAscending (x ∷ names) → unique_from x names ≡ x ∷ names
unfolding unique_from
unique-IsAscending x [] h = refl
unique-IsAscending x (y ∷ ys) (lt, h) =
    let differ : (x ==s y) ≡ false = str_lt_ne x y lt in
    rw (differ, unique_from) (ap (◌∷◌ x) (unique-IsAscending y ys h))

same_elements_refl : (names : List Str) → same_elements names names ≡ true
unfolding same_elements
same_elements_refl [] = refl
same_elements_refl (x ∷ xs) = ground (arith, ==s_refl x, same_elements_refl xs)

unique_same : (names : List Str) → IsAscending names → unique names ≡ names
unfolding unique
unique_same [] h = refl
unique_same (x ∷ xs) h = unique-IsAscending x xs h

contains_at-none : (i : ℕ) (m : List (ℕ × Str)) → find_at i m ≡ none → contains_at i m ≡ false
unfolding find_at contains_at
contains_at-none i [] h = refl
contains_at-none i ((j, v) ∷ m) h = ground (arith, contains_at-none i m)

number_one :
    (k : ℕ) (name : Str) (numbered : List (ℕ × Str))
    → length numbered ≡ k
    → k < 256
    → find_at k numbered ≡ none
    → insert_at (length numbered % 256) name numbered ≡ (k, name) ∷ numbered
unfolding insert_at
number_one k name numbered size few free =
    let number : length numbered % 256 ≡ k = omega arith in
    let new : contains_at k numbered ≡ false = contains_at-none k numbered free in
    rw (number, new) refl

find_at-cons :
    (j k : ℕ) (v : Str) (m : List (ℕ × Str))
    → find_at j ((k, v) ∷ m) ≡ (if k == j then some v else find_at j m)
unfolding find_at
find_at-cons j k v m = refl

get_elem?-cons :
    (x : Str) (xs : List Str) (n m : ℕ) → n ≡ suc m → get_elem? (x ∷ xs) n ≡ get_elem? xs m
get_elem?-cons x xs n m e = rw e refl

next_number :
    (name : Str) (names : List Str) (numbered : List (ℕ × Str)) (k j : ℕ)
    → (if ltb j (suc k) then find_at j ((k, name) ∷ numbered) else get_elem? names (j - suc k))
      ≡ (if ltb j k then find_at j numbered else get_elem? (name ∷ names) (j - k))
unfolding find_at
next_number name names numbered k j = elim (Bool-cases (ltb j k)) [
  | inl before ↦
      let within : ltb j (suc k) ≡ true = ground arith in
      let other : (k == j) ≡ false = ground arith in rw (before, within, other) refl
  | inr not_before ↦ elim (Bool-cases (ltb j (suc k))) [
    | inl now ↦
        let same : (k == j) ≡ true = ground arith in
        let first : j - k ≡ 0 = ground arith in rw (not_before, now, same, first) refl
    | inr after ↦
        let later : j - k ≡ suc (j - suc k) = ground arith in rw (not_before, after, later) refl
  ]
]

-- The names get the numbers from `k` on, in the order of the list.
number_names-find_at :
    (names : List Str) (numbered : List (ℕ × Str)) (k j : ℕ)
    → length numbered ≡ k
    → k + length names ≤ 256
    → ((i : ℕ) → k ≤ i → find_at i numbered ≡ none)
    → find_at j (number_names names numbered)
      ≡ (if ltb j k then find_at j numbered else get_elem? names (j - k))
unfolding number_names
number_names-find_at [] numbered k j size few free = ground (arith, free j)
number_names-find_at (name ∷ names) numbered k j size few free =
    let more : List (ℕ × Str) = (k, name) ∷ numbered in
    let added : insert_at (length numbered % 256) name numbered ≡ more =
      number_one k name numbered size (omega arith) (free k (omega arith)) in
    ap (λ m. find_at j (number_names names m)) added
    ∙ number_names-find_at names more (suc k) j (omega arith) (omega arith)
        (λ i above. find_at-cons i k name numbered ∙ ground (arith, free i))
    ∙ next_number name names numbered k j

nothing_at : (i : ℕ) → ◌≡◌ {A = Option Str} (find_at i []) none
unfolding find_at
nothing_at i = refl

from_start :
    (names : List Str) (i : ℕ)
    → (if ltb i 0 then find_at i [] else get_elem? names (i - 0)) ≡ get_elem? names i
from_start names i =
    let over : ltb i 0 ≡ false = ground arith in
    let same : i - 0 ≡ i = omega arith in rw (over, same) refl

accepted :
    (e : EventNewGame) (text : Str) (names : List Str)
    → zeros_to_spaces e.players ≡ ok text
    → words [] text ≡ names
    → all is_valid_player_name names ≡ true
    → IsAscending names
    → parsed_players e ≡ ok (number_names names [])
unfolding parsed_players
accepted e text names et ew valid sorted =
    let same : unique (sort names) ≡ names =
      ap unique (sort-IsAscending names sorted) ∙ unique_same names sorted in
    let size : (length names == length names) ≡ true = ground arith in
    rw (et, ew, valid, same, size, same_elements_refl) refl

all_valid : (names : List Str) → All IsPlayerName names → all is_valid_player_name names ≡ true
all_valid [] h = refl
all_valid (name ∷ names) (h, hs) =
    ground (arith, (is_valid_player_name_iff name).1 h, all_valid names hs)

packable :
    (names : List Str)
    → All IsPlayerName names
    → All (λ name. 0 < length name) names
    → All IsPackable names
packable [] h l = tt
packable (name ∷ names) (h, hs) (l, ls) = ((l, h.printable), packable names hs ls)

packed-players :
    (maxx maxy : ℕ) (names : List Str) (e : EventNewGame)
    → make_new_game maxx maxy names ≡ ok e
    → spaces_to_zeros (space_separated names) ≡ e.players
unfolding make_new_game
packed-players maxx maxy names e made =
    elim (Bool-cases (leb (length (space_separated names)) (max_players * 21))) [
      | inl fits ↦ ap (λ (x : EventNewGame). x.players) (ok-injective (rw fits at made))
      | inr over ↦ absurd (fail-ne-ok (rw over at made))
    ]

-- A NEW_GAME event that is made of at most 256 non-empty names, valid and in ascending order, and
-- that fits its buffer, is taken apart again into these names, each under its place in the list.
pub parsed_players-make_new_game :
    (maxx maxy : ℕ) (names : List Str) (e : EventNewGame)
    → All IsPlayerName names
    → All (λ name. 0 < length name) names
    → IsAscending names
    → length names ≤ 256
    → make_new_game maxx maxy names ≡ ok e
    → (numbered : List (ℕ × Str)) × (parsed_players e ≡ ok numbered)
      × ((i : ℕ) → find_at i numbered ≡ get_elem? names i)
parsed_players-make_new_game maxx maxy names e valid long sorted few made =
    let h : All IsPackable names = packable names valid long in
    let players : spaces_to_zeros (space_separated names) ≡ e.players =
      packed-players maxx maxy names e made in
    (
      number_names names [],
      accepted e (space_separated names) names
          (subst (λ p. zeros_to_spaces p ≡ ok (space_separated names)) players
            (zeros_to_spaces-packed names h))
          (words-space_separated names h) (all_valid names valid) sorted,
      λ i.
          number_names-find_at names [] 0 i refl (omega (arith, few)) (λ _ _. nothing_at _)
          ∙ from_start names i,
    )
