-- ===== src/GameManager/Invariant.antt =====
-- What holds of the state between two calls, and what holds besides while a game is played.
use sik_screenworms.Base.{
  ℕ, ◌≤◌, ◌<◌, ◌≡◌, inl, inr, Bool, true, false, not, ◌&&◌, List, [], ◌∷◌, Str, length,
  if◌then◌else◌, contains, keys, IsNodup, AllEntries, sum_values, Bool-cases,
}
use sik_screenworms.GameManager.State.{Player, GameManager, is_eaten, eat}

module _ {D : Type 0} where
  -- A worm on the board.
  abbrev pub in_game : Player D → Bool
  in_game p = p.takes_part_in_current_game && not p.is_eliminated

  abbrev pub worm : Player D → ℕ
  worm p = if in_game p then 1 else 0

  -- The worms that are left.
  abbrev pub worms : List (Str × Player D) → ℕ
  worms = sum_values worm

-- The pixels differ, and lie on the board.
abbrev pub AreEaten : ℕ → ℕ → List (ℕ × ℕ) → Type 0
AreEaten maxx maxy [] = Unit {0}
AreEaten maxx maxy ((x, y) ∷ pixels) =
    (x < maxx) × (y < maxy) × (is_eaten x y pixels ≡ false) × AreEaten maxx maxy pixels

module _ {D : Type 0} where
  pub record IsConsistent (g : GameManager D) : Type 0 where
    pub keyed : AllEntries (λ name p. p.player_name ≡ name) g.players
    pub distinct : IsNodup (keys g.players)
    pub few : length g.players ≤ 25
    pub board : AreEaten g.maxx g.maxy g.eaten_pixels

  -- Each worm has a number, the counter counts the worms, and there are two at least.
  pub record IsPlaying (g : GameManager D) : Type 0 where
    pub started : g.game_started ≡ true
    pub numbered :
        AllEntries
          (λ name p. in_game p ≡ true → contains name g.player_number_in_game ≡ true)
          g.players
    pub counted : g.alive_players ≡ worms g.players
    pub enough : 2 ≤ g.alive_players

  -- After a step of a game: it goes on, or it has ended.
  abbrev pub GoesOn : GameManager D → Type 0
  GoesOn g = IsConsistent g × (g.game_started ≡ true → IsPlaying g)

  -- A player whose client is gone.
  abbrev pub has_left : Player D → ℕ
  has_left p = if p.is_disconnected then 1 else 0

pub eat-AreEaten :
    (maxx maxy x y : ℕ) (pixels : List (ℕ × ℕ))
    → x < maxx
    → y < maxy
    → AreEaten maxx maxy pixels
    → AreEaten maxx maxy (eat x y pixels)
unfolding eat
eat-AreEaten maxx maxy x y pixels hx hy h = elim (Bool-cases (is_eaten x y pixels)) [
  | inl old ↦ rw old h
  | inr new ↦ rw new (hx, hy, new, h)
]
