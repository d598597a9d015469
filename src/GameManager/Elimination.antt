-- ===== src/GameManager/Elimination.antt =====
-- What `eliminatePlayer` keeps.
use sik_screenworms.Base.{
  ℕ, ◌+◌, ◌%◌, ◌≤◌, ◌≡◌, refl, ◌∙◌, inl, inr, arith, true, false, not, Str, ltb, ok, if◌then◌else◌,
  find, find-assign, ==s_refl, le_sum_values, contains, keys, assign, AllEntries-find,
  AllEntries-assign, sum_values, sum_values-assign, sum_values-le, Bool-cases, keys-assign,
  length-assign, some, find_of_contains, contains-find,
}
use sik_screenworms.Messages.{player_eliminated, in_player_eliminated}
use sik_screenworms.GameManager.State.{Player, GameManager, save_event}
use sik_screenworms.GameManager.Ending.{end_game, eliminate_player}
use sik_screenworms.GameManager.Invariant.{
  in_game, worm, worms, IsConsistent, IsPlaying, GoesOn, has_left,
}
use sik_screenworms.GameManager.Erasing.{
  end_game-GoesOn, end_game-stopped, worms-eliminated, contains-erase_disconnected_players,
}

-- One round of a loop over the players of a game, the round of `name`: the state that it leaves; if
-- the game goes on, the players and those of them who have left are the same ones. If `name` is
-- connected, it is still there.
pub record Round {D : Type 0} (name : Str) (g g' : GameManager D) : Type 0 where
  pub goes_on : GoesOn g'
  pub stays : sum_values has_left g.players ≡ 0 → contains name g'.players ≡ true
  pub players : g'.game_started ≡ true → keys g'.players ≡ keys g.players
  pub left : g'.game_started ≡ true → sum_values has_left g'.players ≡ sum_values has_left g.players

worm-le : {D : Type 0} (p : Player D) → worm p ≤ 1
worm-le p = ground arith

module _ {D : Type 0} (name : Str) (p : Player D) (g : GameManager D) where
  -- The state after the event, before the game may end.
  eliminated : ℕ → GameManager D
  unfolding save_event
  eliminated n =
      save_event player_eliminated (in_player_eliminated (record { player_number = n })) (record g {
        players = assign name (record p { is_eliminated = true }) g.players;
        alive_players = (g.alive_players + 255) % 256;
      })

  eliminate_player_lem :
      (n : ℕ)
      → find p.player_name g.player_number_in_game ≡ some n
      → eliminate_player name p g
        ≡ ok (
            if ltb ((g.alive_players + 255) % 256) 2 then end_game (eliminated n) else eliminated n)
  unfolding eliminate_player eliminated
  eliminate_player_lem n e = rw e

  module _ (q : Player D) (c : IsConsistent g) (s : IsPlaying g) (e : find name g.players ≡ some q)
      (alive : in_game q ≡ true) (own : p.player_name ≡ name) where
    worms-le : worms g.players ≤ 25
    worms-le = omega (arith, sum_values-le worm 1 g.players worm-le, c.few)

    fewer :
        (g.alive_players + 255) % 256
        ≡ worms (assign name (record p { is_eliminated = true }) g.players)
    fewer =
        omega (arith, worms-eliminated name p q g.players e alive, s.counted, s.enough, worms-le)

    eliminated-IsConsistent : (n : ℕ) → IsConsistent (eliminated n)
    unfolding eliminated
    eliminated-IsConsistent n = record {
      keyed = AllEntries-assign _ name _ g.players own c.keyed;
      distinct = rw keys-assign c.distinct;
      few = rw length-assign c.few;
      board = c.board;
    }

    eliminated-IsPlaying :
        (n : ℕ) → ltb ((g.alive_players + 255) % 256) 2 ≡ false → IsPlaying (eliminated n)
    unfolding eliminated
    eliminated-IsPlaying n many = record {
      started = s.started;
      numbered = AllEntries-assign _ name _ g.players (λ h. ground arith) s.numbered;
      counted = fewer;
      enough = ground arith;
    }

    eliminated-keys : (n : ℕ) → keys (eliminated n).players ≡ keys g.players
    unfolding eliminated
    eliminated-keys n = keys-assign name _ g.players

    eliminated-left :
        (n : ℕ)
        → p.is_disconnected ≡ q.is_disconnected
        → sum_values has_left (eliminated n).players ≡ sum_values has_left g.players
    unfolding eliminated
    eliminated-left n same =
        let equal : has_left p ≡ has_left q = rw same in
        omega
          (arith, sum_values-assign has_left name (record p { is_eliminated = true }) q g.players e)

    eliminated-find :
        (n : ℕ) → find name (eliminated n).players ≡ some (record p { is_eliminated = true })
    unfolding eliminated
    eliminated-find n = rw (find-assign, ==s_refl, contains-find name g.players q e)

    end_game-contains :
        (n : ℕ) → contains name (end_game (eliminated n)).players ≡ not p.is_disconnected
    unfolding end_game save_event
    end_game-contains n =
        let c' : IsConsistent (eliminated n) = eliminated-IsConsistent n in
        contains-erase_disconnected_players name (record p { is_eliminated = true }) _
          (record { keyed = c'.keyed; distinct = c'.distinct; few = c'.few; board = c'.board })
          (eliminated-find n)

    number : (n : ℕ) × (find p.player_name g.player_number_in_game ≡ some n)
    number = rw own (
        find_of_contains name g.player_number_in_game
          (AllEntries-find _ name q g.players e s.numbered alive))

    stopped : (n : ℕ) → (end_game (eliminated n)).game_started ≡ true → ⊥
    stopped n on = cc (end_game-stopped (eliminated n) (eliminated-IsConsistent n))

    still_connected :
        p.is_disconnected ≡ q.is_disconnected
        → sum_values has_left g.players ≡ 0
        → not p.is_disconnected ≡ true
    still_connected same none_left = ground (arith, le_sum_values has_left name q g.players e)

    -- In a consistent state of a game that is played, a worm of the board is eliminated, whatever its
    -- entry `p` has become in the turn as long as its name and its connection are the same. This ends
    -- without a fault. Then the state is consistent; the game goes on with its invariant, the same
    -- players and as many disconnected ones, or it has ended. If no player was disconnected, the
    -- eliminated one is still there.
    pub eliminate_player-Round :
        p.is_disconnected ≡ q.is_disconnected
        → (g' : GameManager D) × (eliminate_player name p g ≡ ok g') × Round name g g'
    eliminate_player-Round same =
        let (n, numbered) = number in
        elim (Bool-cases (ltb ((g.alive_players + 255) % 256) 2)) [
          | inl last ↦ (
            end_game (eliminated n),
            eliminate_player_lem n numbered ∙ rw last,
            record {
              goes_on = end_game-GoesOn (eliminated n) (eliminated-IsConsistent n);
              stays = λ none_left. end_game-contains n ∙ still_connected same none_left;
              players = λ on. absurd (stopped n on);
              left = λ on. absurd (stopped n on);
            },
          )
          | inr many ↦ (
            eliminated n,
            eliminate_player_lem n numbered ∙ rw many,
            record {
              goes_on = (eliminated-IsConsistent n, λ _. eliminated-IsPlaying n many);
              stays = λ _. contains-find name (eliminated n).players _ (eliminated-find n);
              players = λ _. eliminated-keys n;
              left = λ _. eliminated-left n same;
            },
          )
        ]

    -- The last but one worm is eliminated, and its client is gone.
    pub eliminate_player-erases :
        g.alive_players ≡ 2
        → p.is_disconnected ≡ true
        → (g' : GameManager D) × (eliminate_player name p g ≡ ok g')
          × (contains name g'.players ≡ false)
    eliminate_player-erases two left =
        let (n, numbered) = number in
        let last : ltb ((g.alive_players + 255) % 256) 2 ≡ true = rw two refl in
        (
          end_game (eliminated n),
          eliminate_player_lem n numbered ∙ rw last,
          end_game-contains n ∙ rw left,
        )
