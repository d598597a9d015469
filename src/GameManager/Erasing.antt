-- ===== src/GameManager/Erasing.antt =====
-- What `endGame` and `eraseDisconnectedPlayers` keep, and who is left.
use sik_screenworms.Base.{
  ◌+◌, ◌≡◌, refl, ap, ◌∙◌, inl, inr, arith, true, false, not, List, [], ◌∷◌, Str, ◌==s◌, ==s_iff,
  mem, mem-keys, if◌then◌else◌, find, contains, keys, erase, assign, IsNodup, AllEntries-erase,
  AllEntries-map_values, sum_values-assign, Bool-cases, keys-map_values, keys-erase-IsNodup,
  length-erase-le, length-map_values, some, contains-find, contains-erase, contains-map_values,
}
use sik_screenworms.MqManager.{Fingerprint, drop_queue}
use sik_screenworms.GameManager.State.{Player, GameManager, save_event}
use sik_screenworms.GameManager.Ending.{
  disconnected, erase_players, not_ready, erase_disconnected_players, emit_game_over, end_game,
}
use sik_screenworms.GameManager.Invariant.{in_game, worm, worms, IsConsistent, GoesOn}

module _ {D : Type 0} where
  erase_players-IsConsistent :
      (names : List (Str × Fingerprint)) (g : GameManager D)
      → IsConsistent g
      → IsConsistent (erase_players names g)
        × ((erase_players names g).game_started ≡ g.game_started)
  unfolding erase_players
  erase_players-IsConsistent [] g c = (c, refl)
  erase_players-IsConsistent ((name, f) ∷ names) g c = erase_players-IsConsistent names _ (record {
    keyed = AllEntries-erase _ name g.players c.keyed;
    distinct = keys-erase-IsNodup name g.players c.distinct;
    few = omega (arith, length-erase-le name g.players, c.few);
    board = c.board;
  })

  pub erase_disconnected_players-IsConsistent :
      (g : GameManager D)
      → IsConsistent g
      → IsConsistent (erase_disconnected_players g)
        × ((erase_disconnected_players g).game_started ≡ g.game_started)
  unfolding erase_disconnected_players
  erase_disconnected_players-IsConsistent g c =
      erase_players-IsConsistent (disconnected g.players) _ (record {
        keyed = AllEntries-map_values _ not_ready g.players (λ k v e. e) c.keyed;
        distinct = rw keys-map_values c.distinct;
        few = omega (arith, length-map_values not_ready g.players, c.few);
        board = c.board;
      })

  pub end_game-GoesOn : (g : GameManager D) → IsConsistent g → GoesOn (end_game g)
  unfolding end_game save_event
  end_game-GoesOn g c =
      let (c', s) =
        erase_disconnected_players-IsConsistent (record (emit_game_over g) { game_started = false })
          (record { keyed = c.keyed; distinct = c.distinct; few = c.few; board = c.board }) in
      (c', λ started. cc)

  pub end_game-stopped : (g : GameManager D) → IsConsistent g → (end_game g).game_started ≡ false
  unfolding end_game save_event
  end_game-stopped g c =
      (erase_disconnected_players-IsConsistent (record (emit_game_over g) { game_started = false })
        (record { keyed = c.keyed; distinct = c.distinct; few = c.few; board = c.board })).1

  -- One worm fewer.
  pub worms-eliminated :
      (name : Str) (p q : Player D) (players : List (Str × Player D))
      → find name players ≡ some q
      → in_game q ≡ true
      → worms (assign name (record p { is_eliminated = true }) players) + 1 ≡ worms players
  worms-eliminated name p q players e alive =
      let gone : worm (record p { is_eliminated = true }) ≡ 0 = ground arith in
      let here : worm q ≡ 1 = rw alive in
      omega (arith, sum_values-assign worm name (record p { is_eliminated = true }) q players e)

  contains-erase_players :
      (name : Str) (names : List (Str × Fingerprint)) (g : GameManager D)
      → contains name (erase_players names g).players
        ≡ (if mem name (keys names) then false else contains name g.players)
  unfolding erase_players mem
  contains-erase_players name [] g = refl
  contains-erase_players name ((other, f) ∷ names) g = ground (
    arith,
    contains-erase_players name names
        (record g { players = erase other g.players; mq_manager = drop_queue f g.mq_manager }),
    contains-erase other name g.players,
  )

  absent-disconnected :
      (name : Str) (players : List (Str × Player D))
      → contains name players ≡ false
      → mem name (keys (disconnected players)) ≡ false
  unfolding disconnected mem contains
  absent-disconnected name [] h = refl
  absent-disconnected name ((other, p) ∷ players) h =
      ground (arith, absent-disconnected name players)

  mem-disconnected :
      (name : Str) (q : Player D) (players : List (Str × Player D))
      → IsNodup (keys players)
      → find name players ≡ some q
      → mem name (keys (disconnected players)) ≡ q.is_disconnected
  unfolding disconnected mem find
  mem-disconnected name q [] n e = cc
  mem-disconnected name q ((other, p) ∷ players) (here, n) e = elim (Bool-cases (other ==s name)) [
    | inl same ↦
        let found : some p ≡ some q = rw same at e in
        let equal : p ≡ q = cc in
        ground (
          arith,
          ap (λ (r : Player D). r.is_disconnected) equal,
          (==s_iff other name).0 same,
          absent-disconnected name players,
          mem-keys other players,
          mem-keys name players,
        )
    | inr differ ↦
        let later : mem name (keys (disconnected players)) ≡ q.is_disconnected =
          mem-disconnected name q players n (rw differ at e) in
        ground arith
  ]

  -- In a consistent state, a player is still there after `eraseDisconnectedPlayers` exactly when it
  -- is not marked as disconnected.
  pub contains-erase_disconnected_players :
      (name : Str) (q : Player D) (g : GameManager D)
      → IsConsistent g
      → find name g.players ≡ some q
      → contains name (erase_disconnected_players g).players ≡ not q.is_disconnected
  unfolding erase_disconnected_players
  contains-erase_disconnected_players name q g c e =
      let known : contains name g.players ≡ true = contains-find name g.players q e in
      contains-erase_players name (disconnected g.players) _
      ∙ ground (
        arith,
        contains-map_values not_ready name g.players,
        mem-disconnected name q g.players c.distinct e,
      )
