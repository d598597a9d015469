-- ===== src/GameManager/TurnSafety.antt =====
-- `runTurn`, and the rounds of its loop.
use sik_screenworms.Base.{
  ℕ, ◌<◌, ◌≡◌, refl, ap, ◌∙◌, sym, ◌⊎◌, inl, inr, arith, true, false, not, ◌&&◌, ◌||◌, List, [],
  ◌∷◌, Str, leb, ok, fail, undefined_behaviour, ◌==◌, ==s_refl, mem, mem-keys, if◌then◌else◌, find,
  contains, keys, assign, AllEntries-find, AllEntries-assign, sum_values, sum_values-assign,
  Bool-cases, keys-assign, length-assign, find_of_contains, contains-find, contains-assign, some,
}
use sik_screenworms.Messages.{pixel, in_pixel}
use sik_screenworms.MqManager.{MqManager, ScheduledEvent, schedule}
use sik_screenworms.GameManager.State.{Platform, Player, GameManager, save_event, is_eaten, eat}
use sik_screenworms.GameManager.Ending.{emit_pixel_event}
use sik_screenworms.GameManager.Turns.{advance, settle, run_player, run_players, run_turn}
use sik_screenworms.GameManager.Invariant.{
  in_game, worm, AreEaten, eat-AreEaten, IsConsistent, IsPlaying, GoesOn, has_left,
}
use sik_screenworms.GameManager.Elimination.{Round, eliminate_player-Round, eliminate_player-erases}

module _ {D : Type 0} (name : Str) (p q : Player D) (g : GameManager D) (c : IsConsistent g)
    (s : IsPlaying g) (e : find name g.players ≡ some q) where
  -- The entry of a worm is rewritten, and the worm stays on the board.
  assign-Round :
      (pixels : List (ℕ × ℕ)) (mq : MqManager)
      → AreEaten g.maxx g.maxy pixels
      → p.player_name ≡ name
      → in_game p ≡ in_game q
      → p.is_disconnected ≡ q.is_disconnected
      → Round name g
          (record g { players = assign name p g.players; eaten_pixels = pixels; mq_manager = mq })
  assign-Round pixels mq board own same_worm same_left =
      let known : contains name g.players ≡ true = contains-find name g.players q e in
      let worm_same : worm p ≡ worm q = rw same_worm in
      let left_same : has_left p ≡ has_left q = rw same_left in
      record {
        goes_on = (
          record {
            keyed = AllEntries-assign _ name p g.players own c.keyed;
            distinct = rw keys-assign c.distinct;
            few = rw length-assign c.few;
            board = board;
          },
          λ _. record {
            started = s.started;
            numbered =
                AllEntries-assign _ name p g.players
                  (λ h. AllEntries-find _ name q g.players e s.numbered (sym same_worm ∙ h))
                  s.numbered;
            counted = omega (arith, s.counted, sum_values-assign worm name p q g.players e);
            enough = s.enough;
          },
        );
        stays = λ _. contains-assign name name p g.players ∙ known;
        players = λ _. keys-assign name p g.players;
        left = λ _. omega (arith, sum_values-assign has_left name p q g.players e);
      }

  -- A worm takes a free pixel of the board.
  take_pixel-Round :
      p.player_name ≡ name
      → in_game q ≡ true
      → in_game p ≡ in_game q
      → p.is_disconnected ≡ q.is_disconnected
      → p.pixel_x < g.maxx
      → p.pixel_y < g.maxy
      → (g' : GameManager D) × (emit_pixel_event p (record g {
        players = assign name p g.players;
        eaten_pixels = eat p.pixel_x p.pixel_y g.eaten_pixels;
      })
          ≡ ok g')
        × Round name g g'
  unfolding emit_pixel_event save_event
  take_pixel-Round own alive same_worm same_left hx hy =
      let (n, numbered) =
        find_of_contains name g.player_number_in_game
          (AllEntries-find _ name q g.players e s.numbered alive) in
      let pixels = eat p.pixel_x p.pixel_y g.eaten_pixels in
      let e' : ScheduledEvent = record {
        event_type = pixel;
        event_data = in_pixel (record { player_number = n; x = p.pixel_x; y = p.pixel_y });
      } in
      let mq = schedule g.game_id e' g.mq_manager in
      (
        record g { players = assign name p g.players; eaten_pixels = pixels; mq_manager = mq },
        rw (own, numbered),
        assign-Round pixels mq
            (eat-AreEaten g.maxx g.maxy p.pixel_x p.pixel_y g.eaten_pixels hx hy c.board) own
            same_worm same_left,
      )

module _ (pl : Platform) (name : Str) (p q : Player pl.Double) (g : GameManager pl.Double)
    (c : IsConsistent g) (s : IsPlaying g) (e : find name g.players ≡ some q)
    (alive : in_game q ≡ true) (own : p.player_name ≡ name) (same_worm : in_game p ≡ in_game q)
    (same_left : p.is_disconnected ≡ q.is_disconnected) where
  open pl use {is_negative, to_u16}

  settle-Round : (g' : GameManager pl.Double) × (settle pl name p g ≡ ok g') × Round name g g'
  unfolding settle
  settle-Round =
      let crash = eliminate_player-Round name p g q c s e alive own same_left in
      elim (Bool-cases (is_negative p.coord_x || is_negative p.coord_y)) [
        | inl out ↦ rw out crash
        | inr positive ↦
            elim (Bool-cases (to_u16 p.coord_x == p.pixel_x && to_u16 p.coord_y == p.pixel_y)) [
              | inl same ↦ (
                _,
                rw (positive, same),
                assign-Round name p q g c s e g.eaten_pixels g.mq_manager c.board own same_worm
                    same_left,
              )
              | inr moved ↦
                  elim (Bool-cases (
                    leb g.maxx (to_u16 p.coord_x)
                    || leb g.maxy (to_u16 p.coord_y)
                    || is_eaten (to_u16 p.coord_x) (to_u16 p.coord_y) g.eaten_pixels)) [
                      | inl hit ↦ rw (positive, moved, hit) crash
                      | inr free ↦
                          rw (positive, moved, free)
                            (take_pixel-Round name
                              (record p { pixel_x = to_u16 p.coord_x; pixel_y = to_u16 p.coord_y })
                              q g c s e own alive same_worm same_left (ground arith) (ground arith))
                    ]
            ]
      ]

module _ (pl : Platform) (name : Str) (g : GameManager pl.Double) (c : IsConsistent g)
    (s : IsPlaying g) (known : contains name g.players ≡ true) where
  -- The body of the loop, before the step of the iterator.
  body_lem :
      (q : Player pl.Double)
      → find name g.players ≡ some q
      → (g' : GameManager pl.Double) × ((if q.is_eliminated || not q.takes_part_in_current_game
            then ok g
            else settle pl name (advance pl g.turning_speed q) g)
          ≡ ok g')
        × Round name g g'
  unfolding advance
  body_lem q e = elim (Bool-cases (q.is_eliminated || not q.takes_part_in_current_game)) [
    | inl out ↦ (
      g,
      rw out refl,
      record { goes_on = (c, λ _. s); stays = λ _. known; players = λ _. refl; left = λ _. refl },
    )
    | inr alive ↦ rw alive (
        settle-Round pl name (advance pl g.turning_speed q) q g c s e (ground arith)
          (AllEntries-find _ name q g.players e c.keyed) refl refl)
  ]

  run_player-cases :
      ((run_player pl name g ≡ fail undefined_behaviour) × (0 < sum_values has_left g.players))
      ⊎ (g' : GameManager pl.Double) × (run_player pl name g ≡ ok g') × Round name g g'
  unfolding run_player
  run_player-cases =
      let (q, e) = find_of_contains name g.players known in
      let (g', ends, round) = body_lem q e in
      elim (Bool-cases (contains name g'.players)) [
        | inl there ↦ inr (g', rw (e, ends, there) refl, round)
        | inr gone ↦ inl (rw (e, ends, gone) refl, ground (arith, round.stays))
      ]

-- In a consistent state of a game with two worms left, one of them leaves the board by its left edge
-- and its client is disconnected. Then the round of that worm is undefined behaviour: the loop steps
-- on from the entry that the end of the game has erased.
pub run_player_erased :
    (pl : Platform) (name : Str) (q : Player pl.Double) (g : GameManager pl.Double)
    → IsConsistent g
    → IsPlaying g
    → find name g.players ≡ some q
    → in_game q ≡ true
    → q.is_disconnected ≡ true
    → g.alive_players ≡ 2
    → pl.is_negative (advance pl g.turning_speed q).coord_x ≡ true
    → run_player pl name g ≡ fail undefined_behaviour
unfolding run_player settle advance
run_player_erased pl name q g c s e alive gone two out =
    let own : q.player_name ≡ name = AllEntries-find _ name q g.players e c.keyed in
    let (g', ends, erased) =
      eliminate_player-erases name (advance pl g.turning_speed q) g q c s e alive own two gone in
    let in_turn : q.is_eliminated || not q.takes_part_in_current_game ≡ false = ground arith in
    rw (e, in_turn, out, ends, erased) refl

module _ (pl : Platform) where
  -- The loop over the names that are left.
  run_players-GoesOn :
      (names : List Str) (g : GameManager pl.Double)
      → GoesOn g
      → (g.game_started ≡ true → (k : Str) → mem k names ≡ true → contains k g.players ≡ true)
      → ((run_players pl names g ≡ fail undefined_behaviour)
          × (g.game_started ≡ true)
          × (0 < sum_values has_left g.players))
        ⊎ (g' : GameManager pl.Double) × (run_players pl names g ≡ ok g') × GoesOn g'
  unfolding run_players mem
  run_players-GoesOn [] g goes known = inr (g, refl, goes)
  run_players-GoesOn (name ∷ names) g (c, s) known = elim (Bool-cases g.game_started) [
    | inr over ↦ inr (g, rw over refl, (c, s))
    | inl on ↦
        elim (run_player-cases pl name g c (s on) (known on name (ground (arith, ==s_refl name)))) [
          | inl (fault, left) ↦ inl (rw (fault, on) refl, on, left)
          | inr (g', ends, round) ↦
              elim (run_players-GoesOn names g' round.goes_on (λ on' k in_names. ground (
                arith,
                known on k,
                mem-keys k g.players,
                mem-keys k g'.players,
                ap (mem k) (round.players on'),
              ))) [
                | inl (fault, on', left) ↦
                    inl (rw (ends, fault, on) refl, on, omega (arith, left, round.left on'))
                | inr (g'', ends', goes) ↦ inr (g'', rw (ends, ends', on) refl, goes)
              ]
        ]
  ]

  -- In a consistent state of a game that is played, for any arithmetic of the coordinates, a turn
  -- either ends without a fault, in a consistent state, with the invariant of a played game if the
  -- game goes on; or it ends in undefined behaviour, and some player is disconnected.
  pub run_turn-GoesOn :
      (g : GameManager pl.Double)
      → IsConsistent g
      → IsPlaying g
      → ((run_turn pl g ≡ fail undefined_behaviour) × (0 < sum_values has_left g.players))
        ⊎ (g' : GameManager pl.Double) × (run_turn pl g ≡ ok g') × GoesOn g'
  unfolding run_turn
  run_turn-GoesOn g c s =
      elim (run_players-GoesOn (keys g.players) g (c, λ _. s)
        (λ _ k in_keys. sym (mem-keys k g.players) ∙ in_keys)) [
          | inl (fault, _, left) ↦ inl (fault, left)
          | inr ends ↦ inr ends
        ]
