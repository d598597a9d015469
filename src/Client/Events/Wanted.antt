-- ===== src/Client/Events/Wanted.antt =====
-- The loop of `processMessageFromServer` that looks for the first event that has not come.
use sik_screenworms.Base.{
  ℕ, zero, suc, ◌+◌, ◌%◌, ◌^◌, ◌≤◌, ◌<◌, ◌≡◌, refl, ◌∙◌, subst, inl, inr, arith, true, false, List,
  [], ◌∷◌, length, leb, ◌==◌, if◌then◌else◌, Bool-cases, ok, contains_at,
}
use sik_screenworms.Messages.{Event}
use sik_screenworms.Client.Events.{next_wanted}

-- `w` is the first number from `n` on that has no entry.
unfoldable pub IsFirstMissing {ℓ} : {V : Type ℓ} → ℕ → ℕ → List (ℕ × V) → Type 0
IsFirstMissing n w events =
    (n ≤ w)
    × ((i : ℕ) → n ≤ i → i < w → contains_at i events ≡ true)
    × (contains_at w events ≡ false)

module _ {ℓ} {V : Type ℓ} where
  -- The entries from the number `n` on.
  pub count_from : ℕ → List (ℕ × V) → ℕ
  count_from n [] = 0
  count_from n ((k, v) ∷ events) = (if leb n k then 1 else 0) + count_from n events

  count_from-le : (n : ℕ) (events : List (ℕ × V)) → count_from n events ≤ length events
  unfolding count_from
  count_from-le n [] = omega arith
  count_from-le n ((k, v) ∷ events) = ground (arith, count_from-le n events)

  count_from_mono :
      (n : ℕ) (events : List (ℕ × V)) → count_from (suc n) events ≤ count_from n events
  unfolding count_from
  count_from_mono n [] = omega arith
  count_from_mono n ((k, v) ∷ events) = ground (arith, count_from_mono n events)

  count_from-contains_at :
      (n : ℕ) (events : List (ℕ × V))
      → contains_at n events ≡ true
      → count_from (suc n) events + 1 ≤ count_from n events
  unfolding count_from contains_at
  count_from-contains_at n [] h = cc
  count_from-contains_at n ((k, v) ∷ events) h = elim (Bool-cases (k == n)) [
    | inl same ↦ ground (arith, count_from_mono n events)
    | inr differ ↦ ground (arith, count_from-contains_at n events (rw differ at h))
  ]

  -- Where every number below `n` has an entry, there are `n` entries beside those from `n` on.
  pub count_from-full :
      (n : ℕ) (events : List (ℕ × V))
      → ((i : ℕ) → i < n → contains_at i events ≡ true)
      → n + count_from n events ≤ length events
  count_from-full zero events full = omega (arith, count_from-le 0 events)
  count_from-full (suc n) events full = omega (
    arith,
    count_from-full n events (λ i below. full i (omega (arith, below))),
    count_from-contains_at n events (full n (omega arith)),
  )

next_wanted_more :
    (fuel n : ℕ) (events : List (ℕ × Event))
    → contains_at n events ≡ true
    → suc n < 2 ^ 32
    → next_wanted (suc fuel) n events ≡ next_wanted fuel (suc n) events
unfolding next_wanted
next_wanted_more fuel n events present small =
    let next : (n + 1) % 2 ^ 32 ≡ suc n = omega arith in rw (present, next_wanted, next) refl

next_wanted_last :
    (fuel n : ℕ) (events : List (ℕ × Event))
    → contains_at n events ≡ false
    → next_wanted (suc fuel) n events ≡ ok n
unfolding next_wanted
next_wanted_last fuel n events missing = rw (missing, next_wanted) refl

IsFirstMissing-before :
    (n w : ℕ) (events : List (ℕ × Event))
    → contains_at n events ≡ true
    → IsFirstMissing (suc n) w events
    → IsFirstMissing n w events
unfolding IsFirstMissing
IsFirstMissing-before n w events present (le, full, missing) = (
  omega arith,
  (λ i from below. elim (Bool-cases (i == n)) [
    | inl same ↦
        let equal : n ≡ i = ground arith in subst (λ j. contains_at j events ≡ true) equal present
    | inr differ ↦ full i (ground arith) below
  ]),
  missing,
)

-- When the fuel is more than the entries from `n` on, and no number can wrap, the loop ends at the
-- first number that has no entry.
pub next_wanted-IsFirstMissing :
    (fuel n : ℕ) (events : List (ℕ × Event))
    → count_from n events < fuel
    → n + count_from n events < 2 ^ 32
    → (w : ℕ) × (next_wanted fuel n events ≡ ok w) × IsFirstMissing n w events
unfolding IsFirstMissing
next_wanted-IsFirstMissing zero n events enough small = absurd (omega arith)
next_wanted-IsFirstMissing (suc fuel) n events enough small =
    elim (Bool-cases (contains_at n events)) [
      | inl present ↦
          let fewer = count_from-contains_at n events present in
          let (w, goes, first) =
            next_wanted-IsFirstMissing fuel (suc n) events (omega (arith, fewer))
              (omega (arith, fewer)) in
          (
            w,
            next_wanted_more fuel n events present (omega (arith, fewer)) ∙ goes,
            IsFirstMissing-before n w events present first,
          )
      | inr missing ↦ (
        n,
        next_wanted_last fuel n events missing,
        (omega arith, (λ i from below. absurd (omega arith)), missing),
      )
    ]
