-- ===== src/Sockets/Opening/FirstUsable.antt =====
-- Which address the sockets are opened for, and that no other descriptor stays open.
use sik_screenworms.Base.{
  ℕ, Bool, List, [], ◌∷◌, if◌then◌else◌, Option, none, some, Outcome, ok, fail, exit_failure,
}
use sik_screenworms.Sockets.Opening.{Candidate}

-- The first address for which every call succeeds, with its descriptor.
pub first_usable : (Candidate → Bool) → List Candidate → Option (Candidate × ℕ)
first_usable accepts [] = none
first_usable accepts (c ∷ candidates) =
    let rest = first_usable accepts candidates in
    elim c.created [ none ↦ rest | some fd ↦ if accepts c then some (c, fd) else rest ]

-- The outcome for that address.
pub opened_for : Option (Candidate × ℕ) → List ℕ → Outcome (Candidate × ℕ × List ℕ)
opened_for none opened = fail exit_failure
opened_for (some (c, fd)) opened = ok (c, fd, fd ∷ opened)
