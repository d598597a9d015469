-- ===== src/Base/Outcomes.antt =====
-- How a C++ call can end: with a value, an exception, `exit`, or undefined behaviour.
-- `out_of_fuel` is no C++ outcome: the bound that the model puts on a loop was used up.
use mathlib.Core.Path.{◌≡◌, refl, subst}
use mathlib.Core.Logic.{◌⊎◌, inl, inr}
use mathlib.Core.Bool.{Bool, true, false}
use mathlib.Core.Option.{Option, none, some}
use sik_screenworms.Base.Tests.{if◌then◌else◌}

pub data Fault : Type 0 where
  encoder_decoder_error : Fault
  crc32_mismatch_error : Fault
  runtime_error : Fault
  out_of_range : Fault
  exit_failure : Fault
  undefined_behaviour : Fault
  out_of_fuel : Fault

pub data Outcome {ℓ} (A : Type ℓ) : Type ℓ where
  ok : A → Outcome A
  fail : Fault → Outcome A

infixl 5 ◌>>=◌
abbrev pub ◌>>=◌ {ℓ κ} : {A : Type ℓ} {B : Type κ} → Outcome A → (A → Outcome B) → Outcome B
fail e >>= k = fail e
ok a >>= k = k a

infixl 5 ◌>>◌
abbrev pub ◌>>◌ {ℓ} : {B : Type ℓ} → Outcome (Unit {0}) → Outcome B → Outcome B
m >> k = m >>= λ _. k

-- `if (!c) throw e;`
abbrev pub check : Bool → Fault → Outcome (Unit {0})
check true e = ok tt
check false e = fail e

-- The iterator of a `find` is read through without a test.
abbrev pub deref {ℓ} : {A : Type ℓ} → Option A → Outcome A
deref none = fail undefined_behaviour
deref (some a) = ok a

-- Inversion of a successful bind.
pub >>=-eq-ok {ℓ κ} :
    {A : Type ℓ} {B : Type κ} {b : B} (m : Outcome A) (f : A → Outcome B)
    → (m >>= f) ≡ ok b
    → (a : A) × (m ≡ ok a) × (f a ≡ ok b)
>>=-eq-ok (fail e) k returns = cc
>>=-eq-ok (ok a) k returns = (a, refl, returns)

pub Outcome-cases {ℓ} :
    {A : Type ℓ} (o : Outcome A) → ((a : A) × (o ≡ ok a)) ⊎ ((e : Fault) × (o ≡ fail e))
Outcome-cases (ok a) = inl (a, refl)
Outcome-cases (fail e) = inr (e, refl)

pub ok-injective {ℓ} : {A : Type ℓ} {a b : A} → ok a ≡ ok b → a ≡ b
ok-injective h = cc

pub fail-ne-ok {ℓ} : {A : Type ℓ} {e : Fault} {a : A} → fail e ≡ ok a → ⊥
fail-ne-ok h = cc

-- `Q` holds of what is returned, if anything is.
abbrev pub After {ℓ κ} : {A : Type ℓ} → (A → Type κ) → Outcome A → Type κ
After Q (ok a) = Q a
After Q (fail e) = Unit {κ}

pub After->>= {ℓ κ λ₁ λ₂} :
    {A : Type ℓ} {B : Type κ} (R : A → Type λ₁) (Q : B → Type λ₂) (m : Outcome A)
    (k : A → Outcome B)
    → After R m
    → ((a : A) → R a → After Q (k a))
    → After Q (m >>= k)
After->>= R Q (ok a) k h step = step a h
After->>= R Q (fail e) k h step = tt

-- The first call says nothing.
pub After-any {ℓ κ λ₂} :
    {A : Type ℓ} {B : Type κ} (Q : B → Type λ₂) (m : Outcome A) (k : A → Outcome B)
    → ((a : A) → After Q (k a))
    → After Q (m >>= k)
After-any Q (ok a) k step = step a
After-any Q (fail e) k step = tt

pub After-ok {ℓ κ} :
    {A : Type ℓ} (Q : A → Type κ) (m : Outcome A) (a : A) → After Q m → m ≡ ok a → Q a
After-ok Q (ok b) a h same = subst Q (ok-injective same) h
After-ok Q (fail e) a h same = absurd (fail-ne-ok same)

pub if-elim {ℓ κ} :
    {A : Type ℓ} (Q : A → Type κ) (b : Bool) (x y : A) → Q x → Q y → Q (if b then x else y)
if-elim Q true x y hx hy = hx
if-elim Q false x y hx hy = hy
