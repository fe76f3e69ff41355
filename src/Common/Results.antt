-- ===== src/Common/Results.antt =====
-- A returned value, or a thrown error, with the sequencing that stops at the first error.
use mathlib.Core.Path.{◌≡◌, refl}
use mathlib.Core.Bool.{Bool, true, false}

pub data Result {ℓ} (E : Type 0) (A : Type ℓ) : Type ℓ where
  err : E → Result E A
  ok : A → Result E A

module _ {E : Type 0} where
  infixl 5 ◌>>=◌
  abbrev pub ◌>>=◌ {ℓ κ} : {A : Type ℓ} {B : Type κ} → Result E A → (A → Result E B) → Result E B
  ◌>>=◌ (err problem) next = err problem
  ◌>>=◌ (ok value) next = next value

  infixl 5 ◌>>◌
  abbrev pub ◌>>◌ {κ} : {B : Type κ} → Result E (Unit {0}) → Result E B → Result E B
  step >> next = step >>= (λ ignored. next)

  -- `if (!test) throw error`.
  abbrev pub guard : Bool → E → Result E (Unit {0})
  guard test problem = elim test [ true ↦ ok tt | false ↦ err problem ]

  -- A sequence that returns has a first step that returned.
  pub >>=-eq-ok {ℓ κ} :
      {A : Type ℓ} {B : Type κ} (step : Result E A) (next : A → Result E B) {result : B}
      → (step >>= next) ≡ ok result
      → (value : A) × (step ≡ ok value) × (next value ≡ ok result)
  >>=-eq-ok (err problem) next done = cc
  >>=-eq-ok (ok value) next done = (value, refl, done)

  -- A sequence that returns passed its guard.
  pub guard-eq-ok {κ} :
      {B : Type κ} (test : Bool) (problem : E) (next : Unit {0} → Result E B) {result : B}
      → (guard test problem >>= next) ≡ ok result
      → (test ≡ true) × (next tt ≡ ok result)
  guard-eq-ok true problem next done = (refl, done)
  guard-eq-ok false problem next done = cc

  pub ok-injective {ℓ} : {A : Type ℓ} (a b : A) → ◌≡◌ {A = Result E A} (ok a) (ok b) → a ≡ b
  ok-injective a b same = cc
