-- ===== src/Outcome.antt =====
-- Python code that returns or raises, and code that does so and changes a state on the way.
use fastapi_chassis.Base.{ℕ, String, List, ◌≡◌, refl, sym, ap, ◌⊎◌, inl, inr, arith}

-- The exceptions that the program tells apart, with their texts.
pub data Exn : Type 0 where
  authentication_error : String → Exn
  invalid_token : String → Exn
  http_exception : ℕ → String → List (String × String) → Exn
  timeout_error : Exn
  other_error : String → Exn

pub data Outcome {ℓ} (A : Type ℓ) : Type ℓ where
  returned : A → Outcome A
  raised : Exn → Outcome A

-- Code over a state of type `S`.
abbrev pub Task {ℓ} : Type 0 → Type ℓ → Type ℓ
Task S A = S → S × Outcome A

infixl 10 ◌>>=◌
abbrev pub ◌>>=◌ {ℓ κ} : {A : Type ℓ} {B : Type κ} → Outcome A → (A → Outcome B) → Outcome B
returned a >>= f = f a
raised e >>= f = raised e

-- What follows a piece of code that returned.
abbrev pub next {ℓ κ} :
    {S : Type 0} {A : Type ℓ} {B : Type κ} → S × Outcome A → (A → Task S B) → S × Outcome B
next (s, returned a) f = f a s
next (s, raised e) f = (s, raised e)

pub Outcome-cases {ℓ} :
    {A : Type ℓ} (o : Outcome A) → ((a : A) × (o ≡ returned a)) ⊎ ((e : Exn) × (o ≡ raised e))
Outcome-cases (returned a) = inl (a, refl)
Outcome-cases (raised e) = inr (e, refl)

pub next-eq-returned {ℓ κ} :
    {S : Type 0} {A : Type ℓ} {B : Type κ} (o : S × Outcome A) (f : A → Task S B) {t : S} {b : B}
    → next o f ≡ (t, returned b)
    → (s : S) × (a : A) × (o ≡ (s, returned a)) × (f a s ≡ (t, returned b))
next-eq-returned (s, returned a) f h = (s, a, refl, h)
next-eq-returned (s, raised e) f h = ground arith

module _ {ℓ} {S : Type 0} {A : Type ℓ} where
  pub returned_value :
      {s t : S} {a b : A} → ◌≡◌ {A = S × Outcome A} (s, returned a) (t, returned b) → a ≡ b
  returned_value h = ground arith

  pub returned_state :
      {s t : S} {a b : A} → ◌≡◌ {A = S × Outcome A} (s, returned a) (t, returned b) → s ≡ t
  returned_state h = ap (λ (p : S × Outcome A). p.0) h

  -- What holds of the state and the value of an outcome holds of those that equal it.
  pub returned_subst {κ} :
      (P : S → A → Type κ) {s t : S} {a b : A}
      → ◌≡◌ {A = S × Outcome A} (s, returned a) (t, returned b)
      → P s a
      → P t b
  returned_subst P {s} {t} {a} {b} h p = rw (sym (returned_state h), sym (returned_value h)) p

  pub raised_injective :
      {s t : S} {x y : Exn} → ◌≡◌ {A = S × Outcome A} (s, raised x) (t, raised y) → x ≡ y
  raised_injective h = ground arith
