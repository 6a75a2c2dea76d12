-- ===== src/Auth/Access.antt =====
-- Who passes the dependencies of src/app/auth/dependencies.py.
use fastapi_chassis.Base.{
  String, ◌≡◌, refl, sym, ap, inl, inr, ◌↔◌, true, Option, none, some, List, [], ◌∷◌, is_in, All,
  Bool-cases, arith,
}
use fastapi_chassis.Outcome.{
  Outcome, returned, raised, authentication_error, invalid_token, http_exception, timeout_error,
  other_error,
}
use fastapi_chassis.Auth.Claims.{Principal}
use fastapi_chassis.Auth.Dependencies.{
  get_optional_principal, get_current_principal, missing, unless_missing, require_scopes,
  require_roles, authorize,
}

-- Every required name is granted.
abbrev pub AllGranted : List String → List String → Type 0
AllGranted required granted = All (λ name. is_in name granted ≡ true) required

missing-AllGranted :
    (required granted : List String) → (missing required granted ≡ []) ↔ AllGranted required granted
unfolding missing
missing-AllGranted [] granted = ((λ h. tt), (λ h. refl))
missing-AllGranted (r ∷ rs) granted =
    let (f, g) = missing-AllGranted rs granted in
    elim (Bool-cases (is_in r granted)) [
      | inl e ↦ ground (arith, e, f, g)
      | inr e ↦ ground (arith, e, f, g)
    ]

returned_injective {ℓ} : {A : Type ℓ} {a b : A} → returned a ≡ returned b → a ≡ b
returned_injective h = ground arith

-- A requirement that lets a principal through exactly if it holds, unchanged.
abbrev Tests : (Principal → Outcome Principal) → (Principal → Type 0) → Type 0
Tests requirement Holds = (p q : Principal) → (requirement p ≡ returned q) ↔ ((p ≡ q) × Holds p)

unless_missing_tests :
    (what : String) (required granted : List String) (p q : Principal)
    → (unless_missing what (missing required granted) p ≡ returned q)
      ↔ ((p ≡ q) × AllGranted required granted)
unless_missing_tests what required granted p q =
    let (f, g) = missing-AllGranted required granted in by_missing (missing required granted) f g
  where
    by_missing :
        (m : List String)
        → (m ≡ [] → AllGranted required granted)
        → (AllGranted required granted → m ≡ [])
        → (unless_missing what m p ≡ returned q) ↔ ((p ≡ q) × AllGranted required granted)
    by_missing [] f g = ((λ h. (returned_injective h, f refl)), (λ (e, _). ap returned e))
    by_missing (m ∷ ms) f g = ((λ h. ground arith), (λ (_, a). ground (arith, g a)))

require_scopes-Tests : (rs : List String) → Tests (require_scopes rs) (λ p. AllGranted rs p.scopes)
unfolding require_scopes
require_scopes-Tests rs p q = unless_missing_tests "Missing required scopes: " rs p.scopes p q

require_roles-Tests : (rs : List String) → Tests (require_roles rs) (λ p. AllGranted rs p.roles)
unfolding require_roles
require_roles-Tests rs p q = unless_missing_tests "Missing required roles: " rs p.roles p q

authorize-Tests :
    (requirement : Principal → Outcome Principal) (Holds : Principal → Type 0)
    → Tests requirement Holds
    → (credentials : Option (Outcome Principal)) (q : Principal)
    → (authorize requirement credentials ≡ returned q)
      ↔ ((credentials ≡ some (returned q)) × Holds q)
unfolding authorize get_optional_principal get_current_principal
authorize-Tests requirement Holds tests none q = ((λ h. ground arith), (λ (h, _). ground arith))
authorize-Tests requirement Holds tests (some (returned p)) q =
    let (f, g) = tests p q in
    (
      (λ h. let (e, k) = f h in (ap (λ x. some (returned x)) e, rw (sym e) k)),
      (λ (e, k). g (some_returned_injective e, rw (some_returned_injective e) k)),
    )
  where
    some_returned_injective : {p q : Principal} → some (returned p) ≡ some (returned q) → p ≡ q
    some_returned_injective h = ground arith
authorize-Tests requirement Holds tests (some (raised (authentication_error e))) q =
    ((λ h. ground arith), (λ (h, _). ground arith))
authorize-Tests requirement Holds tests (some (raised (invalid_token e))) q =
    ((λ h. ground arith), (λ (h, _). ground arith))
authorize-Tests requirement Holds tests (some (raised (http_exception c d hs))) q =
    ((λ h. ground arith), (λ (h, _). ground arith))
authorize-Tests requirement Holds tests (some (raised timeout_error)) q =
    ((λ h. ground arith), (λ (h, _). ground arith))
authorize-Tests requirement Holds tests (some (raised (other_error e))) q =
    ((λ h. ground arith), (λ (h, _). ground arith))

-- An endpoint with required scopes gets a principal exactly if there are credentials, they
-- authenticate that principal, and it was granted every required scope; the same holds of roles.
pub authorize-AllGranted :
    (required : List String) (credentials : Option (Outcome Principal)) (q : Principal)
    → ((authorize (require_scopes required) credentials ≡ returned q)
        ↔ ((credentials ≡ some (returned q)) × AllGranted required q.scopes))
      × ((authorize (require_roles required) credentials ≡ returned q)
          ↔ ((credentials ≡ some (returned q)) × AllGranted required q.roles))
authorize-AllGranted required credentials q = (
  authorize-Tests (require_scopes required) _ (require_scopes-Tests required) credentials q,
  authorize-Tests (require_roles required) _ (require_roles-Tests required) credentials q,
)
