-- ===== src/Settings/KeyMaterial.antt =====
-- What authentication settings that pass the validators of src/app/settings.py guarantee of their keys.
use Prim.Native.String.{count}
use fastapi_chassis.Base.{
  String, Bool, true, false, not, ◌&&◌, ◌||◌, List, [], ◌∷◌, ◌==◌, eq_iff, ◌≡◌, ◌≤◌, ◌⊎◌, inl, inr,
  eqb, is_in, any, length, if◌then◌else◌, arith, Bool-cases, ap, sym, sym,
}
use fastapi_chassis.Base.Text.{is_true, starts}
use fastapi_chassis.Settings.Result.{
  ok, value_error, ◌>>=◌, raise_if-eq-ok, >>=-eq-ok, ok-injective,
}
use fastapi_chassis.Settings.Fields.{AuthFields}
use fastapi_chassis.Settings.Validate.{
  family_among, jwt_algorithm_family, algorithm_families, validate_auth_key_material,
  validate_auth_claim_requirements, validate_enabled_auth, validate_auth_settings,
}

-- `_uses_shared_secret` of the authentication service
abbrev pub has_shared_secret : List String → Bool
has_shared_secret algorithms = any (starts "HS") algorithms

chosen-hs :
    (hs rs es ps ed : Bool) (f message : String)
    → (if hs
        then ok "HS"
        else if rs
        then ok "RS"
        else if es
        then ok "ES"
        else if ps
        then ok "PS"
        else if ed
        then ok "EdDSA"
        else value_error message)
      ≡ ok f
    → (f == "HS") ≡ hs
chosen-hs true rs es ps ed f m h = ap (λ g. g == "HS") (sym (ok-injective h))
chosen-hs false true es ps ed f m h = ap (λ g. g == "HS") (sym (ok-injective h))
chosen-hs false false true ps ed f m h = ap (λ g. g == "HS") (sym (ok-injective h))
chosen-hs false false false true ed f m h = ap (λ g. g == "HS") (sym (ok-injective h))
chosen-hs false false false false true f m h = ap (λ g. g == "HS") (sym (ok-injective h))
chosen-hs false false false false false f m h = cc

jwt_algorithm_family-hs :
    (a f : String) → jwt_algorithm_family a ≡ ok f → (f == "HS") ≡ starts "HS" a
unfolding jwt_algorithm_family family_among
jwt_algorithm_family-hs a f h =
    chosen-hs (starts "HS" a) (starts "RS" a) (starts "ES" a) (starts "PS" a) (starts "EdDSA" a) f _
      h

is_in_insert :
    (x f : String) (fs : List String)
    → is_in x (if is_in f fs then fs else f ∷ fs) ≡ ((f == x) || is_in x fs)
is_in_insert x f fs = elim (Bool-cases (is_in f fs)) [
  | inl e ↦ ground (arith, is_in_same f x fs, eq_iff f x)
  | inr e ↦ ground arith
]
  where
    is_in_same :
        (f x : String) (fs : List String) → is_in f fs ≡ true → (f == x) ≡ true → is_in x fs ≡ true
    is_in_same f x [] h k = h
    is_in_same f x (g ∷ fs) h k =
        ground (arith, eq_iff f x, eq_iff g x, eq_iff g f, is_in_same f x fs)

algorithm_families-hs :
    (as' fs : List String) → algorithm_families as' ≡ ok fs → is_in "HS" fs ≡ has_shared_secret as'
unfolding algorithm_families
algorithm_families-hs [] fs h = ap (λ gs. is_in "HS" gs) (sym (ok-injective h))
algorithm_families-hs (a ∷ as') fs h =
    let (f, hf, k) =
      >>=-eq-ok (jwt_algorithm_family a)
        (λ f. algorithm_families as' >>= λ fs. ok (if is_in f fs then fs else f ∷ fs)) h in
    let (gs, hg, e) =
      >>=-eq-ok (algorithm_families as') (λ fs. ok (if is_in f fs then fs else f ∷ fs)) k in
    ground (
      arith,
      ap (λ gs. is_in "HS" gs) (sym (ok-injective e)),
      is_in_insert "HS" f gs,
      jwt_algorithm_family-hs a f hf,
      algorithm_families-hs as' gs hg,
    )

-- The key material of accepted settings: for HS algorithms a secret of 32 characters or more and
-- nothing else, for the others a public key or an https URL of keys, and no secret.
abbrev pub HasKeyMaterial : AuthFields → Type 0
HasKeyMaterial a =
    ((has_shared_secret a.auth_jwt_algorithms ≡ true)
      × (32 ≤ count a.auth_jwt_secret)
      × (is_true a.auth_jwt_public_key ≡ false)
      × (is_true a.auth_jwks_url ≡ false))
    ⊎ ((has_shared_secret a.auth_jwt_algorithms ≡ false)
        × (is_true a.auth_jwt_secret ≡ false)
        × ((is_true a.auth_jwt_public_key ≡ true)
            ⊎ ((is_true a.auth_jwks_url ≡ true) × (starts "https://" a.auth_jwks_url ≡ true))))

-- What an accepted `AuthFields` promises, if authentication is on.
abbrev pub IsSound : AuthFields → Type 0
IsSound a =
    HasKeyMaterial a
    × ((a.auth_require_issuer && not (is_true a.auth_jwt_issuer)) ≡ false)
    × ((a.auth_require_audience && not (is_true a.auth_jwt_audience)) ≡ false)

validate_auth_key_material-HasKeyMaterial :
    (a : AuthFields)
    → (is_true a.auth_jwks_url && not (starts "https://" a.auth_jwks_url)) ≡ false
    → validate_auth_key_material a (has_shared_secret a.auth_jwt_algorithms) ≡ ok tt
    → HasKeyMaterial a
unfolding validate_auth_key_material
validate_auth_key_material-HasKeyMaterial a w h = ground arith

rewritten :
    (a : AuthFields) {b c : Bool}
    → b ≡ c
    → validate_auth_key_material a b ≡ ok tt
    → validate_auth_key_material a c ≡ ok tt
rewritten a e h = cc

claims_lem :
    (a : AuthFields)
    → validate_auth_claim_requirements a ≡ ok tt
    → ((a.auth_require_issuer && not (is_true a.auth_jwt_issuer)) ≡ false)
      × ((a.auth_require_audience && not (is_true a.auth_jwt_audience)) ≡ false)
unfolding validate_auth_claim_requirements
claims_lem a h = ground arith

validate_enabled_auth-IsSound :
    (a : AuthFields)
    → (is_true a.auth_jwks_url && not (starts "https://" a.auth_jwks_url)) ≡ false
    → validate_enabled_auth a ≡ ok tt
    → IsSound a
unfolding validate_enabled_auth validate_auth_claim_requirements
validate_enabled_auth-IsSound a w h =
    let (fs, hf, k) = >>=-eq-ok (algorithm_families a.auth_jwt_algorithms) _ h in
    let (_, k1) = raise_if-eq-ok (not (eqb (length fs) 1)) _ _ k in
    let (_, km, kc) =
      >>=-eq-ok (validate_auth_key_material a (is_in "HS" fs))
        (λ _. validate_auth_claim_requirements a) k1 in
    let material =
      validate_auth_key_material-HasKeyMaterial a w
        (rewritten a (algorithm_families-hs a.auth_jwt_algorithms fs hf) km) in
    ground (arith, claims_lem a kc, material)

pub validate_auth_settings-IsSound :
    (a : AuthFields) → validate_auth_settings a ≡ ok tt → a.auth_enabled ≡ true → IsSound a
unfolding validate_auth_settings
validate_auth_settings-IsSound a h e = ground (arith, validate_enabled_auth-IsSound a)

pub validate_auth_settings-https :
    (a : AuthFields)
    → validate_auth_settings a ≡ ok tt
    → is_true a.auth_jwks_url ≡ true
    → starts "https://" a.auth_jwks_url ≡ true
unfolding validate_auth_settings
validate_auth_settings-https a h e = ground arith
