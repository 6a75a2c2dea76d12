-- ===== src/Auth/Errors.antt =====
-- Which exceptions the authentication of src/app/auth raises.
use fastapi_chassis.Base.{
  ℕ, String, ◌≡◌, refl, sym, ◌⊎◌, inl, inr, Bool, true, false, not, Option, none, some, List, [],
  ◌∷◌, arith, if◌then◌else◌,
}
use fastapi_chassis.Base.Text.{starts}
use fastapi_chassis.Base.Dict.{Dict, lookup, has, is_some}
use fastapi_chassis.Outcome.{
  Outcome, returned, raised, Exn, authentication_error, invalid_token, http_exception,
  timeout_error, other_error, ◌>>=◌,
}
use fastapi_chassis.Settings.Fields.{AuthFields}
use fastapi_chassis.Starlette.{Json, null, flag, num, text, array, object}
use fastapi_chassis.Auth.Claims.{
  Principal, Printing, Loaded, parsed, json_decode_error, failed, decoded_roles, normalize_roles,
}
use fastapi_chassis.Auth.Jwks.{JwksState, Fetch}
use fastapi_chassis.Auth.Service.{
  JwtLibrary, required_claims, decode_options, with_subject, to_principal, authentication_failure,
  resolve_key, decoded, with_key, authenticate_token,
}
use fastapi_chassis.Auth.Dependencies.{
  get_optional_principal, get_current_principal, missing, unless_missing, require_scopes, authorize,
}

abbrev IsAuthenticationError : Exn → Type 0
IsAuthenticationError e = (text : String) × (e ≡ authentication_error text)

authentication_failure_lem : (e : Exn) → IsAuthenticationError (authentication_failure e)
authentication_failure_lem (authentication_error e) = (_, refl)
authentication_failure_lem (invalid_token e) = (_, refl)
authentication_failure_lem (http_exception c d hs) = (_, refl)
authentication_failure_lem timeout_error = (_, refl)
authentication_failure_lem (other_error e) = (_, refl)

-- `json.loads` raised another exception than JSONDecodeError on the text of the claim of roles.
abbrev pub LoadFails : Printing → Dict Json → Exn → Type 0
LoadFails p claims e =
    (roles : String) × (x : String) × (lookup "roles" claims ≡ some (text roles))
    × (p.loads roles ≡ failed x)
    × (e ≡ other_error x)

-- An outcome whose exception, if any, satisfies a predicate.
abbrev Raises {ℓ} : {A : Type ℓ} → (Exn → Type 0) → Outcome A → Type 0
Raises P (returned _) = Unit
Raises P (raised e) = P e

normalize_roles_lem :
    (p : Printing) (claims : Dict Json)
    → Raises (LoadFails p claims) (normalize_roles p (lookup "roles" claims))
unfolding normalize_roles
normalize_roles_lem p claims = by_value (lookup "roles" claims) refl
  where
    of_text :
        (s : String) (o : Loaded)
        → lookup "roles" claims ≡ some (text s)
        → p.loads s ≡ o
        → Raises (LoadFails p claims) (decoded_roles p s o)
    of_text s json_decode_error h k = tt
    of_text s (failed x) h k = (s, x, h, k, refl)
    of_text s (parsed null) h k = tt
    of_text s (parsed (flag _)) h k = tt
    of_text s (parsed (num _)) h k = tt
    of_text s (parsed (text _)) h k = tt
    of_text s (parsed (array _)) h k = tt
    of_text s (parsed (object _)) h k = tt

    by_bracket :
        (b : Bool) (x y : Outcome (List String))
        → Raises (LoadFails p claims) x
        → Raises (LoadFails p claims) y
        → Raises (LoadFails p claims) (if b then x else y)
    by_bracket true x y h k = h
    by_bracket false x y h k = k

    by_value :
        (o : Option Json)
        → lookup "roles" claims ≡ o
        → Raises (LoadFails p claims) (normalize_roles p o)
    by_value none h = tt
    by_value (some null) h = tt
    by_value (some (text s)) h = by_bracket (starts "[" s) _ _ (of_text s (p.loads s) h refl) tt
    by_value (some (array _)) h = tt
    by_value (some (flag _)) h = tt
    by_value (some (num _)) h = tt
    by_value (some (object _)) h = tt

Raises-next {ℓ κ} :
    {A : Type ℓ} {B : Type κ} (P : Exn → Type 0) (o : Outcome A) (f : A → B)
    → Raises P o
    → Raises P (o >>= λ a. returned (f a))
Raises-next P (returned a) f h = tt
Raises-next P (raised e) f h = h

to_principal_lem :
    (p : Printing) (claims : Dict Json)
    → has "sub" claims ≡ true
    → Raises (LoadFails p claims) (to_principal p claims)
unfolding to_principal
to_principal_lem p claims h = by_subject (lookup "sub" claims) h
  where
    by_subject :
        (o : Option Json) → is_some o ≡ true → Raises (LoadFails p claims) (with_subject p claims o)
    by_subject none h = ground arith
    by_subject (some sub) h =
        Raises-next (LoadFails p claims) (normalize_roles p (lookup "roles" claims)) _
          (normalize_roles_lem p claims)

module _ (jwt : JwtLibrary) (cfg : AuthFields) (p : Printing) (token : String) where
  -- The token was decoded, and the text of its roles made `json.loads` raise another exception than JSONDecodeError.
  abbrev pub Escapes : Exn → Type 0
  Escapes e =
      (key : jwt.Key) × (claims : Dict Json) × (jwt.decode token key (decode_options cfg)
        ≡ returned claims)
      × LoadFails p claims e

  abbrev MayRaise : Exn → Type 0
  MayRaise e = IsAuthenticationError e ⊎ Escapes e

  decoded_lem :
      (key : jwt.Key) (s : JwksState jwt.Data) (o : Outcome (Dict Json))
      → jwt.decode token key (decode_options cfg) ≡ o
      → Raises MayRaise (decoded jwt cfg p s o).1
  unfolding decode_options required_claims
  decoded_lem key s (raised e) h = inl (authentication_failure_lem e)
  decoded_lem key s (returned claims) h =
      by_principal (to_principal p claims)
        (to_principal_lem p claims (jwt.decode_require token key (decode_options cfg) claims h).0)
    where
      by_principal : (o : Outcome Principal) → Raises (LoadFails p claims) o → Raises MayRaise o
      by_principal (returned q) k = tt
      by_principal (raised e) k = inr (key, claims, h, k)

  with_key_lem :
      (o : JwksState jwt.Data × Outcome jwt.Key) → Raises MayRaise (with_key jwt cfg p token o).1
  with_key_lem (s, raised e) = inl (authentication_failure_lem e)
  with_key_lem (s, returned key) = decoded_lem key s _ refl

  authenticate_token-MayRaise :
      (first second : Fetch jwt.Data) (s : JwksState jwt.Data)
      → Raises MayRaise (authenticate_token jwt cfg p token first second s).1
  unfolding authenticate_token
  authenticate_token-MayRaise first second s =
      by_enabled cfg.auth_enabled _ (with_key_lem (resolve_key jwt cfg token first second s))
    where
      by_enabled :
          (b : Bool) (y : JwksState jwt.Data × Outcome Principal)
          → Raises MayRaise y.1
          → Raises MayRaise
              (if not b
                then (s, raised (authentication_error "Authentication is disabled"))
                else y).1
      by_enabled true y h = h
      by_enabled false y h = inl (_, refl)

  -- An HTTP error of status 401 or 403
  abbrev pub IsDenied : Exn → Type 0
  IsDenied e =
      (status : ℕ) × (detail : String) × (headers : List (String × String)) × (e
        ≡ http_exception status detail headers)
      × ((status ≡ 401) ⊎ (status ≡ 403))

  abbrev Fails : Exn → Type 0
  Fails e = IsDenied e ⊎ Escapes e

  unless_missing-Fails :
      (what : String) (m : List String) (q : Principal) → Raises Fails (unless_missing what m q)
  unless_missing-Fails what [] q = tt
  unless_missing-Fails what (m ∷ ms) q = inl (_, _, _, refl, inr refl)

  authorize-Fails :
      (requirement : Principal → Outcome Principal)
      → ((q : Principal) → Raises Fails (requirement q))
      → (o : Outcome Principal) → Raises MayRaise o
      → Raises Fails (authorize requirement (some o))
  unfolding authorize get_optional_principal get_current_principal
  authorize-Fails requirement h (returned q) d = h q
  authorize-Fails requirement h (raised (authentication_error e)) d = inl (_, _, _, refl, inl refl)
  authorize-Fails requirement h (raised (invalid_token e)) (inl d) = ground (arith, d.1)
  authorize-Fails requirement h (raised (http_exception c t hs)) (inl d) = ground (arith, d.1)
  authorize-Fails requirement h (raised timeout_error) (inl d) = ground (arith, d.1)
  authorize-Fails requirement h (raised (other_error e)) (inl d) = ground (arith, d.1)
  authorize-Fails requirement h (raised (invalid_token e)) (inr d) = inr d
  authorize-Fails requirement h (raised (http_exception c t hs)) (inr d) = inr d
  authorize-Fails requirement h (raised timeout_error) (inr d) = inr d
  authorize-Fails requirement h (raised (other_error e)) (inr d) = inr d

  -- Whatever the token, the answer of the HTTP client and the JWT library do, exceptions included, an
  -- endpoint that requires scopes and gets a token either gets a principal or the request fails with
  -- status 401 or 403, and with no other exception but one: that of `json.loads` on the text of the roles in a token
  -- that was decoded, if it is not JSONDecodeError.
  pub authorize-authenticate_token :
      (required : List String) (first second : Fetch jwt.Data) (s : JwksState jwt.Data) (e : Exn)
      → authorize
          (require_scopes required)
          (some (authenticate_token jwt cfg p token first second s).1)
        ≡ raised e
      → IsDenied e ⊎ Escapes e
  unfolding require_scopes
  authorize-authenticate_token required first second s e h =
      from_fails _
        (authorize-Fails (require_scopes required)
          (λ q. unless_missing-Fails _ (missing required q.scopes) q)
          (authenticate_token jwt cfg p token first second s).1
          (authenticate_token-MayRaise first second s))
        h
    where
      raised_eq : (x y : Exn) → ◌≡◌ {A = Outcome Principal} (raised x) (raised y) → x ≡ y
      raised_eq x y h = ground arith

      from_fails : (o : Outcome Principal) → Raises Fails o → o ≡ raised e → Fails e
      from_fails (returned q) d h = ground arith
      from_fails (raised x) d h = rw (sym (raised_eq x e h)) d
