-- ===== src/Auth/Rotation.antt =====
-- Which key `_resolve_key` of src/app/auth/service.py finds for a token under a URL of keys.
use fastapi_chassis.Base.{
  String, ◌≡◌, refl, ◌⊎◌, inl, inr, true, false, Option, none, some, List, [], ◌∷◌, Bool-cases,
  arith, eq_iff,
}
use fastapi_chassis.Base.Text.{is_true}
use fastapi_chassis.Outcome.{Outcome, returned, raised, next-eq-returned, returned_subst}
use fastapi_chassis.Settings.Fields.{AuthFields}
use fastapi_chassis.Auth.Jwks.{Jwk, Jwks, JwksState, Fetch, fetch_jwks}
use fastapi_chassis.Auth.Freshness.{Good, young, received_now, allowed_stale, fetch_jwks-Good}
use fastapi_chassis.Auth.Service.{
  JwtLibrary, some_key, has_kid, find_key, listed, get_jwk_key_for_kid, found_or, no_match,
  refreshed_key, key_for_kid, with_kid, resolve_key,
}

module _ (jwt : JwtLibrary) (cfg : AuthFields) where
  open jwt use {Data, Key, unverified_kid, key_from_dict}

  -- An entry with that "kid" is among the keys, and it gives that key.
  abbrev pub Among : String → Key → List (Jwk Data) → Type 0
  Among kid key [] = ⊥
  Among kid key (k ∷ ks) =
      ((k.kid ≡ some kid) × (key_from_dict k.jwk_data ≡ returned key)) ⊎ Among kid key ks

  has_kid_lem : (kid : String) (o : Option String) → has_kid jwt cfg kid o ≡ true → o ≡ some kid
  has_kid_lem kid none h = ground arith
  has_kid_lem kid (some k) h = ground (arith, eq_iff k kid)

  some_key_lem :
      (o : Outcome Key) (key : Key) → some_key jwt cfg o ≡ returned (some key) → o ≡ returned key
  some_key_lem (returned k) key h = ground arith
  some_key_lem (raised e) key h = ground arith

  find_key-Among :
      (kid : String) (key : Key) (ks : List (Jwk Data))
      → find_key jwt cfg kid ks ≡ returned (some key)
      → Among kid key ks
  unfolding find_key
  find_key-Among kid key [] h = ground arith
  find_key-Among kid key (k ∷ ks) h = elim (Bool-cases (has_kid jwt cfg kid k.kid)) [
    | inl e ↦ inl (has_kid_lem kid k.kid e, some_key_lem _ key (ground arith))
    | inr e ↦ inr (find_key-Among kid key ks (ground arith))
  ]

  -- The cached keys of a state give that key for that "kid".
  abbrev pub Serves : String → JwksState Data → Key → Type 0
  Serves kid t key =
      (payload : Jwks Data) × (t.jwks_cache ≡ some payload)
      × Among kid key (listed jwt cfg payload.keys)

  Good-cached :
      (f : Fetch Data) (t : JwksState Data) (payload : Jwks Data)
      → Good cfg f t payload
      → t.jwks_cache ≡ some payload
  Good-cached f t payload (young now w c a u) = c
  Good-cached f t payload (received_now a h c l u) = c
  Good-cached f t payload (allowed_stale e a c m l u) = c

  found_or_lem :
      (kid : String) (payload : Jwks Data) (o : Outcome (Option Key))
      (otherwise : JwksState Data → JwksState Data × Outcome Key) (s t : JwksState Data) (key : Key)
      → get_jwk_key_for_kid jwt cfg payload kid ≡ o
      → s.jwks_cache ≡ some payload
      → found_or jwt cfg o otherwise s ≡ (t, returned key)
      → Serves kid t key ⊎ (otherwise s ≡ (t, returned key))
  unfolding get_jwk_key_for_kid
  found_or_lem kid payload (raised e) otherwise s t key k c h = ground arith
  found_or_lem kid payload (returned none) otherwise s t key k c h = inr h
  found_or_lem kid payload (returned (some found)) otherwise s t key k c h =
      inl (returned_subst (Serves kid) h (payload, c, find_key-Among kid found _ k))

  refreshed_lem :
      (kid : String) (second : Fetch Data) (s t : JwksState Data) (key : Key)
      → refreshed_key jwt cfg kid second s ≡ (t, returned key)
      → Serves kid t key
  unfolding refreshed_key no_match
  refreshed_lem kid second s t key h =
      let (u, payload, e, k) =
        next-eq-returned (fetch_jwks cfg true second s)
          (λ jwks t. found_or jwt cfg (get_jwk_key_for_kid jwt cfg jwks kid) (no_match jwt cfg) t)
          h in
      elim (found_or_lem kid payload _ (no_match jwt cfg) u t key refl
        (Good-cached second u payload (fetch_jwks-Good cfg second true s u payload e)) k) [
          | inl g ↦ g
          | inr n ↦ ground arith
        ]

  key_for_kid-Serves :
      (kid : String) (first second : Fetch Data) (s t : JwksState Data) (key : Key)
      → key_for_kid jwt cfg kid first second s ≡ (t, returned key)
      → Serves kid t key
  unfolding key_for_kid
  key_for_kid-Serves kid first second s t key h =
      let (u, payload, e, k) =
        next-eq-returned (fetch_jwks cfg false first s)
          (λ jwks t.
            found_or jwt cfg (get_jwk_key_for_kid jwt cfg jwks kid)
              (refreshed_key jwt cfg kid second) t)
          h in
      elim (found_or_lem kid payload _ (refreshed_key jwt cfg kid second) u t key refl
        (Good-cached first u payload (fetch_jwks-Good cfg first false s u payload e)) k) [
          | inl g ↦ g
          | inr n ↦ refreshed_lem kid second u t key n
        ]

  with_kid_lem :
      (o : Outcome (Option String)) (first second : Fetch Data) (s t : JwksState Data) (key : Key)
      → with_kid jwt cfg o first second s ≡ (t, returned key)
      → (kid : String) × (o ≡ returned (some kid)) × (is_true kid ≡ true) × Serves kid t key
  with_kid_lem (raised e) first second s t key h = ground arith
  with_kid_lem (returned none) first second s t key h = ground arith
  with_kid_lem (returned (some kid)) first second s t key h = elim (Bool-cases (is_true kid)) [
    | inl e ↦ (kid, refl, e, key_for_kid-Serves kid first second s t key (ground arith))
    | inr e ↦ ground arith
  ]

  -- Under a URL of keys a token gets no key but one that the cached set gives for the "kid" in its own
  -- header, which is not empty, after one fetch or after a second, forced one.
  pub resolve_key-Serves :
      (token : String) (first second : Fetch Data) (s t : JwksState Data) (key : Key)
      → is_true cfg.auth_jwks_url ≡ true
      → resolve_key jwt cfg token first second s ≡ (t, returned key)
      → (kid : String) × (unverified_kid token ≡ returned (some kid))
        × (is_true kid ≡ true)
        × Serves kid t key
  unfolding resolve_key
  resolve_key-Serves token first second s t key u h =
      with_kid_lem (unverified_kid token) first second s t key (ground arith)
