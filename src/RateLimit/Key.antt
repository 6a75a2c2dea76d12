-- ===== src/RateLimit/Key.antt =====
-- `_build_rate_limit_key` of src/app/middleware/rate_limit.py. `Headers.get` and SHA-256 are
-- parameters.
use Prim.Native.String.{◌++◌}
use fastapi_chassis.Base.{
  String, Bool, false, ◌&&◌, Option, none, some, List, ◌==◌, if◌then◌else◌, or_else, ◌≡◌, ◌≢◌, refl,
  arith, eq_iff, Bool-cases, inl, inr, ◌⊎◌, ◌∙◌,
}
use fastapi_chassis.Base.Text.{is_true, lower, starts, drop_text, strip}
use fastapi_chassis.Asgi.{Scope}
use fastapi_chassis.Starlette.{HeaderMaps}
use fastapi_chassis.Proxy.{IpAddresses, is_trusted_proxy, get_forwarded_client_ip}
use fastapi_chassis.Proxy.Forwarded.{IsClient, get_forwarded_client_ip-IsClient}

-- `RateLimitMiddleware`'s settings that the key depends on, parsed
pub record KeySettings (ip : IpAddresses) : Type 0 where
  pub key_strategy : String
  pub trust_proxy_headers : Bool
  pub proxy_headers : List String
  pub trusted_proxies : List (ip.Network)

pub bearer_token : String → String
bearer_token authorization =
    if starts "bearer " (lower authorization)
    then strip (drop_text 7 authorization)
    else authorization

module _ (sha256 : String → String) where
  pub authorization_key : Option String → Option String
  unfolding bearer_token
  authorization_key none = none
  authorization_key (some authorization) =
      if is_true authorization
      then some ("authorization:" ++ sha256 (bearer_token authorization))
      else none

-- `f"ip:{forwarded_ip}"` if there is a forwarded address (not the empty text)
pub ip_key : String → Option String → String
ip_key host none = "ip:" ++ host
ip_key host (some forwarded) = if is_true forwarded then "ip:" ++ forwarded else "ip:" ++ host

module _ (h : HeaderMaps) (sha256 : String → String) (ip : IpAddresses) (s : KeySettings ip) where
  -- the key by the address of the peer, or of the client that a trusted proxy names
  pub peer_key : Scope → String
  unfolding ip_key
  peer_key scope =
      let client_host = or_else scope.client "unknown" in
      if s.trust_proxy_headers && is_trusted_proxy ip client_host s.trusted_proxies
      then ip_key client_host (
          get_forwarded_client_ip ip (λ k. h.get_header k scope.headers) s.proxy_headers
            s.trusted_proxies)
      else "ip:" ++ client_host

  unfoldable pub build_rate_limit_key : Scope → String
  unfolding authorization_key peer_key
  build_rate_limit_key scope =
      or_else
        (if s.key_strategy == "authorization"
          then authorization_key sha256 (h.get_header "authorization" scope.headers)
          else none)
        (peer_key scope)

  build-eq-peer :
      (scope : Scope)
      → s.key_strategy ≢ "authorization"
      → build_rate_limit_key scope ≡ peer_key scope
  unfolding build_rate_limit_key
  build-eq-peer scope ne = ground (arith, eq_iff s.key_strategy "authorization")

  -- What a key says of its request: the peer's own address, or a client's.
  abbrev pub IsAddressKey : Scope → String → Type 0
  IsAddressKey scope key =
      (key ≡ "ip:" ++ or_else scope.client "unknown")
      ⊎ ((c : String) × (key ≡ "ip:" ++ c) × IsClient ip s.trusted_proxies c)

  ip_key_cases :
      (scope : Scope) (o : Option String)
      → ((c : String) → o ≡ some c → IsClient ip s.trusted_proxies c)
      → IsAddressKey scope (ip_key (or_else scope.client "unknown") o)
  unfolding ip_key
  ip_key_cases scope none client = inl refl
  ip_key_cases scope (some c) client = elim (Bool-cases (is_true c)) [
    | inl present ↦ inr (c, rw present, client c refl)
    | inr empty ↦ inl (rw empty)
  ]

  peer_key_cases : (scope : Scope) → IsAddressKey scope (peer_key scope)
  unfolding peer_key
  peer_key_cases scope =
      elim (Bool-cases (
        s.trust_proxy_headers
        && is_trusted_proxy ip (or_else scope.client "unknown") s.trusted_proxies)) [
          | inl trusted ↦ rw trusted (
              ip_key_cases scope _ (
                get_forwarded_client_ip-IsClient ip s.trusted_proxies
                  (λ k. h.get_header k scope.headers) s.proxy_headers))
          | inr untrusted ↦ rw untrusted (inl refl)
        ]

  -- Under the strategy by address, a peer that is not a trusted proxy, or any peer if proxy headers
  -- are not trusted, is limited by its own address, whatever headers it sends; and a trusted proxy's
  -- request by an address that the headers give lies in no trusted network.
  pub build_rate_limit_key_by_ip :
      (scope : Scope)
      → s.key_strategy ≢ "authorization"
      → ((s.trust_proxy_headers
              && is_trusted_proxy ip (or_else scope.client "unknown") s.trusted_proxies)
            ≡ false
          → build_rate_limit_key scope ≡ "ip:" ++ or_else scope.client "unknown")
        × IsAddressKey scope (build_rate_limit_key scope)
  build_rate_limit_key_by_ip scope ne = (
    λ untrusted. build-eq-peer scope ne ∙ unfold peer_key in rw untrusted,
    rw (build-eq-peer scope ne) (peer_key_cases scope),
  )
