-- ===== src/Proxy/Forwarded.antt =====
-- Which address `get_forwarded_client_ip` returns.
use mathlib.Core.Option
use Prim.Native.String.{char_at}
use fastapi_chassis.Base.{
  String, false, Option, none, some, List, [], ◌∷◌, ◌==◌, ◌≡◌, refl, sym, ◌∙◌, All, All-reverse,
  arith, Bool-cases, inl, inr,
}
use fastapi_chassis.Base.Text.{is_true, strip, split_on}
use fastapi_chassis.Proxy.{
  IpAddresses, is_trusted_proxy, normalize_ip, candidates, first_untrusted, forwarded_for,
  untrusted, from_value, from_header, get_forwarded_client_ip, then_next,
}

module _ (ip : IpAddresses) (trusted : List (ip.Network)) where
  -- The text of an address outside the trusted networks.
  pub record IsClient (host : String) : Type 0 where
    pub address : ip.Address
    pub printed : host ≡ ip.print address
    pub outside : is_trusted_proxy ip host trusted ≡ false

  abbrev IsText : String → Type 0
  IsText c = (a : ip.Address) × (c ≡ ip.print a)

  IsText-normalize_ip : (value c : String) → normalize_ip ip value ≡ some c → IsText c
  unfolding normalize_ip
  IsText-normalize_ip value c h =
      let (a, read, text) = (Option.map-eq-some_iff ip.print (ip.ip_address (strip value))).0 h in
      (a, sym text)

  All-candidates : (parts : List String) → All IsText (candidates ip parts)
  unfolding candidates
  All-candidates [] = tt
  All-candidates (part ∷ parts) =
      go (normalize_ip ip part) (IsText-normalize_ip part) (All-candidates parts)
    where
      go :
          (o : Option String)
          → ((c : String) → o ≡ some c → IsText c)
          → All IsText (candidates ip parts)
          → All IsText (elim o [ none ↦ candidates ip parts | some c ↦ c ∷ candidates ip parts ])
      go none h rest = rest
      go (some c) h rest = (h c refl, rest)

  first_untrusted-IsClient :
      (cs : List String) (c : String)
      → All IsText cs
      → first_untrusted ip trusted cs ≡ some c
      → IsClient c
  unfolding first_untrusted
  first_untrusted-IsClient [] c h e = absurd (ground arith)
  first_untrusted-IsClient (d ∷ cs) c ((a, text), h) e =
      elim (Bool-cases (is_trusted_proxy ip d trusted)) [
        | inl inside ↦ first_untrusted-IsClient cs c h (ground arith)
        | inr outside ↦
            let same : d ≡ c = ground arith in
            record { address = a; printed = sym same ∙ text; outside = rw (← same) outside }
      ]

  forwarded_for-IsClient : (value c : String) → forwarded_for ip trusted value ≡ some c → IsClient c
  unfolding forwarded_for
  forwarded_for-IsClient value c e =
      first_untrusted-IsClient _ c
        (All-reverse IsText (candidates ip (split_on (char_at "," 0) value)) (All-candidates _)) e

  untrusted-IsClient :
      (o : Option String) (c : String)
      → ((n : String) → o ≡ some n → IsText n)
      → untrusted ip trusted o ≡ some c
      → IsClient c
  unfolding untrusted
  untrusted-IsClient none c h e = absurd (ground arith)
  untrusted-IsClient (some n) c h e =
      let same : n ≡ c = ground arith in
      let outside : is_trusted_proxy ip n trusted ≡ false = ground arith in
      record {
        address = (h n refl).0;
        printed = sym same ∙ (h n refl).1;
        outside = rw (← same) outside;
      }

  from_header-IsClient :
      (name : String) (o : Option String) (c : String)
      → from_header ip trusted name o ≡ some c
      → IsClient c
  unfolding from_header from_value
  from_header-IsClient name none c e = absurd (ground arith)
  from_header-IsClient name (some value) c e = elim (Bool-cases (is_true value)) [
    | inr empty ↦ absurd (ground arith)
    | inl present ↦ elim (Bool-cases (name == "x-forwarded-for")) [
      | inl xff ↦ forwarded_for-IsClient value c (ground arith)
      | inr single ↦
          untrusted-IsClient (normalize_ip ip value) c (IsText-normalize_ip value) (ground arith)
    ]
  ]

  -- Whatever the headers say, the address returned is the text of an IP address that lies in no
  -- trusted network.
  pub get_forwarded_client_ip-IsClient :
      (headers : String → Option String) (names : List String) (c : String)
      → get_forwarded_client_ip ip headers names trusted ≡ some c
      → IsClient c
  unfolding get_forwarded_client_ip
  get_forwarded_client_ip-IsClient headers [] c e = absurd (ground arith)
  get_forwarded_client_ip-IsClient headers (name ∷ names) c e =
      go (from_header ip trusted name (headers name))
        (λ d. from_header-IsClient name (headers name) d)
        (get_forwarded_client_ip-IsClient headers names c) e
    where
      go :
          (o : Option String)
          → ((d : String) → o ≡ some d → IsClient d)
          → (get_forwarded_client_ip ip headers names trusted ≡ some c → IsClient c)
          → then_next o (get_forwarded_client_ip ip headers names trusted) ≡ some c
          → IsClient c
      go none h next q = next q
      go (some d) h next q = h c q
