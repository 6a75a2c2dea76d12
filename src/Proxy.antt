-- ===== src/Proxy.antt =====
-- src/app/utils/proxy.py. The `ipaddress` module is a parameter: addresses and networks, how they
-- are read from text, the text of an address, and membership.
pub mod Forwarded
pub mod Spoofing
mod Tests
use fastapi_chassis.Base.{
  String, Bool, true, false, not, ◌&&◌, Option, none, some, List, [], ◌∷◌, any, ◌==◌, if◌then◌else◌,
  ◌≡◌, or_else,
}
use mathlib.Core.List.{reverse}
use mathlib.Core.Option
use Prim.Native.String.{char_at}
use fastapi_chassis.Base.Text.{is_true, strip, split_on, lower}

-- `ip_address`, `str` of an address, `ip_network(…, strict=False)` and `in`; `none` is ValueError. The
-- text of an address is read back as that address, and the empty text is no address.
pub record IpAddresses : Type 1 where
  pub Address : Type 0
  pub Network : Type 0
  pub ip_address : String → Option Address
  pub print : Address → String
  pub ip_network : String → Option Network
  pub contains : Network → Address → Bool
  pub read-print : (a : Address) → ip_address (print a) ≡ some a
  pub read_empty : ip_address "" ≡ none

-- The address of one header, or what the later headers give.
abbrev pub then_next : Option String → Option String → Option String
then_next none later = later
then_next (some found) later = some found

module _ (ip : IpAddresses) where
  open ip use {Address, Network, ip_address, print, ip_network, contains}

  pub cons_network : Option Network → Option (List Network) → Option (List Network)
  cons_network (some n) (some ns) = some (n ∷ ns)
  cons_network _ _ = none

  unfoldable pub parse_trusted_proxies : List String → Option (List Network)
  unfolding cons_network
  parse_trusted_proxies [] = some []
  parse_trusted_proxies (proxy ∷ proxies) =
      cons_network (ip_network proxy) (parse_trusted_proxies proxies)

  pub any_contains : Option Address → List Network → Bool
  any_contains none networks = false
  any_contains (some a) networks = any (λ n. contains n a) networks

  unfoldable pub is_trusted_proxy : String → List Network → Bool
  unfolding any_contains
  is_trusted_proxy client_host trusted = any_contains (ip_address client_host) trusted

  unfoldable pub normalize_ip : String → Option String
  normalize_ip value = Option.map print (ip_address (strip value))

  -- the comprehension over the parts of X-Forwarded-For
  pub candidates : List String → List String
  candidates [] = []
  candidates (part ∷ parts) = elim (normalize_ip part) [
    | none ↦ candidates parts
    | some c ↦ c ∷ candidates parts
  ]

  -- the loop over the reversed candidates
  pub first_untrusted : List Network → List String → Option String
  first_untrusted trusted [] = none
  first_untrusted trusted (c ∷ cs) =
      let rest = first_untrusted trusted cs in if is_trusted_proxy c trusted then rest else some c

  -- the address that the value of one header gives
  pub forwarded_for : List Network → String → Option String
  unfolding candidates first_untrusted
  forwarded_for trusted value =
      first_untrusted trusted (reverse (candidates (split_on (char_at "," 0) value)))

  pub untrusted : List Network → Option String → Option String
  untrusted trusted none = none
  untrusted trusted (some normalized) =
      if is_true normalized && not (is_trusted_proxy normalized trusted)
      then some normalized
      else none

  pub from_value : List Network → String → String → Option String
  unfolding forwarded_for untrusted normalize_ip is_trusted_proxy
  from_value trusted header_name value =
      if header_name == "x-forwarded-for"
      then forwarded_for trusted value
      else untrusted trusted (normalize_ip value)

  pub from_header : List Network → String → Option String → Option String
  unfolding from_value
  from_header trusted header_name none = none
  from_header trusted header_name (some value) =
      if is_true value then from_value trusted header_name value else none

  -- `headers` is the method `headers.get`
  unfoldable pub get_forwarded_client_ip :
      (String → Option String) → List String → List Network → Option String
  unfolding from_header
  get_forwarded_client_ip headers [] trusted = none
  get_forwarded_client_ip headers (name ∷ names) trusted =
      then_next (from_header trusted name (headers name))
        (get_forwarded_client_ip headers names trusted)

-- `value.split(",", 1)[0]`
pub head_or : List String → String → String
head_or [] d = d
head_or (s ∷ _) d = s

pub accepted_proto : String → Option String
accepted_proto s = if s == "http" then some s else if s == "https" then some s else none

unfoldable pub normalize_forwarded_proto : Option String → Option String
unfolding head_or accepted_proto split_on strip lower
normalize_forwarded_proto none = none
normalize_forwarded_proto (some value) =
    accepted_proto (lower (strip (head_or (split_on (char_at "," 0) value) "")))
