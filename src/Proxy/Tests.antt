-- ===== src/Proxy/Tests.antt =====
-- Runs of the proxy helpers, and their theorems at concrete inputs.
use Prim.Native.String.{◌++◌}
use fastapi_chassis.Base.{String, ◌≡◌, refl, Option, none, some, [], ◌∷◌, if◌then◌else◌, ◌==◌}
use fastapi_chassis.Base.Text.{strip, split_on}
use fastapi_chassis.Fixtures.{addresses, proxy}
use fastapi_chassis.Proxy.{forwarded_for, get_forwarded_client_ip, normalize_forwarded_proto}
use fastapi_chassis.Proxy.Spoofing.{forwarded_for_prefix}

abbrev chain : String → Option String
chain name = if name == "x-forwarded-for" then some "1.2.3.4, 203.0.113.9 ,10.0.0.1" else none

client_found :
    get_forwarded_client_ip addresses chain ("x-forwarded-for" ∷ []) (proxy ∷ [])
    ≡ some "203.0.113.9"
unfolding get_forwarded_client_ip split_on strip
client_found = refl

client_behind_proxy :
    forwarded_for addresses (proxy ∷ []) "203.0.113.9,10.0.0.1" ≡ some "203.0.113.9"
unfolding get_forwarded_client_ip split_on strip
client_behind_proxy = refl

forwarded_for_prefix_example :
    forwarded_for addresses (proxy ∷ []) ("10.0.0.1" ++ ("," ++ "203.0.113.9,10.0.0.1"))
    ≡ some "203.0.113.9"
forwarded_for_prefix_example =
    forwarded_for_prefix addresses (proxy ∷ []) "10.0.0.1" "203.0.113.9,10.0.0.1" "203.0.113.9"
      client_behind_proxy

protos :
    (normalize_forwarded_proto (some " HTTPS ,http") ≡ some "https")
    × (normalize_forwarded_proto (some "ftp") ≡ none)
unfolding normalize_forwarded_proto
protos = (refl, refl)
