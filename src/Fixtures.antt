-- ===== src/Fixtures.antt =====
-- Values for the parameters of the model, which the tests run it with: header maps on lists, a JSON
-- response with an empty body, and an address library that knows two addresses.
pub mod Configuration
pub mod Tokens
pub mod RedisServer
use fastapi_chassis.Base.{
  String, ◌≡◌, refl, Bool, true, false, Option, none, some, [], ◌∷◌, arith, ◌==◌, eq_iff,
  if◌then◌else◌,
}
use fastapi_chassis.Base.Text.{lower}
use fastapi_chassis.Asgi.{Headers, Scope, send, done, start, body, Application}
use fastapi_chassis.Middleware.RequestId.{Utf8}
use fastapi_chassis.Starlette.{HeaderMaps, Responses}
use fastapi_chassis.Proxy.{IpAddresses}

unfoldable pub get_first : String → Headers → Option String
get_first j [] = none
get_first j ((k, v) ∷ hs) = if lower k == lower j then some v else get_first j hs

unfoldable pub delete_all : String → Headers → Headers
delete_all j [] = []
delete_all j ((k, v) ∷ hs) =
    let rest = delete_all j hs in if lower k == lower j then rest else (k, v) ∷ rest

get_first-delete_all :
    (j k : String) (hs : Headers)
    → (lower k == lower j) ≡ false
    → get_first j (delete_all k hs) ≡ get_first j hs
unfolding get_first delete_all
get_first-delete_all j k [] ne = refl
get_first-delete_all j k ((i, v) ∷ hs) ne = ground (
  arith,
  get_first-delete_all j k hs ne,
  eq_iff (lower i) (lower k),
  eq_iff (lower i) (lower j),
  eq_iff (lower k) (lower j),
)

pub get_first-set :
    (j k v : String) (hs : Headers)
    → get_first j ((k, v) ∷ delete_all k hs)
      ≡ (if lower k == lower j then some v else get_first j hs)
unfolding get_first
get_first-set j k v hs = ground (arith, get_first-delete_all j k hs)

abbrev pub header_maps : HeaderMaps
header_maps = record {
  get_header = get_first;
  set_header = λ k v hs. (k, v) ∷ delete_all k hs;
  get-set = get_first-set;
}

-- UTF-8 on ASCII texts
abbrev pub utf8 : Utf8
utf8 = record { encode = λ s. s; decode = λ s. some s; decode-encode = λ s. refl }

abbrev pub responses : Responses
responses = record { render = λ content. []; response_headers = λ content headers. headers }

-- 10.0.0.1 is the proxy, and 203.0.113.9 a client.
pub data Host : Type 0 where
  proxy client : Host

abbrev pub read_host : String → Option Host
read_host s =
    if s == "10.0.0.1" then some proxy else if s == "203.0.113.9" then some client else none

abbrev pub print_host : Host → String
print_host proxy = "10.0.0.1"
print_host client = "203.0.113.9"

abbrev pub same_host : Host → Host → Bool
same_host proxy proxy = true
same_host client client = true
same_host _ _ = false

pub read-print_host : (a : Host) → read_host (print_host a) ≡ some a
read-print_host proxy = refl
read-print_host client = refl

abbrev pub addresses : IpAddresses
addresses = record {
  Address = Host;
  Network = Host;
  ip_address = read_host;
  print = print_host;
  ip_network = read_host;
  contains = same_host;
  read-print = read-print_host;
  read_empty = refl;
}

abbrev pub http_scope : Option String → Headers → Scope
http_scope peer headers = record {
  kind = "http";
  path = some "/api/v1/me";
  root_path = none;
  scheme = some "http";
  method = some "GET";
  query_string = none;
  client = peer;
  headers = headers;
  state = [];
}

-- An application that answers 200 with an empty body.
abbrev pub hello : Application
hello scope = send (start 200 []) (send (body [] false) done)
