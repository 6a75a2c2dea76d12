-- ===== src/Middleware/RequestId.antt =====
-- src/app/middleware/request_id.py. The new identifier (`uuid4`) is an argument, and so are the codecs of UTF-8
-- (Utf8), where `none` is UnicodeDecodeError; a value of a raw header is the Latin-1 text of its bytes. The logging context is in Logging/Context, and the tracing span is left out.
use fastapi_chassis.Base.{
  String, true, false, Option, none, some, List, [], ◌∷◌, map, ◌==◌, eq_iff, if◌then◌else◌, ◌≡◌,
  refl, ◌∙◌, arith, Bool-cases, inl, inr,
}
use fastapi_chassis.Base.Text.{lower, is_true}
use fastapi_chassis.Base.Dict.{Dict, lookup, put, lookup-put}
use fastapi_chassis.Asgi.{
  Scope, is_http, Headers, Delivery, Failure, other, App, raise, Application, run,
}
use fastapi_chassis.Asgi.Protocol.{idle, Speaks}
use fastapi_chassis.Middleware.Headers.{change, with_headers, with_headers-Speaks, run-with_headers}

abbrev pub header_name : String
header_name = "X-Request-ID"

abbrev pub correlation_header_name : String
correlation_header_name = "X-Correlation-ID"

-- `{key.lower(): value for key, value in scope.get("headers", [])}`
unfoldable pub lowered : Dict String → Headers → Dict String
lowered d [] = d
lowered d ((k, v) ∷ hs) = lowered (put (lower k) v d) hs

-- `a or b` of a header's value, if any
abbrev pub or_text : Option String → String → String
or_text none d = d
or_text (some v) d = if is_true v then v else d

-- `text.encode("utf-8")` and `value.decode("utf-8")`, with bytes as their Latin-1 text.
pub record Utf8 : Type 0 where
  pub encode : String → String
  pub decode : String → Option String
  pub decode-encode : (text : String) → decode (encode text) ≡ some text

unfoldable pub upstream_id : Utf8 → String → Headers → String
unfolding lowered
upstream_id utf8 request_id headers =
    let d = lowered [] headers in
    or_text (lookup "x-correlation-id" d)
      (or_text (lookup "x-request-id" d) (utf8.encode request_id))

unfoldable pub upsert_header : Headers → String → String → Headers
upsert_header [] key value = (key, value) ∷ []
upsert_header ((k, v) ∷ hs) key value =
    let rest = upsert_header hs key value in
    if lower k == lower key then (k, value) ∷ hs else (k, v) ∷ rest

-- what `send_wrapper` does to the headers of a start
unfoldable pub stamp : Utf8 → String → String → Headers → Headers
unfolding upsert_header
stamp utf8 request_id correlation_id hs =
    upsert_header (upsert_header hs header_name (utf8.encode request_id)) correlation_header_name
      (utf8.encode correlation_id)

unfoldable pub with_ids : String → String → Scope → Scope
with_ids request_id correlation_id scope = record scope {
  state = put "correlation_id" correlation_id (put "request_id" request_id scope.state);
}

-- UnicodeDecodeError
abbrev pub undecodable : Failure
undecodable = other 1

abbrev pub identified : Utf8 → Application → Scope → String → Option String → App
identified utf8 app scope request_id none = raise undecodable
identified utf8 app scope request_id (some correlation_id) =
    with_headers (stamp utf8 request_id correlation_id)
      (app (with_ids request_id correlation_id scope))

unfoldable pub request_id_middleware : Utf8 → String → Application → Application
unfolding upstream_id stamp with_ids
request_id_middleware utf8 request_id app scope =
    if is_http scope
    then identified utf8 app scope request_id
        (utf8.decode (upstream_id utf8 request_id scope.headers))
    else app scope

-- The value of the first header of a name.
abbrev pub first_value : String → Headers → Option String
first_value j [] = none
first_value j ((k, v) ∷ hs) = if lower k == lower j then some v else first_value j hs

first_value-upsert :
    (j key value : String) (hs : Headers)
    → first_value j (upsert_header hs key value)
      ≡ (if lower key == lower j then some value else first_value j hs)
unfolding upsert_header
first_value-upsert j key value [] = refl
first_value-upsert j key value ((k, v) ∷ hs) = ground (
  arith,
  first_value-upsert j key value hs,
  eq_iff (lower k) (lower key),
  eq_iff (lower k) (lower j),
  eq_iff (lower key) (lower j),
)

-- The identifiers on the headers of a response: the first header of each of the two names has that
-- identifier, and the first header of any other name is as it was.
abbrev pub Stamped : Utf8 → String → String → Headers → Headers → Type 0
Stamped utf8 request_id correlation_id before hs =
    (first_value header_name hs ≡ some (utf8.encode request_id))
    × (first_value correlation_header_name hs ≡ some (utf8.encode correlation_id))
    × ((j : String)
        → (lower header_name == lower j) ≡ false
        → (lower correlation_header_name == lower j) ≡ false
        → first_value j hs ≡ first_value j before)

stamp-Stamped :
    (utf8 : Utf8) (request_id correlation_id : String) (hs : Headers)
    → Stamped utf8 request_id correlation_id hs (stamp utf8 request_id correlation_id hs)
unfolding stamp lower
stamp-Stamped utf8 r c hs =
    let inner = upsert_header hs header_name (utf8.encode r) in
    (
      first_value-upsert header_name correlation_header_name (utf8.encode c) inner
          ∙ first_value-upsert header_name header_name (utf8.encode r) hs,
      first_value-upsert correlation_header_name correlation_header_name (utf8.encode c) inner,
      λ j h k.
          first_value-upsert j correlation_header_name (utf8.encode c) inner
          ∙ ground (arith, first_value-upsert j header_name (utf8.encode r) hs),
    )

-- For an HTTP request with a decodable identifier, the inner application runs with both identifiers
-- in its state, and every start that it sends goes out with the request's own identifier in
-- X-Request-ID and the caller's in X-Correlation-ID, both encoded as UTF-8, all other headers being left alone; if the
-- identifier cannot be decoded it does not run, whatever it is, and the error goes up.
pub run-request_id :
    (utf8 : Utf8) (request_id : String) (app : Application) (scope : Scope) (ds : List Delivery)
    → is_http scope ≡ true
    → ((correlation_id : String)
        → utf8.decode (upstream_id utf8 request_id scope.headers) ≡ some correlation_id
        → (run ds (request_id_middleware utf8 request_id app scope) ≡ (
          map
              (change (stamp utf8 request_id correlation_id))
              (run ds (app (with_ids request_id correlation_id scope))).0,
          (run ds (app (with_ids request_id correlation_id scope))).1,
        ))
          × (lookup "request_id" (with_ids request_id correlation_id scope).state ≡ some request_id)
          × (lookup "correlation_id" (with_ids request_id correlation_id scope).state
              ≡ some correlation_id)
          × ((hs : Headers)
              → Stamped utf8 request_id correlation_id hs
                  (stamp utf8 request_id correlation_id hs)))
      × (utf8.decode (upstream_id utf8 request_id scope.headers) ≡ none
          → request_id_middleware utf8 request_id app scope ≡ raise undecodable)
unfolding request_id_middleware
run-request_id utf8 request_id app scope ds http = (
  λ c e. (
    rw (http, e)
        (run-with_headers (stamp utf8 request_id c) ds (app (with_ids request_id c scope))),
    lookup-put "correlation_id" "request_id" c (put "request_id" request_id scope.state)
        ∙ lookup-put "request_id" "request_id" request_id scope.state,
    lookup-put "correlation_id" "correlation_id" c (put "request_id" request_id scope.state),
    stamp-Stamped utf8 request_id c,
  ),
  λ e. rw (http, e) refl,
)

-- The identifiers leave the order of a response as it is.
pub request_id-Speaks :
    (utf8 : Utf8) (request_id : String) (app : Application)
    → ((scope : Scope) → Speaks idle (app scope))
    → (scope : Scope) (c : String)
    → utf8.decode (upstream_id utf8 request_id scope.headers) ≡ some c
    → Speaks idle (request_id_middleware utf8 request_id app scope)
unfolding request_id_middleware
request_id-Speaks utf8 request_id app h scope c decoded = elim (Bool-cases (is_http scope)) [
  | inl http ↦
      rw (http, decoded)
        (with_headers-Speaks (stamp utf8 request_id c) idle _ (h (with_ids request_id c scope)))
  | inr e ↦ rw (e) (h scope)
]
