-- ===== src/Middleware/RequestLogging/Unique.antt =====
-- Headers that have each identifier once, after `_upsert_header` of src/app/middleware/request_id.py, as the dictionary of
-- src/app/middleware/request_logging.py reads them.
use fastapi_chassis.Base.{
  String, Bool, true, false, not, ◌&&◌, Option, none, some, [], ◌∷◌, if◌then◌else◌, ◌≡◌, refl, ap,
  ◌∙◌, arith, ◌==◌, eq_iff, eq_refl,
}
use fastapi_chassis.Base.Text.{lower}
use fastapi_chassis.Base.Dict.{Dict, lookup, put, lookup-put}
use fastapi_chassis.Asgi.{Headers, Delivery, start, body, App, done, raise, receive, send}
use fastapi_chassis.Middleware.RequestId.{
  Utf8, lowered, upsert_header, stamp, header_name, correlation_header_name,
}

-- The value of the last header of a name in lower case, which a dictionary keeps.
abbrev later_value : Bool → String → Option String → Option String
later_value here v none = if here then some v else none
later_value here v (some w) = some w

abbrev last_value : String → Headers → Option String
last_value k [] = none
last_value k ((j, v) ∷ hs) = later_value (lower j == k) v (last_value k hs)

abbrev or_dict : Option String → Option String → Option String
or_dict none o = o
or_dict (some v) o = some v

lookup-lowered :
    (k : String) (d : Dict String) (hs : Headers)
    → lookup k (lowered d hs) ≡ or_dict (last_value k hs) (lookup k d)
unfolding lowered
lookup-lowered k d [] = refl
lookup-lowered k d ((j, v) ∷ hs) =
    ground (arith, lookup-lowered k (put (lower j) v d) hs, lookup-put (lower j) k v d)

-- There is no header of a name in lower case, or there is one at most.
abbrev has_none : String → Headers → Bool
has_none k [] = true
has_none k ((j, v) ∷ hs) = not (lower j == k) && has_none k hs

abbrev pub at_most_one : String → Headers → Bool
at_most_one k [] = true
at_most_one k ((j, v) ∷ hs) = if lower j == k then has_none k hs else at_most_one k hs

has_none-last_value : (k : String) (hs : Headers) → has_none k hs ≡ true → last_value k hs ≡ none
has_none-last_value k [] h = refl
has_none-last_value k ((j, v) ∷ hs) h = ground (arith, h, has_none-last_value k hs)

last_value-upsert :
    (key value : String) (hs : Headers)
    → at_most_one (lower key) hs ≡ true
    → last_value (lower key) (upsert_header hs key value) ≡ some value
unfolding upsert_header
last_value-upsert key value [] h = ground (arith, eq_refl (lower key))
last_value-upsert key value ((j, v) ∷ hs) h =
    ground (arith, h, last_value-upsert key value hs, has_none-last_value (lower key) hs)

last_value-upsert_other :
    (k key value : String) (hs : Headers)
    → (lower key == k) ≡ false
    → last_value k (upsert_header hs key value) ≡ last_value k hs
unfolding upsert_header
last_value-upsert_other k key value [] h = ground (arith, h)
last_value-upsert_other k key value ((j, v) ∷ hs) h = ground (
  arith,
  h,
  last_value-upsert_other k key value hs,
  eq_iff (lower j) (lower key),
  eq_iff (lower j) k,
  eq_iff (lower key) k,
)

has_none-upsert_other :
    (k key value : String) (hs : Headers)
    → (lower key == k) ≡ false
    → has_none k (upsert_header hs key value) ≡ has_none k hs
unfolding upsert_header
has_none-upsert_other k key value [] h = ground (arith, h)
has_none-upsert_other k key value ((j, v) ∷ hs) h =
    ground (arith, h, has_none-upsert_other k key value hs)

at_most_one-upsert_other :
    (k key value : String) (hs : Headers)
    → (lower key == k) ≡ false
    → at_most_one k (upsert_header hs key value) ≡ at_most_one k hs
unfolding upsert_header
at_most_one-upsert_other k key value [] h = ground (arith, h)
at_most_one-upsert_other k key value ((j, v) ∷ hs) h = ground (
  arith,
  h,
  at_most_one-upsert_other k key value hs,
  has_none-upsert_other k key value hs,
  eq_iff (lower j) (lower key),
  eq_iff (lower j) k,
  eq_iff (lower key) k,
)

-- Every start that an application sends has one header at most of either name.
abbrev pub AreUnique : Headers → Type 0
AreUnique hs = (at_most_one "x-request-id" hs ≡ true) × (at_most_one "x-correlation-id" hs ≡ true)

abbrev pub IsUnique : App → Type 0
IsUnique done = Unit
IsUnique (raise e) = Unit
IsUnique (receive k) = (d : Delivery) → IsUnique (k d)
IsUnique (send (start status hs) app) = AreUnique hs × IsUnique app
IsUnique (send (body bytes more) app) = IsUnique app

-- What a dictionary of the stamped headers holds.
pub stamped_ids :
    (utf8 : Utf8) (r c : String) (hs : Headers)
    → AreUnique hs
    → (lookup "x-request-id" (lowered [] (stamp utf8 r c hs)) ≡ some (utf8.encode r))
      × (lookup "x-correlation-id" (lowered [] (stamp utf8 r c hs)) ≡ some (utf8.encode c))
unfolding stamp lower lookup
stamped_ids utf8 r c hs (one, two) =
    let inner = upsert_header hs header_name (utf8.encode r) in
    let outer = upsert_header inner correlation_header_name (utf8.encode c) in
    (
      lookup-lowered "x-request-id" [] outer
          ∙ ap (λ o. or_dict o none)
              (last_value-upsert_other "x-request-id" correlation_header_name (utf8.encode c) inner
                  refl
                ∙ last_value-upsert header_name (utf8.encode r) hs one),
      lookup-lowered "x-correlation-id" [] outer
          ∙ ap (λ o. or_dict o none)
              (last_value-upsert correlation_header_name (utf8.encode c) inner (
                at_most_one-upsert_other "x-correlation-id" header_name (utf8.encode r) hs refl
                ∙ two)),
    )
