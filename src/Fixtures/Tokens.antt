-- ===== src/Fixtures/Tokens.antt =====
-- A JWT library whose keys are texts: a token is its own "kid", and the token "bad" is refused.
use fastapi_chassis.Base.{
  String, ◌≡◌, refl, sym, Bool, true, false, some, List, [], ◌∷◌, All, ◌==◌, if◌then◌else◌, all,
  arith,
}
use fastapi_chassis.Base.Dict.{Dict, has}
use fastapi_chassis.Outcome.{Outcome, returned, raised, invalid_token}
use fastapi_chassis.Starlette.{Json, null, flag, num, text, array, object}
use fastapi_chassis.Auth.Claims.{Printing, json_decode_error}
use fastapi_chassis.Auth.Service.{JwtLibrary, DecodeOptions}

abbrev claim_set : Dict Json
claim_set = ("sub", text "alice") ∷ ("exp", num 9999) ∷ ("scope", text "reports:read  other") ∷ []

abbrev present : List String → Bool
present required = all (λ c. has c claim_set) required

abbrev checked_claims : Bool → Bool → Outcome (Dict Json)
checked_claims false _ = raised (invalid_token "bad token")
checked_claims true false = raised (invalid_token "missing claim")
checked_claims true true = returned claim_set

abbrev decode_claims : String → String → DecodeOptions → Outcome (Dict Json)
decode_claims token key o =
    checked_claims (if token == "bad" then false else true) (present o.require)

present-All :
    (required : List String) → present required ≡ true → All (λ c. has c claim_set ≡ true) required
present-All [] h = tt
present-All (r ∷ rs) h = ground (arith, present-All rs)

checked_lem :
    (b c : Bool) (claims : Dict Json)
    → checked_claims b c ≡ returned claims
    → (c ≡ true) × (claim_set ≡ claims)
checked_lem false c claims h = ground arith
checked_lem true false claims h = ground arith
checked_lem true true claims h = (refl, ground arith)

pub decode_claims_require :
    (token key : String) (o : DecodeOptions) (claims : Dict Json)
    → decode_claims token key o ≡ returned claims
    → All (λ c. has c claims ≡ true) o.require
decode_claims_require token key o claims h =
    let (p, e) =
      checked_lem (if token == "bad" then false else true) (present o.require) claims h in
    rw (sym e) (present-All o.require p)

abbrev pub jwt_library : JwtLibrary
jwt_library = record {
  Data = String;
  Key = String;
  text_key = λ s. s;
  unverified_kid = λ token. returned (some token);
  key_from_dict = λ d. returned d;
  decode = decode_claims;
  decode_require = decode_claims_require;
}

abbrev print_json : Json → String
print_json null = "None"
print_json (flag true) = "True"
print_json (flag false) = "False"
print_json (num n) = "1"
print_json (text s) = s
print_json (array _) = "[]"
print_json (object _) = "{}"

abbrev pub printing : Printing
printing = record { str = print_json; loads = λ s. json_decode_error; str_text = λ s. refl }
