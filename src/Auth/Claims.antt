-- ===== src/Auth/Claims.antt =====
-- The principal of src/app/auth/models.py, and the `_normalize` functions of src/app/auth/service.py. `str` of
-- a value and `json.loads` are parameters.
use Prim.Native.Char.{Char, code}
use Prim.Native.String.{[], ◌∷◌, char_at}
use fastapi_chassis.Base.{
  zero, suc, String, Bool, true, false, ◌||◌, ◌&&◌, ◌≡◌, Option, none, some, if◌then◌else◌, leb,
  eqb, keep,
}
use mathlib.Core.List.{List}
use fastapi_chassis.Base.Text.{is_true, starts, split_on}
use fastapi_chassis.Base.Dict.{Dict}
use fastapi_chassis.Outcome.{Outcome, returned, raised, other_error}
use fastapi_chassis.Starlette.{
  Json, null, flag, num, text, array, object, Items, nil, item, end, field,
}

pub record Principal : Type 0 where
  pub subject : String
  pub issuer : Option String
  pub audience : List String
  pub scopes : List String
  pub roles : List String
  pub claims : Dict Json

-- What `json.loads` does: it returns a value, or raises JSONDecodeError, or another exception, as ValueError for an
-- integer of too many digits or RecursionError for a text that is nested too deeply.
pub data Loaded : Type 0 where
  parsed : Json → Loaded
  json_decode_error : Loaded
  failed : String → Loaded

-- `str` of a value, which is the text of a text, and `json.loads`
pub record Printing : Type 0 where
  pub str : Json → String
  pub loads : String → Loaded
  pub str_text : (s : String) → str (text s) ≡ s

-- `bool(value)`
abbrev pub truthy : Json → Bool
truthy null = false
truthy (flag b) = b
truthy (num zero) = false
truthy (num (suc _)) = true
truthy (text s) = is_true s
truthy (array nil) = false
truthy (array (item _ _)) = true
truthy (object end) = false
truthy (object (field _ _ _)) = true

-- `a or b` of two results of `dict.get`
abbrev pub or_value : Option Json → Option Json → Option Json
or_value none b = b
or_value (some a) b = if truthy a then some a else b

abbrev space : Char
space = char_at " " 0

-- the ASCII characters at which `str.split` splits
abbrev is_space : Char → Bool
is_space c = (leb 9 (code c) && leb (code c) 13) || (leb 28 (code c) && leb (code c) 32)

abbrev spaced : Char → Char
spaced c = if is_space c then space else c

spaces : String → String
spaces [] = []
spaces (c ∷ s) = spaced c ∷ spaces s

-- `[part for part in value.split() if part]`: the parts between white space that are not empty
unfoldable pub split : String → List String
unfolding spaces
split s = keep is_true (split_on space (spaces s))

abbrev comma_to_space : Char → Char
comma_to_space c = if eqb (code c) 44 then space else c

-- `value.replace(",", " ")`
unfoldable pub replace_commas : String → String
replace_commas [] = []
replace_commas (c ∷ s) = comma_to_space c ∷ replace_commas s

module _ (p : Printing) where
  -- `[str(item) for item in value]`
  unfoldable pub str_items : Items → List String
  str_items nil = List.[]
  str_items (item v rest) = List.◌∷◌ (p.str v) (str_items rest)

  -- the value as the one element of a list
  abbrev pub single : String → List String
  single s = List.◌∷◌ s List.[]

  -- `claims.get("aud")`: `none` is a missing key, which `get` gives as None
  unfoldable pub normalize_audience : Option Json → List String
  unfolding str_items
  normalize_audience none = List.[]
  normalize_audience (some null) = List.[]
  normalize_audience (some (array items)) = str_items items
  normalize_audience (some v) = single (p.str v)

  unfoldable pub normalize_scopes : Option Json → List String
  unfolding split str_items
  normalize_scopes none = List.[]
  normalize_scopes (some null) = List.[]
  normalize_scopes (some (text s)) = split s
  normalize_scopes (some (array items)) = str_items items
  normalize_scopes (some v) = single (p.str v)

  -- the roles of a text that starts with "["
  abbrev pub decoded_roles : String → Loaded → Outcome (List String)
  decoded_roles s json_decode_error = returned (single s)
  decoded_roles s (failed e) = raised (other_error e)
  decoded_roles s (parsed (array items)) = returned (str_items items)
  decoded_roles s (parsed _) = returned (split (replace_commas s))

  unfoldable pub normalize_roles : Option Json → Outcome (List String)
  unfolding split replace_commas str_items
  normalize_roles none = returned List.[]
  normalize_roles (some null) = returned List.[]
  normalize_roles (some (text s)) =
      if starts "[" s then decoded_roles s (p.loads s) else returned (split (replace_commas s))
  normalize_roles (some (array items)) = returned (str_items items)
  normalize_roles (some v) = returned (single (p.str v))

  unfoldable pub claim_as_optional_str : Option Json → Option String
  claim_as_optional_str none = none
  claim_as_optional_str (some null) = none
  claim_as_optional_str (some v) = some (p.str v)
