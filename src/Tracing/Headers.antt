-- ===== src/Tracing/Headers.antt =====
-- `_parse_headers` of src/app/observability/tracing.py: "key=value" items between commas.
use Prim.Native.String.{String, [], ◌∷◌, ◌++◌, char_at}
use mathlib.Core.List
use text.Mathlib.TextLemmas.{cons-append}
use mathlib.Core.List.{append_assoc, append-nil}
use fastapi_chassis.Base.{
  true, false, not, ◌&&◌, if◌then◌else◌, ◌≡◌, refl, sym, ap, ◌∙◌, All, List, arith, none, ◌==◌,
  eq_iff,
}
use fastapi_chassis.Base.Text.{is_true, strip, split_on, split_on-append}
use fastapi_chassis.Base.Text.Split.{
  partition, without, partition-append, split_on-without, without-append,
}
use fastapi_chassis.Base.Dict.{Dict, lookup, put, IsDistinct}

abbrev pub add_pair : String × String → Dict String → Dict String
add_pair (key, value) headers =
    if is_true key && is_true value then put (strip key) (strip value) headers else headers

-- `for item in …`
unfoldable pub add_items : List String → Dict String → Dict String
add_items List.[] headers = headers
add_items (List.◌∷◌ item items) headers =
    add_items items (add_pair (partition (char_at "=" 0) item) headers)

unfoldable pub parse_headers : String → Dict String
unfolding add_items
parse_headers raw_headers =
    if not (is_true raw_headers)
    then List.[]
    else add_items (split_on (char_at "," 0) raw_headers) List.[]

-- The header text that an operator writes for a list of headers.
abbrev pub item_text : String × String → String
item_text (key, value) = key ++ (char_at "=" 0 ∷ value)

abbrev pub header_text : List (String × String) → String
header_text List.[] = []
header_text (List.◌∷◌ h List.[]) = item_text h
header_text (List.◌∷◌ h (List.◌∷◌ i hs)) =
    item_text h ++ (char_at "," 0 ∷ header_text (List.◌∷◌ i hs))

-- A name and a value that can be written: there, with no space round them, no comma, and no "=" in the name.
abbrev pub IsWritable : String × String → Type 0
IsWritable (key, value) =
    (is_true key ≡ true)
    × (is_true value ≡ true)
    × (strip key ≡ key)
    × (strip value ≡ value)
    × (without (char_at "," 0) key ≡ true)
    × (without (char_at "," 0) value ≡ true)
    × (without (char_at "=" 0) key ≡ true)

item_is_true : (h : String × String) → IsWritable h → is_true (item_text h) ≡ true
item_is_true ([], value) w = ground arith
item_is_true (c ∷ key, value) w = rw (cons-append c key (char_at "=" 0 ∷ value)) refl

item_without : (h : String × String) → IsWritable h → without (char_at "," 0) (item_text h) ≡ true
item_without (key, value) (_, _, _, _, k, v, _) =
    without-append (char_at "," 0) (char_at "=" 0) key value k v

-- One item is read back.
add_item :
    (h : String × String) (d : Dict String)
    → IsWritable h
    → add_pair (partition (char_at "=" 0) (item_text h)) d ≡ put h.0 h.1 d
add_item (key, value) d (kt, vt, ks, vs, _, _, ke) =
    rw (partition-append (char_at "=" 0) key value ke, kt, vt, ks, vs) refl

split_first :
    (h : String × String) (rest : String)
    → IsWritable h
    → split_on (char_at "," 0) (item_text h ++ (char_at "," 0 ∷ rest))
      ≡ List.◌∷◌ (item_text h) (split_on (char_at "," 0) rest)
split_first h rest w =
    split_on-append (char_at "," 0) (item_text h) rest
    ∙ ap (λ items. List.◌++◌ items (split_on (char_at "," 0) rest))
        (split_on-without (char_at "," 0) (item_text h) (item_without h w))

abbrev put_all : List (String × String) → Dict String → Dict String
put_all List.[] d = d
put_all (List.◌∷◌ (key, value) hs) d = put_all hs (put key value d)

add_items-text :
    (h : String × String) (hs : List (String × String)) (d : Dict String)
    → All IsWritable (List.◌∷◌ h hs)
    → add_items (split_on (char_at "," 0) (header_text (List.◌∷◌ h hs))) d
      ≡ put_all (List.◌∷◌ h hs) d
unfolding add_items
add_items-text h List.[] d (w, _) =
    ap (λ items. add_items items d)
      (split_on-without (char_at "," 0) (item_text h) (item_without h w))
    ∙ add_item h d w
add_items-text h (List.◌∷◌ i hs) d (w, ws) =
    let rest = header_text (List.◌∷◌ i hs) in
    ap (λ items. add_items items d) (split_first h rest w)
    ∙ (ap (add_items (split_on (char_at "," 0) rest)) (add_item h d w)
        ∙ add_items-text i hs (put h.0 h.1 d) ws)

-- Distinct names are put at the end, one after the other.
put-end :
    (k v : String) (d : Dict String)
    → lookup k d ≡ none
    → put k v d ≡ List.◌++◌ d (List.◌∷◌ (k, v) List.[])
unfolding put lookup
put-end k v List.[] h = refl
put-end k v (List.◌∷◌ (j, w) d) h = ground (arith, h, put-end k v d)

lookup-end :
    (j k v : String) (d : Dict String)
    → lookup j d ≡ none
    → (k == j) ≡ false
    → lookup j (List.◌++◌ d (List.◌∷◌ (k, v) List.[])) ≡ none
unfolding lookup
lookup-end j k v List.[] h ne = ground arith
lookup-end j k v (List.◌∷◌ (i, w) d) h ne = ground (arith, h, lookup-end j k v d)

-- No name of the first dict is in the second.
abbrev Apart : Dict String → Dict String → Type 0
Apart hs d = All (λ (h : String × String). lookup h.0 d ≡ none) hs

Apart-end :
    (k v : String) (hs d : Dict String)
    → lookup k hs ≡ none
    → Apart hs d
    → Apart hs (List.◌++◌ d (List.◌∷◌ (k, v) List.[]))
unfolding lookup
Apart-end k v List.[] d h a = tt
Apart-end k v (List.◌∷◌ (j, w) hs) d h (a, rest) = (
  lookup-end j k v d a (ground (arith, h, eq_iff j k, eq_iff k j)),
  Apart-end k v hs d (ground arith) rest,
)

put_all-eq : (hs d : Dict String) → IsDistinct hs → Apart hs d → put_all hs d ≡ List.◌++◌ d hs
put_all-eq List.[] d dist a = sym (append-nil d)
put_all-eq (List.◌∷◌ (k, v) hs) d (fresh, dist) (a, rest) =
    ap (put_all hs) (put-end k v d a)
    ∙ (put_all-eq hs (List.◌++◌ d (List.◌∷◌ (k, v) List.[])) dist (Apart-end k v hs d fresh rest)
        ∙ append_assoc d (List.◌∷◌ (k, v) List.[]) hs)

is_true-append : (s t : String) → is_true s ≡ true → is_true (s ++ t) ≡ true
is_true-append [] t h = ground arith
is_true-append (c ∷ s) t h = rw (cons-append c s t) refl

header_is_true :
    (h : String × String) (hs : List (String × String))
    → All IsWritable (List.◌∷◌ h hs)
    → is_true (header_text (List.◌∷◌ h hs)) ≡ true
header_is_true h List.[] (w, _) = item_is_true h w
header_is_true h (List.◌∷◌ i hs) (w, _) = is_true-append (item_text h) _ (item_is_true h w)

Apart-empty : (hs : Dict String) → Apart hs List.[]
unfolding lookup
Apart-empty List.[] = tt
Apart-empty (List.◌∷◌ h hs) = (refl, Apart-empty hs)

-- A list of headers with distinct names, written as "key=value" items between commas, is read back as it is, if each name
-- and value is there, has no space round it and no comma, and no name has an "=".
pub parse_headers-text :
    (hs : List (String × String))
    → All IsWritable hs
    → IsDistinct hs
    → parse_headers (header_text hs) ≡ hs
unfolding parse_headers
parse_headers-text List.[] w dist = refl
parse_headers-text (List.◌∷◌ h hs) w dist = rw (header_is_true h hs w) (
    add_items-text h hs List.[] w
    ∙ put_all-eq (List.◌∷◌ h hs) List.[] dist (Apart-empty (List.◌∷◌ h hs)))
