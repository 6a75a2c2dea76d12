-- ===== src/Tracing/Tests.antt =====
-- Runs of tracing, and its theorems at concrete inputs.
use fastapi_chassis.Base.{String, true, List, [], ◌∷◌, ◌≡◌, refl, All}
use fastapi_chassis.Base.Text.{strip, split_on}
use fastapi_chassis.Base.Text.Split.{partition}
use fastapi_chassis.Base.Dict.{lookup, put, IsDistinct}
use fastapi_chassis.Settings.Fields.{Settings}
use fastapi_chassis.Settings.Defaults.{defaults, telemetry_defaults}
use fastapi_chassis.Tracing.Headers.{parse_headers, IsWritable, parse_headers-text}

-- Spaces are stripped, an item without a value is left out, and the value may hold "=".
parses : parse_headers "a = 1,b,c=x=y,=z" ≡ ("a", "1") ∷ ("c", "x=y") ∷ []
unfolding parse_headers split_on partition strip put
parses = refl

abbrev written : List (String × String)
written = ("authorization", "Basic eA==") ∷ ("x-team", "core") ∷ []

written-IsWritable : All IsWritable written
unfolding strip
written-IsWritable =
    ((refl, refl, refl, refl, refl, refl, refl), ((refl, refl, refl, refl, refl, refl, refl), tt))

written-IsDistinct : IsDistinct written
unfolding lookup
written-IsDistinct = (refl, (refl, tt))

parse_headers-text_example : parse_headers "authorization=Basic eA==,x-team=core" ≡ written
parse_headers-text_example = parse_headers-text written written-IsWritable written-IsDistinct

abbrev traced : Settings
traced = record defaults { telemetry = record telemetry_defaults { otel_enabled = true } }
