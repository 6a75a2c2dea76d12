-- ===== src/Logging/Setup.antt =====
-- `configure_root_logging` of src/app/logging_setup.py and `setup_logging` of src/app/app_builder.py. The
-- reading of the JSON file, its handlers' other fields, and `dictConfig` are parameters.
use fastapi_chassis.Base.{
  ℕ, String, Bool, true, Option, some, List, [], ◌∷◌, map, All, or_else, ◌==◌, ◌≡◌, refl, ap,
  if◌then◌else◌,
}
use fastapi_chassis.Base.Text.{upper}
use fastapi_chassis.Base.Dict.{Dict, lookup}
use fastapi_chassis.Outcome.{Exn, Outcome, returned, raised, ◌>>=◌}
use fastapi_chassis.Settings.Fields.{LogFields}

-- A formatter: of python-json-logger, with its renamed fields, or of the standard library.
pub data Formatter : Type 0 where
  json_formatter : String → String → List (String × String) → Formatter
  text_formatter : String → String → Formatter

abbrev pub text_of : LogFields → Formatter
text_of s = text_formatter s.log_text_template s.log_date_format

-- a StreamHandler on stdout
pub record Handler : Type 0 where
  pub level : ℕ
  pub formatter : Formatter
  pub adds_request_context : Bool

pub record RootLogger : Type 0 where
  pub level : ℕ
  pub handlers : List Handler

-- `getattr(logging, name, logging.INFO)` on the names of levels
abbrev pub level_number : String → ℕ
level_number name =
    or_else
      (lookup name
        (("DEBUG", 10) ∷ ("INFO", 20) ∷ ("WARNING", 30) ∷ ("ERROR", 40) ∷ ("CRITICAL", 50) ∷ []))
      20

abbrev pub root_json : Formatter
root_json =
    json_formatter
      "%(asctime)s %(levelname)s %(name)s %(request_id)s %(correlation_id)s %(message)s"
      "%Y-%m-%dT%H:%M:%S"
      (("asctime", "timestamp") ∷ ("levelname", "level") ∷ ("name", "logger") ∷ [])

unfoldable pub configure_root_logging : LogFields → RootLogger → RootLogger
configure_root_logging s root =
    let level = level_number (upper s.log_level) in
    let handler : Handler = record {
      level = level;
      formatter = if s.log_format == "json" then root_json else text_of s;
      adds_request_context = true;
    } in
    record { level = level; handlers = handler ∷ [] }

-- The part of a logging configuration that is changed, and the rest of it.
pub record HandlerConfig (Rest : Type 0) : Type 0 where
  pub formatter : Option String
  pub others : Rest

pub record LoggingConfig (Rest : Type 0) : Type 0 where
  pub formatters : Dict Formatter
  pub handlers : Dict (HandlerConfig Rest)
  pub others : Rest

abbrev pub app_json : Formatter
app_json =
    json_formatter
      "%(asctime)s %(levelname)s %(name)s %(request_id)s %(correlation_id)s %(module)s %(funcName)s %(lineno)d %(message)s"
      "%Y-%m-%dT%H:%M:%S"
      (("asctime", "timestamp")
        ∷ ("levelname", "level")
        ∷ ("name", "logger")
        ∷ ("funcName", "function")
        ∷ ("lineno", "line")
        ∷ [])

abbrev pub formatter_of : LogFields → Formatter
formatter_of s = if s.log_format == "json" then app_json else text_of s

module _ {Rest : Type 0} where
  -- `for handler in logging_config.get("handlers", {}).values(): handler["formatter"] = "default"`
  abbrev pub use_default : Dict (HandlerConfig Rest) → Dict (HandlerConfig Rest)
  use_default [] = []
  use_default ((name, handler) ∷ rest) =
      (name, record handler { formatter = some "default" }) ∷ use_default rest

  unfoldable pub patched : LogFields → LoggingConfig Rest → LoggingConfig Rest
  patched s config = record config {
    formatters = ("default", formatter_of s) ∷ [];
    handlers = use_default config.handlers;
  }

  module _ (load : String → Outcome (LoggingConfig Rest))
      (dict_config : LoggingConfig Rest → Outcome (Unit {0})) where
    -- the level that the logger is set to, or the exception that goes up
    unfoldable pub setup_logging : LogFields → Outcome String
    unfolding patched
    setup_logging s = load s.logging_config_path >>= λ config.
        dict_config (patched s config) >>= λ _. returned (upper s.log_level)

  -- The formatter of a handler is one that the configuration has, and it is the one of the settings.
  abbrev pub Formats : LogFields → LoggingConfig Rest → HandlerConfig Rest → Type 0
  Formats s config handler =
      (name : String) × (handler.formatter ≡ some name)
      × (lookup name config.formatters ≡ some (formatter_of s))

  use_default-Formats :
      (s : LogFields) (config : LoggingConfig Rest)
      → lookup "default" config.formatters ≡ some (formatter_of s)
      → (hs : Dict (HandlerConfig Rest))
      → All (λ (h : String × HandlerConfig Rest). Formats s config h.1) (use_default hs)
  use_default-Formats s config found [] = tt
  use_default-Formats s config found ((name, handler) ∷ rest) =
      (("default", refl, found), use_default-Formats s config found rest)

  abbrev pub others_of : Dict (HandlerConfig Rest) → List (String × Rest)
  others_of hs = map (λ (h : String × HandlerConfig Rest). (h.0, h.1.others)) hs

  others-use_default : (hs : Dict (HandlerConfig Rest)) → others_of (use_default hs) ≡ others_of hs
  others-use_default [] = refl
  others-use_default ((name, handler) ∷ rest) =
      ap (λ hs. (name, handler.others) ∷ hs) (others-use_default rest)

  -- Whatever formatters the file and its handlers name, `dictConfig` gets a configuration in which every handler has a
  -- formatter that is there, the one of the settings, and all else is as in the file; the set-up returns the level in
  -- upper case exactly if the file loads and `dictConfig` accepts that, and any exception of the two goes up.
  pub setup_logging-Formats :
      (load : String → Outcome (LoggingConfig Rest))
      (dict_config : LoggingConfig Rest → Outcome (Unit {0})) (s : LogFields)
      → ((config : LoggingConfig Rest)
          → load s.logging_config_path ≡ returned config
          → All
              (λ (h : String × HandlerConfig Rest). Formats s (patched s config) h.1)
              (patched s config).handlers
            × (others_of (patched s config).handlers ≡ others_of config.handlers)
            × (dict_config (patched s config) ≡ returned tt
                → setup_logging load dict_config s ≡ returned (upper s.log_level))
            × ((e : Exn)
                → dict_config (patched s config) ≡ raised e
                → setup_logging load dict_config s ≡ raised e))
        × ((e : Exn)
            → load s.logging_config_path ≡ raised e
            → setup_logging load dict_config s ≡ raised e)
  unfolding setup_logging
  setup_logging-Formats load dict_config s = (
    λ config loaded. (
      unfold patched in
          use_default-Formats s (patched s config) (unfold lookup in refl) config.handlers,
      unfold patched in others-use_default config.handlers,
      λ accepted. rw (loaded, accepted) refl,
      λ e refused. rw (loaded, refused) refl,
    ),
    λ e failed. rw failed refl,
  )
