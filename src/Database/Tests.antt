-- ===== src/Database/Tests.antt =====
-- Runs of the database set-up, and its theorems at concrete inputs.
use Prim.Native.String.{◌++◌}
use fastapi_chassis.Base.{String, some, [], ◌∷◌, ◌≡◌, refl}
use fastapi_chassis.Base.Text.{starts, drop_text, print_nat}
use fastapi_chassis.Outcome.{Exn, Outcome, returned, raised, other_error}
use fastapi_chassis.Settings.Fields.{Settings}
use fastapi_chassis.Settings.Defaults.{defaults, database_defaults}
use fastapi_chassis.Database.Engine.{Paths, EngineArguments, create_database_engine}
use fastapi_chassis.Database.Session.{
  opened, closed, abandoned, session_scope, get_db_session, drive, on_exit, get_db_session_cases,
}

abbrev paths : Paths
paths = record {
  is_absolute = starts "/";
  in_cwd = λ path. "/srv/" ++ path;
  parent = λ path. path ++ "/..";
}

abbrev on_file : Settings
on_file = record defaults {
  database = record database_defaults { database_url = "sqlite+aiosqlite:///data/app.db" };
}

abbrev connect : String → EngineArguments → Outcome String
connect url arguments = returned url

created_on_file :
    create_database_engine paths connect on_file
    ≡ returned (record {
      directory = some "/srv/data/app.db/..";
      engine = "sqlite+aiosqlite:///data/app.db";
      on_connect =
          "PRAGMA journal_mode=wal" ∷ "PRAGMA synchronous=normal" ∷ "PRAGMA busy_timeout=5000"
          ∷ "PRAGMA cache_size=-64000" ∷ "PRAGMA foreign_keys=ON" ∷ [];
    })
unfolding create_database_engine starts drop_text print_nat
created_on_file = refl

-- a handler that raises
abbrev conflict : String → Outcome (Unit {0})
conflict session = raised (other_error "conflict")

get_db_session_cases_example :
    (conflict "session" ≡ returned tt
      → drive (returned tt) conflict (get_db_session (returned tt) (returned "session"))
        ≡ (opened ∷ closed ∷ [], returned tt))
    × ((e : Exn)
        → conflict "session" ≡ raised e
        → (drive (returned tt) conflict (get_db_session (returned tt) (returned "session"))
            ≡ (opened ∷ abandoned ∷ [], raised e))
          × (drive (returned tt) conflict (session_scope (returned tt) (returned "session"))
              ≡ (opened ∷ closed ∷ [], on_exit (some e) (returned tt))))
get_db_session_cases_example = get_db_session_cases (returned tt) "session" conflict
