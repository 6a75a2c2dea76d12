-- ===== src/Database/Engine.antt =====
-- `create_database_engine` of src/app/db/engine.py: the directory that it makes, the arguments that the engine
-- gets, and the pragmas of each new connection.
use Prim.Native.String.{◌++◌}
use fastapi_chassis.Base.{
  ℕ, String, Bool, not, ltb, Option, none, some, List, [], ◌∷◌, ◌++◌ as append, if◌then◌else◌,
}
use fastapi_chassis.Base.Text.{starts, drop_text, print_nat}
use fastapi_chassis.Outcome.{Outcome, returned, ◌>>=◌}
use fastapi_chassis.Settings.Fields.{Settings, DatabaseFields, SqliteFields}

-- pathlib: `path.is_absolute()`, `Path.cwd() / path`, `path.parent`
pub record Paths : Type 0 where
  pub is_absolute : String → Bool
  pub in_cwd : String → String
  pub parent : String → String

abbrev pub prefix : String
prefix = "sqlite+aiosqlite:///"

-- the directory that is made, if any
unfoldable pub ensure_sqlite_parent_exists : Paths → String → Option String
ensure_sqlite_parent_exists p database_url =
    let sqlite_path = drop_text 20 database_url in
    if not (starts prefix database_url)
    then none
    else if starts ":memory:" sqlite_path
    then none
    else some
        (p.parent (if not (p.is_absolute sqlite_path) then p.in_cwd sqlite_path else sqlite_path))

-- `engine_kwargs`; an argument that is not given is `none`
pub record EngineArguments : Type 0 where
  pub echo : Bool
  pub pool_pre_ping : Bool
  pub connect_timeout : Option ℕ
  pub pool_size : Option ℕ
  pub max_overflow : Option ℕ

abbrev print_signed : Bool × ℕ → String
print_signed (minus, n) = if minus then "-" ++ print_nat n else print_nat n

-- the statements that are executed on each new connection, in order
unfoldable pub sqlite_pragmas : SqliteFields → List String
sqlite_pragmas s =
    append
      (("PRAGMA journal_mode=" ++ s.database_sqlite_journal_mode)
        ∷ ("PRAGMA synchronous=" ++ s.database_sqlite_synchronous)
        ∷ ("PRAGMA busy_timeout=" ++ print_nat s.database_sqlite_busy_timeout)
        ∷ ("PRAGMA cache_size=" ++ print_signed s.database_sqlite_cache_size)
        ∷ ("PRAGMA foreign_keys=" ++ (if s.database_sqlite_foreign_keys then "ON" else "OFF"))
        ∷ [])
      (if ltb 0 s.database_sqlite_mmap_size
        then ("PRAGMA mmap_size=" ++ print_nat s.database_sqlite_mmap_size) ∷ []
        else [])

unfoldable pub is_sqlite : String → Bool
is_sqlite database_url = starts "sqlite+aiosqlite://" database_url

unfoldable pub engine_arguments : DatabaseFields → EngineArguments
unfolding is_sqlite
engine_arguments d = record {
  echo = d.database_echo;
  pool_pre_ping = d.database_pool_pre_ping;
  connect_timeout =
      if is_sqlite d.database_url then some d.database_connect_timeout_seconds else none;
  pool_size = if not (is_sqlite d.database_url) then some d.database_pool_size else none;
  max_overflow = if not (is_sqlite d.database_url) then some d.database_max_overflow else none;
}

-- What was done: the directory made before, the engine, and the statements of its connections.
pub record Created (Engine : Type 0) : Type 0 where
  pub directory : Option String
  pub engine : Engine
  pub on_connect : List String

module _ {Engine : Type 0} (p : Paths)
    (create_async_engine : String → EngineArguments → Outcome Engine) where
  unfoldable pub create_database_engine : Settings → Outcome (Created Engine)
  unfolding ensure_sqlite_parent_exists engine_arguments sqlite_pragmas is_sqlite
  create_database_engine s =
      let directory = ensure_sqlite_parent_exists p s.database_url in
      create_async_engine s.database_url (engine_arguments s.database) >>= λ engine.
      returned (record {
        directory = directory;
        engine = engine;
        on_connect = if is_sqlite s.database_url then sqlite_pragmas s.sqlite else [];
      })
