-- ===== src/Database/Kinds.antt =====
-- What `create_database_engine` of src/app/db/engine.py makes for each kind of database.
use Prim.Native.String.{◌++◌}
use text.Mathlib.TextLemmas.{append_assoc}
use fastapi_chassis.Base.{
  String, true, false, not, none, some, [], ◌≡◌, refl, sym, ap, ◌∙◌, if◌then◌else◌, arith,
  Bool-cases, inl, inr, ◌⊎◌,
}
use fastapi_chassis.Base.Text.{starts}
use fastapi_chassis.Base.Text.Search.{starts-append, drop_text-append, starts-split}
use fastapi_chassis.Outcome.{Exn, Outcome, returned, raised, ◌>>=◌}
use fastapi_chassis.Settings.Fields.{Settings, DatabaseFields}
use fastapi_chassis.Database.Engine.{
  Paths, prefix, ensure_sqlite_parent_exists, EngineArguments, sqlite_pragmas, is_sqlite,
  engine_arguments, Created, create_database_engine,
}

arguments-sqlite :
    (d : DatabaseFields)
    → is_sqlite d.database_url ≡ true
    → engine_arguments d ≡ record {
      echo = d.database_echo;
      pool_pre_ping = d.database_pool_pre_ping;
      connect_timeout = some d.database_connect_timeout_seconds;
      pool_size = none;
      max_overflow = none;
    }
unfolding engine_arguments
arguments-sqlite d h = rw h refl

arguments-server :
    (d : DatabaseFields)
    → is_sqlite d.database_url ≡ false
    → engine_arguments d ≡ record {
      echo = d.database_echo;
      pool_pre_ping = d.database_pool_pre_ping;
      connect_timeout = none;
      pool_size = some d.database_pool_size;
      max_overflow = some d.database_max_overflow;
    }
unfolding engine_arguments
arguments-server d h = rw h refl

directory-sqlite :
    (p : Paths) (path : String)
    → ensure_sqlite_parent_exists p (prefix ++ path) ≡ (
        if starts ":memory:" path
        then none
        else some (p.parent (if not (p.is_absolute path) then p.in_cwd path else path)))
unfolding ensure_sqlite_parent_exists
directory-sqlite p path = rw (starts-append prefix path, drop_text-append prefix path) refl

-- A URL that is not for SQLite does not begin with the prefix of a file's URL.
starts-server : (url : String) → is_sqlite url ≡ false → starts prefix url ≡ false
unfolding is_sqlite
starts-server url h = elim (Bool-cases (starts prefix url)) [
  | inr other ↦ other
  | inl file ↦
      let (path, e) = starts-split prefix url file in
      let begins =
        ap (starts "sqlite+aiosqlite://") (e ∙ append_assoc "sqlite+aiosqlite://" "/" path)
        ∙ starts-append "sqlite+aiosqlite://" ("/" ++ path) in
      absurd (ground (arith, begins, h))
]

module _ {Engine : Type 0} (p : Paths)
    (create_async_engine : String → EngineArguments → Outcome Engine) where
  -- What an engine for a kind of database comes with.
  abbrev pub ForSqlite : Settings → Created Engine → Type 0
  ForSqlite s c =
      (create_async_engine s.database_url (record {
        echo = s.database_echo;
        pool_pre_ping = s.database_pool_pre_ping;
        connect_timeout = some s.database_connect_timeout_seconds;
        pool_size = none;
        max_overflow = none;
      })
        ≡ returned c.engine)
      × (c.on_connect ≡ sqlite_pragmas s.sqlite)

  abbrev pub ForServer : Settings → Created Engine → Type 0
  ForServer s c =
      (create_async_engine s.database_url (record {
        echo = s.database_echo;
        pool_pre_ping = s.database_pool_pre_ping;
        connect_timeout = none;
        pool_size = some s.database_pool_size;
        max_overflow = some s.database_max_overflow;
      })
        ≡ returned c.engine)
      × (c.on_connect ≡ [])
      × (c.directory ≡ none)

  made : Settings → Engine → Created Engine
  made s engine = record {
    directory = ensure_sqlite_parent_exists p s.database_url;
    engine = engine;
    on_connect = if is_sqlite s.database_url then sqlite_pragmas s.sqlite else [];
  }

  directory-server :
      (url : String) → is_sqlite url ≡ false → ensure_sqlite_parent_exists p url ≡ none
  unfolding ensure_sqlite_parent_exists
  directory-server url h = rw (starts-server url h) refl

  outcome_made :
      (s : Settings) (o : Outcome Engine)
      → create_async_engine s.database_url (engine_arguments s.database) ≡ o
      → create_database_engine p create_async_engine s ≡ (o >>= λ engine. returned (made s engine))
  unfolding create_database_engine made
  outcome_made s o h = rw h refl

  for_kind :
      (s : Settings) (engine : Engine)
      → create_async_engine s.database_url (engine_arguments s.database) ≡ returned engine
      → ((is_sqlite s.database_url ≡ true) × ForSqlite s (made s engine))
        ⊎ ((is_sqlite s.database_url ≡ false) × ForServer s (made s engine))
  unfolding made
  for_kind s engine h = elim (Bool-cases (is_sqlite s.database_url)) [
    | inl file ↦ inl (
      file,
      (
        ap (create_async_engine s.database_url) (sym (arguments-sqlite s.database file)) ∙ h,
        rw file refl,
      ),
    )
    | inr server ↦ inr (
      server,
      (
        ap (create_async_engine s.database_url) (sym (arguments-server s.database server)) ∙ h,
        rw server refl,
        directory-server s.database_url server,
      ),
    )
  ]

  -- Whatever the URL, if the engine cannot be made the exception goes up, and else it is made in one of two ways: with
  -- a timeout, the pragmas on each connection and no pool sizes for a SQLite URL, and with pool sizes, no pragma
  -- and no directory for any other; for the URL of a SQLite file the directory of the file is there before, and
  -- for a database in memory none is made.
  create_database_engine_cases :
      (s : Settings)
      → ((e : Exn)
          → create_async_engine s.database_url (engine_arguments s.database) ≡ raised e
          → create_database_engine p create_async_engine s ≡ raised e)
        × ((engine : Engine)
            → create_async_engine s.database_url (engine_arguments s.database) ≡ returned engine
            → (c : Created Engine) × (create_database_engine p create_async_engine s ≡ returned c)
              × (c.engine ≡ engine)
              × (((is_sqlite s.database_url ≡ true) × ForSqlite s c)
                  ⊎ ((is_sqlite s.database_url ≡ false) × ForServer s c))
              × ((path : String)
                  → s.database_url ≡ prefix ++ path
                  → c.directory ≡ (
                      if starts ":memory:" path
                      then none
                      else some
                          (p.parent (if not (p.is_absolute path) then p.in_cwd path else path)))))
  create_database_engine_cases s = (
    λ e h. outcome_made s (raised e) h,
    λ engine h. (
      made s engine,
      outcome_made s (returned engine) h,
      unfold made in refl,
      for_kind s engine h,
      λ path url. unfold made in ap (ensure_sqlite_parent_exists p) url ∙ directory-sqlite p path,
    ),
  )
