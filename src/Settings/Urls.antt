-- ===== src/Settings/Urls.antt =====
-- The two database URLs that src/app/settings.py derives name the same database.
use Prim.Native.String.{◌++◌}
use fastapi_chassis.Base.{String, ◌==◌, ◌≡◌, refl, ◌⊎◌, inl, inr, arith, Bool-cases, ap, sym, ◌∙◌}
use text.Mathlib.TextLemmas.{append_assoc}
use fastapi_chassis.Base.Text.{print_nat}
use fastapi_chassis.Base.Text.Search.{starts-append, drop_text-append, differ, starts-append_differ}
use fastapi_chassis.Settings.Result.{ok}
use fastapi_chassis.Settings.Fields.{DatabaseFields}
use fastapi_chassis.Settings.Resolve.{derive_alembic_database_url, derive_database_url}

-- An asynchronous URL with the synchronous URL of the same rest: host, user and path
abbrev pub AreTwins : String → String → Type 0
AreTwins url sync_url =
    (rest : String) × (((url ≡ "sqlite+aiosqlite://" ++ rest) × (sync_url ≡ "sqlite://" ++ rest))
      ⊎ ((url ≡ "postgresql+asyncpg://" ++ rest) × (sync_url ≡ "postgresql+psycopg://" ++ rest)))

sqlite_alembic :
    (rest : String)
    → derive_alembic_database_url ("sqlite+aiosqlite://" ++ rest) ≡ ok ("sqlite://" ++ rest)
unfolding derive_alembic_database_url
sqlite_alembic rest =
    rw (starts-append "sqlite+aiosqlite://" rest, drop_text-append "sqlite+aiosqlite://" rest)

postgres_alembic :
    (rest : String)
    → derive_alembic_database_url ("postgresql+asyncpg://" ++ rest)
      ≡ ok ("postgresql+psycopg://" ++ rest)
unfolding derive_alembic_database_url differ
postgres_alembic rest = rw (
  starts-append_differ "sqlite+aiosqlite://" "postgresql+asyncpg://" rest refl,
  starts-append "postgresql+asyncpg://" rest,
  drop_text-append "postgresql+asyncpg://" rest,
)

twins_sqlite :
    (path url : String)
    → "sqlite+aiosqlite://" ++ ("/" ++ path) ≡ url
    → (sync_url : String) × (derive_alembic_database_url url ≡ ok sync_url) × AreTwins url sync_url
twins_sqlite path url h = (
  "sqlite://" ++ ("/" ++ path),
  ap derive_alembic_database_url (sym h) ∙ sqlite_alembic ("/" ++ path),
  ("/" ++ path, inl (sym h, refl)),
)

twins_postgres :
    (rest url : String)
    → "postgresql+asyncpg://" ++ rest ≡ url
    → (sync_url : String) × (derive_alembic_database_url url ≡ ok sync_url) × AreTwins url sync_url
twins_postgres rest url h = (
  "postgresql+psycopg://" ++ rest,
  ap derive_alembic_database_url (sym h) ∙ postgres_alembic rest,
  (rest, inr (sym h, refl)),
)

abbrev postgres_address : DatabaseFields → String
postgres_address d =
    d.database_postgres_user
    ++ (":"
        ++ (d.database_postgres_password
            ++ ("@"
                ++ (d.database_postgres_host
                    ++ (":"
                        ++ (print_nat d.database_postgres_port
                            ++ ("/" ++ d.database_postgres_name)))))))

-- If a database URL is derived then the Alembic URL that is derived from it exists and names the
-- same database: the driver alone differs.
pub derive_alembic-derive_database_url :
    (d : DatabaseFields) (url : String)
    → derive_database_url d ≡ ok url
    → (sync_url : String) × (derive_alembic_database_url url ≡ ok sync_url) × AreTwins url sync_url
unfolding derive_database_url
derive_alembic-derive_database_url d url h = elim (Bool-cases (d.database_backend == "sqlite")) [
  | inl e ↦
      twins_sqlite d.database_sqlite_path url
        (sym (append_assoc "sqlite+aiosqlite://" "/" d.database_sqlite_path) ∙ ground arith)
  | inr e ↦ twins_postgres (postgres_address d) url (ground arith)
]
