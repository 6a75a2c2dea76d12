-- ===== src/Settings/Resolve.antt =====
-- The resolvers of derived defaults in src/app/settings.py. Each changes the settings in place: here
-- it returns the new value of the group of fields that it changes.
use Prim.Native.String.{◌++◌}
use fastapi_chassis.Base.{ℕ, String, Bool, not, ◌||◌, List, [], ◌∷◌, ◌==◌, if◌then◌else◌}
use fastapi_chassis.Base.Text.{is_true, print_nat, starts, drop_text}
use fastapi_chassis.Settings.Result.{Checked, ok, value_error, ◌>>=◌, ◌>>◌, raise_if}
use fastapi_chassis.Settings.Fields.{
  AppFields, LogFields, DatabaseFields, TelemetryFields, HardeningFields, RateLimitFields,
  CacheFields,
}

-- `s.replace(prefix, new, 1)` of a text that starts with a prefix of `n` characters
abbrev replace_prefix : ℕ → String → String → String
replace_prefix n new s = new ++ drop_text n s

unfoldable pub derive_alembic_database_url : String → Checked String
derive_alembic_database_url url =
    if starts "sqlite+aiosqlite://" url
    then ok (replace_prefix 19 "sqlite://" url)
    else if starts "postgresql+asyncpg://" url
    then ok (replace_prefix 21 "postgresql+psycopg://" url)
    else value_error "APP_ALEMBIC_DATABASE_URL must be set explicitly for this database URL"

unfoldable pub derive_database_url : DatabaseFields → Checked String
derive_database_url d =
    if d.database_backend == "sqlite"
    then ok ("sqlite+aiosqlite:///" ++ d.database_sqlite_path)
    else if d.database_backend == "postgres"
    then (do
      raise_if (not (is_true d.database_postgres_password))
          "APP_DATABASE_POSTGRES_PASSWORD must be set when APP_DATABASE_BACKEND=postgres"
      ok (
          "postgresql+asyncpg://"
          ++ (d.database_postgres_user
              ++ (":"
                  ++ (d.database_postgres_password
                      ++ ("@"
                          ++ (d.database_postgres_host
                              ++ (":"
                                  ++ (print_nat d.database_postgres_port
                                      ++ ("/" ++ d.database_postgres_name))))))))))
    else value_error "APP_DATABASE_URL must be set when APP_DATABASE_BACKEND=custom"

unfoldable pub build_redis_url : String → ℕ → ℕ → String → String
build_redis_url host port db password =
    let address = host ++ (":" ++ (print_nat port ++ ("/" ++ print_nat db))) in
    if is_true password
    then "redis://:" ++ (password ++ ("@" ++ address))
    else "redis://" ++ address

-- The bundled file is a parameter, as its path depends on where the package lies.
unfoldable pub resolve_logging_defaults : String → LogFields → LogFields
resolve_logging_defaults bundled l =
    if not (is_true l.logging_config_path) then record l { logging_config_path = bundled } else l

-- A setting, or what is derived for it if it is empty.
unfoldable pub given_or : String → Checked String → Checked String
given_or value derived = if is_true value then ok value else derived

unfoldable pub resolve_database_defaults : DatabaseFields → Checked DatabaseFields
unfolding given_or derive_database_url derive_alembic_database_url
resolve_database_defaults d = do
  url ← given_or d.database_url (derive_database_url d)
  sync_url ← given_or d.alembic_database_url (derive_alembic_database_url url)
  ok (record d { database_url = url; alembic_database_url = sync_url })

unfoldable pub resolve_otel_defaults : AppFields → TelemetryFields → TelemetryFields
resolve_otel_defaults a t = record t {
  otel_service_name = if not (is_true t.otel_service_name) then a.app_name else t.otel_service_name;
  otel_service_version =
      if not (is_true t.otel_service_version) then a.app_version else t.otel_service_version;
}

unfoldable pub resolve_rate_limit_storage_defaults : RateLimitFields → RateLimitFields
unfolding build_redis_url
resolve_rate_limit_storage_defaults r =
    if is_true r.rate_limit_storage_url || not (r.rate_limit_storage_backend == "redis")
    then r
    else record r {
      rate_limit_storage_url =
          build_redis_url r.redis_host r.redis_port r.redis_db r.redis_password;
    }

unfoldable pub resolve_cache_storage_defaults : RateLimitFields → CacheFields → CacheFields
unfolding build_redis_url
resolve_cache_storage_defaults r c =
    if is_true c.cache_storage_url || not (c.cache_backend == "redis") then c else record c {
      cache_storage_url =
          build_redis_url r.redis_host r.redis_port c.cache_redis_db r.redis_password;
    }

abbrev pub default_csp : String
default_csp = "default-src 'none'; frame-ancestors 'none'"

-- `"; ".join(directives)`
unfoldable pub join_directives : List String → String
join_directives [] = ""
join_directives (d ∷ []) = d
join_directives (d ∷ e ∷ ds) = d ++ ("; " ++ join_directives (e ∷ ds))

unfoldable pub docs_directives : Bool → List String
docs_directives redoc =
    "default-src 'none'"
    ∷ "connect-src 'self' https://cdn.jsdelivr.net"
    ∷ "script-src 'self' 'unsafe-inline' https://cdn.jsdelivr.net"
    ∷ (if redoc
        then "style-src 'self' 'unsafe-inline' https://cdn.jsdelivr.net https://fonts.googleapis.com"
          ∷ "img-src 'self' https://fastapi.tiangolo.com data: https://cdn.redoc.ly"
          ∷ "font-src 'self' https://fonts.gstatic.com" ∷ "worker-src 'self' blob:"
          ∷ "frame-ancestors 'none'" ∷ []
        else "style-src 'self' 'unsafe-inline' https://cdn.jsdelivr.net"
          ∷ "img-src 'self' https://fastapi.tiangolo.com" ∷ "frame-ancestors 'none'" ∷ [])

unfoldable pub resolve_csp_for_docs : AppFields → HardeningFields → HardeningFields
unfolding join_directives docs_directives
resolve_csp_for_docs a h =
    if not (a.docs_enabled || a.redoc_enabled)
    then h
    else if not (h.security_content_security_policy == default_csp)
    then h
    else record h {
      security_content_security_policy = join_directives (docs_directives a.redoc_enabled);
    }
