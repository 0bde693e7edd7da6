-- ===== src/App/Startup.antt =====
-- What a start of the process leads to: the topics, the flag of readiness and the pools.
pub mod Topics
pub mod Serving
use ocm_agent_v.Common.{
  Outcome, ok, raised, ℕ, String, ◌≡◌, refl, false, Option, none, some, List, [], ◌∷◌, ◌>>=◌,
}
use ocm_agent_v.App.{
  Settings, App, opens, and_then, keep_pools, opened_pool, create_ro, connect_if, connect_db,
}

-- A process that has begun nothing.
abbrev pub fresh : {Pool : Type 0} → App Pool
fresh = record {
  ready = false;
  pg_pool_rw = none;
  pg_pool_ro = none;
  topic_registry = [];
  chat_service = none;
  session_repo_factory = none;
  message_repo_factory = none;
  opened = [];
  closed = [];
}

-- What `pg_pool_rw` and `pg_pool_ro` hold.
abbrev pub pools_of : {Pool : Type 0} → Option Pool → Option Pool → List Pool
pools_of none ro_pool = []
pools_of (some rw_pool) none = rw_pool ∷ []
pools_of (some rw_pool) (some ro_pool) = rw_pool ∷ ro_pool ∷ []

-- A process whose pools are those that it has opened.
abbrev pub HasItsPools : {Pool : Type 0} → App Pool → Type 0
HasItsPools app = (app.opened ≡ pools_of app.pg_pool_rw app.pg_pool_ro) × (app.closed ≡ [])

-- A part of the start that returned holds the pools that it opened; one that raised is not ready.
abbrev pub AfterStep : {Pool : Type 0} → Outcome (Unit {0}) → App Pool → Type 0
AfterStep (ok _) app = HasItsPools app × (app.ready ≡ false)
AfterStep (raised e) app = app.ready ≡ false

module _ {Pool : Type 0} (connect : String → ℕ → ℕ → Outcome Pool) (settings : Settings) where
  abbrev first_pool : Pool → App Pool
  first_pool rw_pool = opens rw_pool fresh

  opened_ro-AfterStep :
      (rw_pool : Pool) (ro_pool : Outcome Pool)
      → let r =
          and_then
            (and_then
              (opened_pool ro_pool (first_pool rw_pool))
              (λ p app. (ok (rw_pool, some p), app)))
            keep_pools in
        AfterStep r.0 r.1
  opened_ro-AfterStep rw_pool (ok p) = ((refl, refl), refl)
  opened_ro-AfterStep rw_pool (raised e) = refl

  create_ro-AfterStep :
      (rw_pool : Pool) (dsn : Option String)
      → let r = and_then (create_ro connect settings dsn rw_pool (first_pool rw_pool)) keep_pools in
        AfterStep r.0 r.1
  create_ro-AfterStep rw_pool none = ((refl, refl), refl)
  create_ro-AfterStep rw_pool (some dsn) =
      opened_ro-AfterStep rw_pool (connect dsn settings.pg_pool_min settings.pg_pool_max)

  opened_rw-AfterStep :
      (rw_pool : Outcome Pool)
      → let r =
          and_then
            (and_then (opened_pool rw_pool fresh) (create_ro connect settings settings.pg_dsn_ro))
            keep_pools in
        AfterStep r.0 r.1
  opened_rw-AfterStep (ok p) = create_ro-AfterStep p settings.pg_dsn_ro
  opened_rw-AfterStep (raised e) = refl

  connect_if-AfterStep :
      (dsn : Option String) → let r = connect_if connect settings dsn fresh in AfterStep r.0 r.1
  connect_if-AfterStep none = ((refl, refl), refl)
  connect_if-AfterStep (some dsn) =
      opened_rw-AfterStep (connect dsn settings.pg_pool_min settings.pg_pool_max)

  pub connect_db-AfterStep : let r = connect_db connect settings fresh in AfterStep r.0 r.1
  unfolding connect_db
  connect_db-AfterStep = connect_if-AfterStep settings.pg_dsn_rw
