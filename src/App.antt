-- ===== src/App.antt =====
-- The process: src/ma/main.py, src/ma/infra/db.py, src/ma/api/health.py, src/ma/cli/replay.py, and
-- src/ma/core/plugin/bootstrap.py. asyncpg's `create_pool`, the reading of YAML and the plugins'
-- classes are parameters; the topics' files are an argument, in the order of their paths. Logging,
-- tracing and FastAPI's wiring of the routes are left out.
pub mod Startup
pub mod Logging
pub mod Replay
use ocm_agent_v.Common.{
  if◌then◌else◌, runtime_error, Outcome, ok, raised, ◌>>=◌, ℕ, String, Bool, true, false, Option,
  none, some, List, [], ◌∷◌, ◌++◌,
}
use ocm_agent_v.Value.{Fields, str}
use ocm_agent_v.Plugin.Registry.{Registry, register}
use ocm_agent_v.Plugin.Registry as PluginRegistry
use ocm_agent_v.Topic.Config.{TopicConfig, model_validate}
use ocm_agent_v.Topic.Registry as TopicRegistry
use ocm_agent_v.Chat.Flow.{CompiledTopic}
use ocm_agent_v.Chat.Compiler.{Methods, compile}

-- The classes that the modules of `bootstrap` register when they are imported.
pub data PluginClass : Type 0 where
  knowledge_center metagc uniioc : PluginClass
  jingying_auth representative_auth sales_contract_auth : PluginClass
  generic_enrich llm_classifier : PluginClass

abbrev pub plugin_modules : List (String × String × PluginClass)
plugin_modules =
    ("adapter", "knowledge_center", knowledge_center)
    ∷ ("adapter", "metagc", metagc)
    ∷ ("adapter", "uniioc", uniioc)
    ∷ ("auth", "jingying_auth", jingying_auth)
    ∷ ("auth", "representative_auth", representative_auth)
    ∷ ("auth", "sales_contract_auth", sales_contract_auth)
    ∷ ("enrich", "generic_enrich", generic_enrich)
    ∷ ("intent", "llm_classifier", llm_classifier)
    ∷ []

abbrev pub Plugins : Type 0
Plugins = Registry PluginClass

abbrev pub import_all : List (String × String × PluginClass) → Plugins → Outcome Plugins
import_all [] plugins = ok plugins
import_all ((kind, name, c) ∷ modules) plugins = do
  plugins' ← PluginRegistry.register (some (str kind)) (some (str name)) c plugins
  import_all modules plugins'

-- The first call in a process; the modules of a later one are imported already.
unfoldable pub load_all_plugins : Outcome Plugins
unfolding PluginRegistry.register
load_all_plugins = import_all plugin_modules []

-- What the start reads of `Settings`.
pub record Settings : Type 0 where
  pub pg_dsn_rw : Option String
  pub pg_dsn_ro : Option String
  pub pg_pool_min : ℕ
  pub pg_pool_max : ℕ

pub data RepoClass : Type 0 where
  session_repository message_repository : RepoClass

module _ (Pool : Type 0) where
  pub record RepoFactory : Type 0 where
    pub pool : Pool
    pub repo_cls : RepoClass

  pub record ChatService : Type 0 where
    pub topics : List (String × CompiledTopic)
    pub sessions : RepoFactory
    pub messages : RepoFactory

  -- `app.state` with the flag of `health`, and the pools that were opened and closed so far.
  pub record App : Type 0 where
    pub ready : Bool
    pub pg_pool_rw : Option Pool
    pub pg_pool_ro : Option Pool
    pub topic_registry : List (String × CompiledTopic)
    pub chat_service : Option ChatService
    pub session_repo_factory : Option RepoFactory
    pub message_repo_factory : Option RepoFactory
    pub opened : List Pool
    pub closed : List Pool

-- The code of the answer, and its status.
abbrev pub readyz : {Pool : Type 0} → App Pool → ℕ × String
readyz app = if app.ready then (200, "ready") else (503, "not_ready")

module _ {Pool : Type 0} where
  abbrev pub mark_ready : App Pool → App Pool
  mark_ready app = record app { ready = true }

  abbrev pub mark_not_ready : App Pool → App Pool
  mark_not_ready app = record app { ready = false }

  abbrev pub opens : Pool → App Pool → App Pool
  opens pool app = record app { opened = app.opened ++ pool ∷ [] }

  abbrev pub closes : Pool → App Pool → App Pool
  closes pool app = record app { closed = app.closed ++ pool ∷ [] }

  -- The rest of an action, if it did not raise.
  abbrev pub and_then :
      {A B : Type 0}
      → Outcome A × App Pool
      → (A → App Pool → Outcome B × App Pool)
      → Outcome B × App Pool
  and_then (raised e, app) k = (raised e, app)
  and_then (ok a, app) k = k a app

  -- Step 7 and the factories of the REST endpoints.
  abbrev pub with_services : Option Pool → App Pool → App Pool
  with_services none app = record app {
    chat_service = none;
    session_repo_factory = none;
    message_repo_factory = none;
  }
  with_services (some pool) app =
      let sessions : RepoFactory Pool = record { pool = pool; repo_cls = session_repository } in
      let messages : RepoFactory Pool = record { pool = pool; repo_cls = message_repository } in
      record app {
        chat_service =
            some (record { topics = app.topic_registry; sessions = sessions; messages = messages });
        session_repo_factory = some sessions;
        message_repo_factory = some messages;
      }

  -- Steps 7 to 9, and `app.state.topic_registry`.
  abbrev pub publish :
      Outcome (List (String × CompiledTopic)) → App Pool → Outcome (Unit {0}) × App Pool
  publish (raised e) app = (raised e, app)
  publish (ok topics) app =
      let app' : App Pool = record app { topic_registry = topics } in
      (ok tt, mark_ready (with_services app'.pg_pool_rw app'))

  abbrev pub close_ro : Option Pool → App Pool → App Pool
  close_ro none app = app
  close_ro (some pool) app = closes pool app

  -- `close_pools`
  abbrev pub close_pools : Pool → Option Pool → App Pool → App Pool
  close_pools rw_pool ro_pool app = close_ro ro_pool (closes rw_pool app)

  abbrev pub close_if_open : Option Pool → Option Pool → App Pool → App Pool
  close_if_open none ro_pool app = app
  close_if_open (some rw_pool) ro_pool app = close_pools rw_pool ro_pool app

  -- The `lifespan` after its `yield`.
  unfoldable pub shut_down : App Pool → App Pool
  shut_down app = close_if_open app.pg_pool_rw app.pg_pool_ro (mark_not_ready app)

  abbrev pub keep_pools : Pool × Option Pool → App Pool → Outcome (Unit {0}) × App Pool
  keep_pools (rw_pool, ro_pool) app =
      (ok tt, record app { pg_pool_rw = some rw_pool; pg_pool_ro = ro_pool })

  -- What `asyncpg.create_pool` comes to.
  abbrev pub opened_pool : Outcome Pool → App Pool → Outcome Pool × App Pool
  opened_pool (raised e) app = (raised e, app)
  opened_pool (ok pool) app = (ok pool, opens pool app)

  module _ (connect : String → ℕ → ℕ → Outcome Pool) where
    abbrev pub create_pool : Settings → String → App Pool → Outcome Pool × App Pool
    create_pool settings dsn app =
        opened_pool (connect dsn settings.pg_pool_min settings.pg_pool_max) app

    abbrev pub create_ro :
        Settings → Option String → Pool → App Pool → Outcome (Pool × Option Pool) × App Pool
    create_ro settings none rw_pool app = (ok (rw_pool, none), app)
    create_ro settings (some dsn) rw_pool app =
        and_then (create_pool settings dsn app) (λ ro_pool app. (ok (rw_pool, some ro_pool), app))

    abbrev pub create_pools :
        Settings → Option String → App Pool → Outcome (Pool × Option Pool) × App Pool
    create_pools settings none app = (
      raised (runtime_error "MA_PG_DSN_RW is required to start the service; cannot create DB pool"),
      app,
    )
    create_pools settings (some dsn) app =
        and_then (create_pool settings dsn app) (create_ro settings settings.pg_dsn_ro)

    -- Step 4: without a DSN there are no pools.
    abbrev pub connect_if : Settings → Option String → App Pool → Outcome (Unit {0}) × App Pool
    connect_if settings none app = (ok tt, record app { pg_pool_rw = none; pg_pool_ro = none })
    connect_if settings (some dsn) app = and_then (create_pools settings (some dsn) app) keep_pools

    unfoldable pub connect_db : Settings → App Pool → Outcome (Unit {0}) × App Pool
    connect_db settings app = connect_if settings settings.pg_dsn_rw app

-- The files of the directory of topics, or none if there is no such directory.
abbrev pub documents_of : {Document : Type 0} → Option (List Document) → List Document
documents_of none = []
documents_of (some docs) = docs

module _ {Document Instance : Type 0} (parse : Document → Outcome TopicConfig)
    (methods : Methods Instance) (build : PluginClass → Fields → Outcome Instance)
    (env : List (String × String)) where
  -- One file: it is read, validated and compiled.
  unfoldable pub compile_document : Plugins → Document → Outcome CompiledTopic
  compile_document plugins doc = do
    raw ← parse doc
    cfg ← model_validate raw
    compile methods build plugins env cfg

  -- Step 6: the loop over the files.
  unfoldable pub load_topics :
      Plugins
      → List Document
      → List (String × CompiledTopic)
      → Outcome (List (String × CompiledTopic))
  load_topics plugins [] topics = ok topics
  load_topics plugins (doc ∷ docs) topics = do
    topic ← compile_document plugins doc
    topics' ← TopicRegistry.register topic.topic_id topic topics
    load_topics plugins docs topics'

  module _ {Pool : Type 0} (connect : String → ℕ → ℕ → Outcome Pool) where
    -- The `lifespan` up to its `yield`.
    unfoldable pub start_up :
        Settings → Option (List Document) → App Pool → Outcome (Unit {0}) × App Pool
    unfolding connect_db load_topics load_all_plugins
    start_up settings dir app = and_then (connect_db connect settings app) λ _ app.
        publish (load_all_plugins >>= λ plugins. load_topics plugins (documents_of dir) []) app
