-- ===== src/App/Startup/Serving.antt =====
-- The whole `lifespan`: when the process is ready, what it serves, and what its end closes.
use ocm_agent_v.Common.{
  All, Outcome, ok, raised, ◌>>=◌, >>=-eq-ok, find_entry, is_entry, ℕ, String, ◌≡◌, refl, sym, ap,
  ◌∙◌, subst, false, Option, none, some, List, [], ◌∷◌,
}
use ocm_agent_v.Value.{Fields}
use ocm_agent_v.Topic.Config.{TopicConfig}
use ocm_agent_v.Chat.Flow.{CompiledTopic}
use ocm_agent_v.Chat.Compiler.{Methods}
use ocm_agent_v.App.{
  PluginClass, Plugins, plugin_modules, load_all_plugins, Settings, App, readyz, mark_ready,
  mark_not_ready, opens, and_then, with_services, publish, close_if_open, shut_down, keep_pools,
  create_ro, connect_if, connect_db, documents_of, load_topics, start_up,
}
use ocm_agent_v.App.Startup.{fresh, pools_of, HasItsPools, AfterStep, connect_db-AfterStep}
use ocm_agent_v.App.Startup.Topics.{
  HasDistinctIds, by_id, IsServed, load_topics_serves, CompileTo, load_topics_registers,
}

-- No two of the plugins have the same kind and name.
load_all_plugins_lem : load_all_plugins ≡ ok plugin_modules
unfolding load_all_plugins
load_all_plugins_lem = refl

with_services-keeps :
    {Pool : Type 0} (pool : Option Pool) (app : App Pool)
    → let app' = with_services pool app in
      (app'.opened ≡ app.opened)
      × (app'.closed ≡ app.closed)
      × (app'.pg_pool_rw ≡ app.pg_pool_rw)
      × (app'.pg_pool_ro ≡ app.pg_pool_ro)
      × (app'.topic_registry ≡ app.topic_registry)
      × (is_entry app'.chat_service ≡ is_entry pool)
with_services-keeps none app = (refl, refl, refl, refl, refl, refl)
with_services-keeps (some pool) app = (refl, refl, refl, refl, refl, refl)

close_if_open-closes :
    {Pool : Type 0} (rw_pool ro_pool : Option Pool) (app : App Pool)
    → app.closed ≡ []
    → let app' = close_if_open rw_pool ro_pool (mark_not_ready app) in
      (app'.closed ≡ pools_of rw_pool ro_pool) × (app'.ready ≡ false)
close_if_open-closes none ro_pool app h = (h, refl)
close_if_open-closes (some p) none app h = (rw h refl, refl)
close_if_open-closes (some p) (some q) app h = (rw h refl, refl)

All-new :
    (loaded : List CompiledTopic)
    → All (λ (u : CompiledTopic). find_entry {A = CompiledTopic} u.topic_id [] ≡ none) loaded
All-new [] = tt
All-new (t ∷ ts) = (refl, All-new ts)

module _ {Document Instance Pool : Type 0} (parse : Document → Outcome TopicConfig)
    (methods : Methods Instance) (build : PluginClass → Fields → Outcome Instance)
    (env : List (String × String)) (connect : String → ℕ → ℕ → Outcome Pool) where
  -- The topics of all the files.
  abbrev loaded : Option (List Document) → Outcome (List (String × CompiledTopic))
  loaded dir = load_all_plugins >>= λ plugins.
      load_topics parse methods build env plugins (documents_of dir) []

  -- What a start comes to: the process is not ready, or it is, with a service exactly if it has a
  -- pool, holding the pools that were opened, and with the topic of each file.
  abbrev pub IsStarted : Option (List Document) → Outcome (Unit {0}) → App Pool → Type 0
  IsStarted dir (raised e) app = readyz app ≡ (503, "not_ready")
  IsStarted dir (ok _) app =
      (readyz app ≡ (200, "ready"))
      × (is_entry app.chat_service ≡ is_entry app.pg_pool_rw)
      × HasItsPools app
      × ((plugins : Plugins) × (load_all_plugins ≡ ok plugins)
          × All (IsServed parse methods build env plugins app.topic_registry) (documents_of dir))

  publish-IsStarted :
      (dir : Option (List Document)) (topics : Outcome (List (String × CompiledTopic)))
      (app : App Pool)
      → loaded dir ≡ topics
      → HasItsPools app
      → app.ready ≡ false
      → let r = publish topics app in IsStarted dir r.0 r.1
  publish-IsStarted dir (raised e) app h own idle = rw idle refl
  publish-IsStarted dir (ok topics) app h (o, c) idle =
      let (plugins, l, m) =
        >>=-eq-ok load_all_plugins
          (λ plugins. load_topics parse methods build env plugins (documents_of dir) []) h in
      let (opened, closed, rw_same, ro_same, same, service) =
        with_services-keeps app.pg_pool_rw (record app { topic_registry = topics }) in
      (
        refl,
        rw rw_same service,
        (rw (opened, rw_same, ro_same) o, rw closed c),
        (
          plugins,
          l,
          rw same
              (load_topics_serves parse methods build env plugins (documents_of dir) [] topics m),
        ),
      )

  connected-IsStarted :
      (dir : Option (List Document)) (result : Outcome (Unit {0})) (app : App Pool)
      → AfterStep result app
      → let r = and_then (result, app) (λ _ app. publish (loaded dir) app) in IsStarted dir r.0 r.1
  connected-IsStarted dir (ok _) app (own, idle) =
      publish-IsStarted dir (loaded dir) app refl own idle
  connected-IsStarted dir (raised e) app idle = rw idle refl

  -- A start either raises and the process is not ready; or it returns, and then the process is
  -- ready, has a ChatService exactly if it has a pool, holds exactly the pools that it has opened,
  -- and finds the topic of each file of the directory by its id, as it was compiled.
  pub start_up_serves :
      (settings : Settings) (dir : Option (List Document))
      → let r = start_up parse methods build env connect settings dir fresh in IsStarted dir r.0 r.1
  unfolding start_up
  start_up_serves settings dir =
      let r = connect_db connect settings fresh in
      connected-IsStarted dir r.0 r.1 (connect_db-AfterStep connect settings)

  -- After a start that returned, the end of the process closes every pool that was opened, once and
  -- in the order of the opening, and the process is no longer ready.
  pub shut_down_closes :
      (settings : Settings) (dir : Option (List Document)) (app : App Pool)
      → start_up parse methods build env connect settings dir fresh ≡ (ok tt, app)
      → ((shut_down app).closed ≡ app.opened) × (readyz (shut_down app) ≡ (503, "not_ready"))
  unfolding shut_down
  shut_down_closes settings dir app h =
      let (ready, service, (o, c), topics) =
        subst (λ (r : Outcome (Unit {0}) × App Pool). IsStarted dir r.0 r.1) h
          (start_up_serves settings dir) in
      let (closed, idle) = close_if_open-closes app.pg_pool_rw app.pg_pool_ro app c in
      (unfold shut_down in closed ∙ sym o, unfold shut_down in rw idle refl)

  -- Every connection that is asked for is made.
  abbrev pub Connects : Settings → Type 0
  Connects settings =
      (dsn : String) → (p : Pool) × (connect dsn settings.pg_pool_min settings.pg_pool_max ≡ ok p)

  create_ro_ok :
      (settings : Settings) (dsn : Option String) (p : Pool) (app : App Pool)
      → Connects settings
      → (app' : App Pool) × (and_then (create_ro connect settings dsn p app) keep_pools
          ≡ (ok tt, app'))
  create_ro_ok settings none p app connects = (_, refl)
  create_ro_ok settings (some d) p app connects =
      let (q, e) = connects d in
      (record (opens q app) { pg_pool_rw = some p; pg_pool_ro = some q }, rw e refl)

  connect_if_ok :
      (settings : Settings) (dsn : Option String)
      → Connects settings
      → (app : App Pool) × (connect_if connect settings dsn fresh ≡ (ok tt, app))
  connect_if_ok settings none connects = (_, refl)
  connect_if_ok settings (some d) connects =
      let (p, e) = connects d in
      let (app, h) = create_ro_ok settings settings.pg_dsn_ro p (opens p fresh) connects in
      (app, rw e h)

  -- If every connection that is asked for is made, and the files are valid and give topics with
  -- distinct ids, then the start returns, the process is ready, and the topics are those of the
  -- files, in their order.
  pub start_up_gets_ready :
      (settings : Settings) (dir : Option (List Document)) (expected : List CompiledTopic)
      → Connects settings
      → CompileTo parse methods build env plugin_modules (documents_of dir) expected
      → HasDistinctIds expected
      → (app : App Pool) × (start_up parse methods build env connect settings dir fresh
          ≡ (ok tt, app))
        × (readyz app ≡ (200, "ready"))
        × (app.topic_registry ≡ by_id expected)
  start_up_gets_ready settings dir expected connects h distinct =
      let (app, c) = connect_if_ok settings settings.pg_dsn_rw connects in
      let topics =
        load_topics_registers parse methods build env plugin_modules (documents_of dir) expected []
          h (All-new expected) distinct in
      let found : loaded dir ≡ ok (by_id expected) =
        ap
          (λ (r : Outcome Plugins).
            r >>= λ plugins. load_topics parse methods build env plugins (documents_of dir) [])
          load_all_plugins_lem
        ∙ topics in
      let (_, _, _, _, same, _) =
        with_services-keeps app.pg_pool_rw (record app { topic_registry = by_id expected }) in
      (
        mark_ready (with_services app.pg_pool_rw (record app { topic_registry = by_id expected })),
        unfold start_up in
            ap
              (λ (r : Outcome (Unit {0}) × App Pool).
                and_then r (λ _ app. publish (loaded dir) app))
              (unfold connect_db in c)
            ∙ ap (λ (r : Outcome (List (String × CompiledTopic))). publish r app) found,
        refl,
        same,
      )
