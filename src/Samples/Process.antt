-- ===== src/Samples/Process.antt =====
-- Tests of the process: its start, its end, its logs and the replay of a request.
use ocm_agent_v.Common.{
  put, if◌then◌else◌, Outcome, ok, ℕ, String, ◌≡◌, refl, ◌⊎◌, true, none, some, [], ◌∷◌, ◌++◌, ◌==◌,
}
use ocm_agent_v.Value.{in_text, end, Fields, Value, str, fields, lookup}
use ocm_agent_v.Repo.Models.{Timestamp, Message, Db}
use ocm_agent_v.Repo.Messages.{numbered}
use ocm_agent_v.Plugin.Registry.{create}
use ocm_agent_v.Topic.Config.{TopicConfig, model_validate}
use ocm_agent_v.Topic.Environment.{placeholder, resolve_env}
use ocm_agent_v.Chat.Flow.{CompiledTopic}
use ocm_agent_v.Chat.Compiler.{Methods, compiled, compile}
use ocm_agent_v.App.{
  compile_document, representative_auth, generic_enrich, llm_classifier, metagc, with_services,
  mark_ready, opens, Settings, App, PluginClass, plugin_modules, start_up, shut_down, readyz,
}
use ocm_agent_v.App.Startup.{fresh}
use ocm_agent_v.App.Startup.Serving.{
  IsStarted, start_up_serves, shut_down_closes, start_up_gets_ready,
}
use ocm_agent_v.App.Logging.{IsSecret, sanitize, sanitize_hides}
use ocm_agent_v.Samples.Data.{
  config, topic, streams, classify, question, answer, other_message, some_db,
}

abbrev lower : String → String
lower s = if s == "Token" then "token" else s

abbrev logged : Fields
logged = fields (("Token", str "secret") ∷ ("event", str "hello") ∷ [])

sanitize_hides_example :
    let shown = lookup "Token" (sanitize lower logged) in
    (IsSecret "token"
      × (((lookup "Token" logged ≡ none) × (shown ≡ none))
          ⊎ ((v : Value) × (lookup "Token" logged ≡ some v) × (shown ≡ some (str "***")))))
    ⊎ ((¬ IsSecret "token") × (shown ≡ lookup "Token" logged))
sanitize_hides_example = sanitize_hides lower "Token" logged

abbrev settings : Settings
settings = record {
  pg_dsn_rw = some "rw";
  pg_dsn_ro = some "ro";
  pg_pool_min = 4;
  pg_pool_max = 32;
}

-- A pool is the text of its DSN, and a document is a configuration.
abbrev connect : String → ℕ → ℕ → Outcome String
connect dsn lo hi = ok dsn

abbrev parse : TopicConfig → Outcome TopicConfig
parse cfg = ok cfg

abbrev methods : Methods PluginClass
methods = record {
  authorizes = λ i. topic.auth;
  enriches = λ i. topic.enrich;
  classifies = λ i. classify;
  runs = λ i. streams;
  model = λ model d. ok tt;
}

abbrev build : PluginClass → Fields → Outcome PluginClass
build c params = ok c

-- A topic that asks MetaGC.
abbrev metagc_config : TopicConfig
metagc_config = record config {
  nodes =
      record { id = "ask_data"; adapter = "metagc"; params = end; output = true; retry = none }
      ∷ [];
}

abbrev metagc_topic : CompiledTopic
metagc_topic =
    compiled methods build plugin_modules metagc_config representative_auth generic_enrich
      llm_classifier (("ask_data", metagc) ∷ []) (("region", true) ∷ [])

compiled_now :
    compile_document parse methods build [] plugin_modules metagc_config ≡ ok metagc_topic
unfolding compile_document model_validate compile resolve_env create put placeholder in_text
compiled_now = refl

start_up_gets_ready_example :
    (app : App String) × (start_up parse methods build [] connect settings
        (some (metagc_config ∷ []))
        fresh
      ≡ (ok tt, app))
    × (readyz app ≡ (200, "ready"))
    × (app.topic_registry ≡ ("sales", metagc_topic) ∷ [])
start_up_gets_ready_example =
    start_up_gets_ready parse methods build [] connect settings (some (metagc_config ∷ []))
      (metagc_topic ∷ []) (λ dsn. (dsn, refl)) (compiled_now, tt) (tt, tt)

start_up_serves_example :
    let r = start_up parse methods build [] connect settings (some (metagc_config ∷ [])) fresh in
    IsStarted parse methods build [] connect (some (metagc_config ∷ [])) r.0 r.1
start_up_serves_example =
    start_up_serves parse methods build [] connect settings (some (metagc_config ∷ []))

-- The process with no topics.
abbrev started : App String
started = mark_ready (
    with_services (some "rw")
      (record (opens "ro" (opens "rw" fresh)) { pg_pool_rw = some "rw"; pg_pool_ro = some "ro" }))

started_now : start_up parse methods build [] connect settings none fresh ≡ (ok tt, started)
unfolding start_up
started_now = refl

shut_down_closes_example :
    ((shut_down started).closed ≡ "rw" ∷ "ro" ∷ [])
    × (readyz (shut_down started) ≡ (503, "not_ready"))
shut_down_closes_example =
    shut_down_closes parse methods build [] connect settings none started started_now

abbrev asked : Message
asked = record question { request_id = some "req_1" }

abbrev replied : Message
replied = record answer { request_id = some "req_1" }

abbrev iso : Timestamp → String
iso t = "t"

abbrev stored : Message
stored = numbered 1 asked some_db.messages

abbrev asked_db : Db
asked_db = record some_db { messages = some_db.messages ++ stored ∷ [] }

-- Another thread goes on in the meantime.
abbrev interleaved : Db
interleaved = record asked_db {
  messages = asked_db.messages ++ record other_message { message_id = "m8"; seq = 2 } ∷ [];
}

abbrev answered_db : Db
answered_db = record interleaved {
  messages = interleaved.messages ++ numbered 2 replied interleaved.messages ∷ [];
}
