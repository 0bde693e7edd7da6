-- ===== src/Samples/Data.antt =====
-- Data for the tests: a user, a topic, a thread and its messages.
use ocm_agent_v.Common.{
  nat_eq, if◌then◌else◌, intent_failed, Outcome, ok, raised, ℕ, String, ◌<>◌, Bool, true, none,
  some, [], ◌∷◌,
}
use ocm_agent_v.Value.{Fields, end, str, arr, fields, dict}
use ocm_agent_v.Repo.Models.{Message, Db}
use ocm_agent_v.Plugin.Formats.{Formats}
use ocm_agent_v.Plugin.Auth.{Policy, authorize, representative_auth}
use ocm_agent_v.Plugin.Enrich.{text_items, enrich}
use ocm_agent_v.Graph.State.{AuthnIdentity, IntentResult, GraphState, no_update}
use ocm_agent_v.Graph.Events.{delta, ChatEvent}
use ocm_agent_v.Graph.Nodes.{RetryPolicy, finished, failed, Stream}
use ocm_agent_v.Topic.Config.{TopicConfig}
use ocm_agent_v.Chat.Flow.{CompiledTopic}
use ocm_agent_v.Chat.{ChatRequest}

abbrev pub plain : Formats
plain = record { repr = λ s. "'" <> s <> "'"; show_int = λ n. "n"; show_other = λ v. "v" }

abbrev pub claims : Fields
claims = fields (("role", str "REP") ∷ ("regions", arr (text_items ("huadong" ∷ []))) ∷ [])

abbrev pub user : AuthnIdentity
user = record { w3_account = "zhangsan"; raw_claims = claims }

abbrev pub biz_params : Fields
biz_params = fields (("region", str "huadong") ∷ [])

abbrev pub asking : GraphState
asking = record no_update {
  biz_id = some "sales";
  thread_id = some "th_1";
  identity = some user;
  question = some "how much";
  biz_params = some biz_params;
}

abbrev pub two_tries : RetryPolicy
two_tries = record { max_attempts = 2; backoff_ms = 100 }

abbrev pub delta_of : String → ChatEvent
delta_of s = record { type = delta; payload = dict (("content", str s) ∷ []); event_id = none }

-- The first stream breaks off, the second is whole.
abbrev pub streams : GraphState → Bool → ℕ → Stream
streams state output n =
    if nat_eq n 1 then (delta_of "a" ∷ [], failed) else (delta_of "b" ∷ [], finished)

abbrev pub data_route : IntentResult
data_route = record { route = "data"; confidence = 90; reason = "asks for data" }

-- The first call fails, the second answers.
abbrev pub classify : GraphState → ℕ → Outcome IntentResult
classify state n = if nat_eq n 1 then raised (intent_failed "timeout") else ok data_route

abbrev pub never : GraphState → ℕ → Outcome IntentResult
never state n = raised (intent_failed "timeout")

abbrev pub message : String → String → String → String → Message
message id thread role text = record {
  message_id = id;
  thread_id = thread;
  seq = 0;
  role = role;
  content = text;
  content_meta = end;
  status = "complete";
  route = none;
  request_id = none;
  created_at = none;
  ext = end;
}

abbrev pub question : Message
question = message "m1" "th_1" "user" "how much"

abbrev pub answer : Message
answer = message "m2" "th_1" "assistant" "much"

abbrev pub next_question : Message
next_question = message "m3" "th_1" "user" "how much more"

abbrev pub other_message : Message
other_message = message "m9" "th_2" "user" "hello"

-- One message of another thread.
abbrev pub some_db : Db
some_db = record { sessions = []; messages = record other_message { seq = 1 } ∷ [] }

abbrev pub policy : Policy
policy = representative_auth "REP"

abbrev pub config : TopicConfig
config = record {
  topic_id = "sales";
  display_name = "Sales";
  default_route = "data";
  max_turns = 3;
  auth = record { plugin = "representative_auth"; params = end };
  enrich = record { plugin = "generic_enrich"; params = end };
  intent = record {
    plugin = "llm_classifier";
    params = fields (("labels", arr (text_items ("data" ∷ []))) ∷ []);
    retry = none;
  };
  nodes =
      record { id = "ask_data"; adapter = "echo"; params = end; output = true; retry = none } ∷ [];
  edges = record { mapping = ("data", "ask_data") ∷ [] } ∷ [];
  biz_params_schema = fields (
      ("type", str "object")
      ∷ ("required", arr (text_items ("region" ∷ [])))
      ∷ ("properties", dict (("region", dict (("type", str "string") ∷ [])) ∷ []))
      ∷ []);
  error_messages =
      ("FORBIDDEN_TOPIC", "no")
      ∷ ("FORBIDDEN_SCOPE", "no")
      ∷ ("DOWNSTREAM_TIMEOUT", "late")
      ∷ ("DOWNSTREAM_ERROR", "broken")
      ∷ ("INTERNAL", "sorry")
      ∷ [];
}

abbrev pub topic : CompiledTopic
topic = record {
  topic_id = "sales";
  display_name = "Sales";
  default_route = "data";
  max_turns = 3;
  auth = authorize plain policy;
  enrich = λ state. ok (enrich plain ("region" ∷ []) state);
  intent = classify;
  adapters = ("ask_data", streams) ∷ [];
  biz_params_model = λ d. ok tt;
  error_messages = config.error_messages;
  config = config;
  intent_retry = some two_tries;
  adapter_retries = ("ask_data", two_tries) ∷ [];
}

abbrev pub request : ChatRequest
request = record {
  biz_id = "sales";
  thread_id = "th_1";
  w3_account = "zhangsan";
  question = "how much";
  request_id = "req_1";
  biz_params = biz_params;
  identity = some user;
}
