-- ===== src/Chat/Flow.antt =====
-- src/ma/core/chat_service.py: the graph that `ChatService._build_graph` describes to LangGraph,
-- and the CompiledTopic of src/ma/core/topic/compiler.py that it reads.
use ocm_agent_v.Common.{
  if◌then◌else◌, value_error, Outcome, ok, raised, find_entry, ℕ, String, Bool, true, Option, none,
  some, List, [], ◌∷◌, ◌++◌, ◌>>=◌,
}
use ocm_agent_v.Value.{Fields}
use ocm_agent_v.Repo.Models.{Timestamp, Db}
use ocm_agent_v.Plugin.Formats.{Formats}
use ocm_agent_v.Graph.State.{AuthResult, EnrichResult, IntentResult, GraphState}
use ocm_agent_v.Graph.Trace.{Run, lift}
use ocm_agent_v.Graph.Nodes.{RetryPolicy, auth_node, enrich_node, intent_node, Stream, adapter_node}
use ocm_agent_v.Graph.Builtins.{require, load_session_node, reject_node, persist_node}
use ocm_agent_v.Topic.Config.{ConditionalEdge, TopicConfig, keys}

-- A plugin is held as the function of its method; the `n` of a call counts the calls of one run.
-- `biz_params_model` is pydantic's `model_validate`.
pub record CompiledTopic : Type 0 where
  pub topic_id : String
  pub display_name : String
  pub default_route : String
  pub max_turns : ℕ
  pub auth : GraphState → Outcome AuthResult
  pub enrich : GraphState → Outcome EnrichResult
  pub intent : GraphState → ℕ → Outcome IntentResult
  pub adapters : List (String × (GraphState → Bool → ℕ → Stream))
  pub biz_params_model : Fields → Outcome (Unit {0})
  pub error_messages : List (String × String)
  pub config : TopicConfig
  pub intent_retry : Option RetryPolicy
  pub adapter_retries : List (String × RetryPolicy)

-- A node at a time: what it does, what it returns, and the database that it leaves.
abbrev pub Node : Type 0
Node = Timestamp → GraphState → Db → Run GraphState × Db

abbrev pub graph_start : String
graph_start = "__start__"

abbrev pub graph_end : String
graph_end = "__end__"

pub data Edge : Type 0 where
  edge : String → String → Edge
  conditional : String → (GraphState → Outcome String) → List (String × String) → Edge

pub record StateGraph : Type 0 where
  pub nodes : List (String × Node)
  pub edges : List Edge

-- A node that does not reach the database, and one that does nothing else.
abbrev pub pure_node : (GraphState → Run GraphState) → Node
pure_node node now state db = (node state, db)

abbrev pub db_node : (Timestamp → GraphState → Db → Outcome GraphState × Db) → Node
db_node node now state db = let (r, db') = node now state db in (lift r, db')

-- `lambda s: "reject" if not s["auth"].passed else "enrich"`
abbrev pub after_auth : GraphState → Outcome String
after_auth s = do auth ← require "auth" s.auth; ok (if auth.passed then "enrich" else "reject")

-- `lambda s: s.get("route", topic.default_route)`
abbrev pub after_intent : String → GraphState → Outcome String
after_intent default_route s = ok (elim s.route [ none ↦ default_route | some route ↦ route ])

abbrev pub adapter_nodes :
    Formats
    → List (String × RetryPolicy)
    → List (String × (GraphState → Bool → ℕ → Stream))
    → List (String × Node)
adapter_nodes f retries [] = []
adapter_nodes f retries ((id, run) ∷ rest) =
    (id, pure_node (adapter_node f run true (find_entry id retries))) ∷ adapter_nodes f retries rest

abbrev pub adapter_edges {ℓ} : {A : Type ℓ} → List (String × A) → List Edge
adapter_edges [] = []
adapter_edges ((id, run) ∷ rest) = edge id "persist_node" ∷ adapter_edges rest

-- `cond_edges[0].mapping`
abbrev pub first_mapping : List ConditionalEdge → Outcome (List (String × String))
first_mapping [] = raised (value_error "list index out of range")
first_mapping (e ∷ es) = ok e.mapping

-- What `_build_graph` describes, from the first mapping.
abbrev pub described : Formats → CompiledTopic → List (String × String) → StateGraph
described f topic mapping = record {
  nodes =
      ("load_session", db_node (load_session_node topic.max_turns))
        ∷ ("auth_node", pure_node (auth_node topic.auth))
        ∷ ("reject_node", pure_node (reject_node topic.error_messages))
        ∷ ("enrich_node", pure_node (enrich_node topic.enrich))
        ∷ (
          "intent_node",
          pure_node
              (intent_node f topic.default_route (keys mapping) topic.intent topic.intent_retry),
        )
        ∷ adapter_nodes f topic.adapter_retries topic.adapters
      ++ ("persist_node", db_node persist_node) ∷ [];
  edges =
      edge graph_start "load_session"
        ∷ edge "load_session" "auth_node"
        ∷ conditional "auth_node" after_auth
            (("reject", "reject_node") ∷ ("enrich", "enrich_node") ∷ [])
        ∷ edge "enrich_node" "intent_node"
        ∷ conditional "intent_node" (after_intent topic.default_route) mapping
        ∷ adapter_edges topic.adapters
      ++ edge "reject_node" "persist_node" ∷ edge "persist_node" graph_end ∷ [];
}

unfoldable pub build_graph : Formats → CompiledTopic → Outcome StateGraph
build_graph f topic = do mapping ← first_mapping topic.config.edges; ok (described f topic mapping)
