-- ===== src/Chat/Compiler.antt =====
-- src/ma/core/topic/compiler.py: how a topic's configuration becomes a CompiledTopic.
pub mod Targets
use ocm_agent_v.Common.{
  if◌then◌else◌, type_error, attribute_error, value_error, Outcome, ok, raised, put, ℕ, String,
  Bool, false, Option, none, some, List, [], ◌∷◌, ◌==◌, ◌>>=◌,
}
use ocm_agent_v.Value.{
  Fields, field, end, Value, null, str, obj, arr, Items, cons, nil, lookup_or, get_method,
  is_hashable,
}
use ocm_agent_v.Plugin.Registry.{Registry, create}
use ocm_agent_v.Plugin.Auth.{mem_text}
use ocm_agent_v.Graph.State.{AuthResult, EnrichResult, IntentResult, GraphState}
use ocm_agent_v.Graph.Nodes.{RetryPolicy, Stream}
use ocm_agent_v.Topic.Config.{GraphNode, TopicConfig, characters, dict_keys}
use ocm_agent_v.Topic.Environment.{resolve_fields}
use ocm_agent_v.Chat.Flow.{CompiledTopic}

-- `v.items()`
abbrev pub items_of : Value → Outcome Fields
items_of (obj d) = ok d
items_of v = raised (attribute_error "items")

abbrev is_text : String → Value → Bool
is_text t (str s) = s == t
is_text t v = false

-- `set(v)`, of which only the texts matter: an item without a hash raises.
abbrev names_of : Items → Outcome (List String)
names_of nil = ok []
names_of (cons (str s) vs) = do later ← names_of vs; ok (s ∷ later)
names_of (cons v vs) = if is_hashable v then names_of vs else raised (type_error "unhashable type")

abbrev pub required_names : Value → Outcome (List String)
required_names (arr vs) = names_of vs
required_names (str s) = ok (characters s)
required_names (obj d) = ok (dict_keys d)
required_names v = raised (type_error "object is not iterable")

-- The loop over the properties: each name with whether it is required.
abbrev pub schema_fields : List String → Fields → Outcome (List (String × Bool))
schema_fields required end = ok []
schema_fields required (field name prop d) = do
  type ← get_method prop "type" (str "string")
  if is_text "string" type
      then (do later ← schema_fields required d; ok ((name, mem_text name required) ∷ later))
      else raised (value_error "only type='string' supported in M1")

-- `_compile_biz_params_schema`: the fields of the model that is created.
unfoldable pub compile_schema : Fields → Outcome (List (String × Bool))
compile_schema schema =
    if is_text "object" (lookup_or "type" null schema)
    then (do
      required ← required_names (lookup_or "required" (arr nil) schema)
      properties ← items_of (lookup_or "properties" (obj end) schema)
      schema_fields required properties)
    else raised (value_error "biz_params_schema must be type=object")

abbrev put_retry :
    String → Option RetryPolicy → List (String × RetryPolicy) → List (String × RetryPolicy)
put_retry id none retries = retries
put_retry id (some p) retries = put id p retries

-- The loop over the nodes for their retries.
abbrev pub retries_of : List GraphNode → List (String × RetryPolicy) → List (String × RetryPolicy)
retries_of [] retries = retries
retries_of (n ∷ ns) retries = retries_of ns (put_retry n.id n.retry retries)

-- What a plugin's instance does; `model` is the model that pydantic creates for the fields.
pub record Methods (Instance : Type 0) : Type 0 where
  pub authorizes : Instance → GraphState → Outcome AuthResult
  pub enriches : Instance → GraphState → Outcome EnrichResult
  pub classifies : Instance → GraphState → ℕ → Outcome IntentResult
  pub runs : Instance → GraphState → Bool → ℕ → Stream
  pub model : List (String × Bool) → Fields → Outcome (Unit {0})

module _ {Class Instance : Type 0} (methods : Methods Instance)
    (build : Class → Fields → Outcome Instance) (registry : Registry Class) where
  -- The loop over the nodes for their adapters.
  unfoldable pub adapters_of :
      List (String × String)
      → List GraphNode
      → List (String × Instance)
      → Outcome (List (String × Instance))
  adapters_of env [] adapters = ok adapters
  adapters_of env (n ∷ ns) adapters = do
    params ← resolve_fields env n.params
    adapter ← create build "adapter" n.adapter params registry
    adapters_of env ns (put n.id adapter adapters)

  abbrev pub with_runs : List (String × Instance) → List (String × (GraphState → Bool → ℕ → Stream))
  with_runs [] = []
  with_runs ((id, adapter) ∷ d) = (id, methods.runs adapter) ∷ with_runs d

  -- What `compile` returns, from the instances that it has made.
  abbrev pub compiled :
      TopicConfig
      → Instance
      → Instance
      → Instance
      → List (String × Instance)
      → List (String × Bool)
      → CompiledTopic
  compiled cfg auth enrich intent adapters model = record {
    topic_id = cfg.topic_id;
    display_name = cfg.display_name;
    default_route = cfg.default_route;
    max_turns = cfg.max_turns;
    auth = methods.authorizes auth;
    enrich = methods.enriches enrich;
    intent = methods.classifies intent;
    adapters = with_runs adapters;
    biz_params_model = methods.model model;
    error_messages = cfg.error_messages;
    config = cfg;
    intent_retry = cfg.intent.retry;
    adapter_retries = retries_of cfg.nodes [];
  }

  unfoldable pub compile : List (String × String) → TopicConfig → Outcome CompiledTopic
  unfolding adapters_of compile_schema
  compile env cfg = do
    auth_params ← resolve_fields env cfg.auth.params
    enrich_params ← resolve_fields env cfg.enrich.params
    intent_params ← resolve_fields env cfg.intent.params
    auth ← create build "auth" cfg.auth.plugin auth_params registry
    enrich ← create build "enrich" cfg.enrich.plugin enrich_params registry
    intent ← create build "intent" cfg.intent.plugin intent_params registry
    adapters ← adapters_of env cfg.nodes []
    model ← compile_schema cfg.biz_params_schema
    ok (compiled cfg auth enrich intent adapters model)
