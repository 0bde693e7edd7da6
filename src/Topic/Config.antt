-- ===== src/Topic/Config.antt =====
-- src/ma/core/topic/config.py. The shape of the YAML document is what pydantic has checked; the
-- bounds of the fields and the consistency of the whole are checked here. The fields of an edge but
-- for `mapping` have one admitted value each, so every edge is a conditional one.
pub mod Consistency
use Prim.Native.String
use Prim.Native.Char.{Char}
use ocm_agent_v.Common.{
  leb, if◌then◌else◌, type_error, value_error, Outcome, ok, raised, ℕ, String, Bool, true, false,
  not, ◌&&◌, ◌||◌, Option, none, some, List, [], ◌∷◌, ◌++◌, ◌==◌, ◌>>=◌, ◌>>◌,
}
use ocm_agent_v.Value.{
  Fields, field, end, Value, null, str, obj, arr, Items, cons, nil, lookup_or, is_hashable,
}
use ocm_agent_v.Plugin.Auth.{mem_text}
use ocm_agent_v.Graph.Nodes.{RetryPolicy}

pub record PluginRef : Type 0 where
  pub plugin : String
  pub params : Fields

pub record IntentRef : Type 0 where
  pub plugin : String
  pub params : Fields
  pub retry : Option RetryPolicy

pub record GraphNode : Type 0 where
  pub id : String
  pub adapter : String
  pub params : Fields
  pub output : Bool
  pub retry : Option RetryPolicy

pub record ConditionalEdge : Type 0 where
  pub mapping : List (String × String)

pub record TopicConfig : Type 0 where
  pub topic_id : String
  pub display_name : String
  pub default_route : String
  pub max_turns : ℕ
  pub auth : PluginRef
  pub enrich : PluginRef
  pub intent : IntentRef
  pub nodes : List GraphNode
  pub edges : List ConditionalEdge
  pub biz_params_schema : Fields
  pub error_messages : List (String × String)

-- The bounds of the fields: `Field(ge=…, le=…)` and `Field(min_length=1)`.
abbrev pub between : ℕ → ℕ → ℕ → Bool
between lo hi n = leb lo n && leb n hi

abbrev pub retry_in_bounds : Option RetryPolicy → Bool
retry_in_bounds none = true
retry_in_bounds (some p) = between 1 5 p.max_attempts && between 0 30000 p.backoff_ms

abbrev pub nodes_in_bounds : List GraphNode → Bool
nodes_in_bounds [] = true
nodes_in_bounds (n ∷ ns) = retry_in_bounds n.retry && nodes_in_bounds ns

abbrev pub in_bounds : TopicConfig → Bool
in_bounds cfg =
    not (cfg.topic_id == "")
    && (between 1 200 cfg.max_turns
        && (retry_in_bounds cfg.intent.retry && nodes_in_bounds cfg.nodes))

abbrev pub required_error_codes : List String
required_error_codes =
    "FORBIDDEN_TOPIC" ∷ "FORBIDDEN_SCOPE" ∷ "DOWNSTREAM_TIMEOUT" ∷ "DOWNSTREAM_ERROR" ∷ "INTERNAL"
    ∷ []

abbrev pub keys : List (String × String) → List String
keys [] = []
keys ((k, v) ∷ d) = k ∷ keys d

abbrev pub has_all : List String → List String → Bool
has_all [] ys = true
has_all (x ∷ xs) ys = mem_text x ys && has_all xs ys

abbrev pub node_ids : List GraphNode → List String
node_ids [] = []
node_ids (n ∷ ns) = n.id ∷ node_ids ns

abbrev pub targets_exist : List String → List (String × String) → Bool
targets_exist ids [] = true
targets_exist ids ((label, id) ∷ d) = mem_text id ids && targets_exist ids d

-- The loop over the edges: the labels of all the mappings, if every target is a node.
abbrev pub mapping_keys : List String → List ConditionalEdge → Outcome (List String)
mapping_keys ids [] = ok []
mapping_keys ids (e ∷ es) =
    if targets_exist ids e.mapping
    then (do later ← mapping_keys ids es; ok (keys e.mapping ++ later))
    else raised (value_error "edge mapping points to non-existent node")

abbrev pub check : Bool → String → Outcome (Unit {0})
check true text = ok tt
check false text = raised (value_error text)

abbrev pub is_cons {ℓ} : {A : Type ℓ} → List A → Bool
is_cons [] = false
is_cons (x ∷ xs) = true

-- `set(labels)`: the texts of an iterable, or nothing if it holds something that is no text.
abbrev pub texts_of : Items → Outcome (Option (List String))
texts_of nil = ok (some [])
texts_of (cons (str s) vs) = do
  later ← texts_of vs
  ok (elim later [ none ↦ none | some ts ↦ some (s ∷ ts) ])
texts_of (cons v vs) =
    if is_hashable v
    then (do later ← texts_of vs; ok none)
    else raised (type_error "unhashable type")

abbrev pub characters : String → List String
characters String.[] = []
characters (String.◌∷◌ c s) = String.◌∷◌ c String.[] ∷ characters s

abbrev pub dict_keys : Fields → List String
dict_keys end = []
dict_keys (field k v d) = k ∷ dict_keys d

abbrev pub label_set : Value → Outcome (Option (List String))
label_set null = raised (value_error "intent.params.labels required")
label_set (arr vs) = texts_of vs
label_set (str s) = ok (some (characters s))
label_set (obj d) = ok (some (dict_keys d))
label_set v = raised (type_error "object is not iterable")

abbrev pub same_set : Option (List String) → List String → Bool
same_set none ys = false
same_set (some xs) ys = has_all xs ys && has_all ys xs

-- The four checks, in the order of the source, from what they test.
abbrev pub checks :
    Bool
    → Bool
    → Outcome (List String)
    → (List String → Bool)
    → Outcome (Option (List String))
    → (Option (List String) → List String → Bool)
    → Outcome (Unit {0})
checks codes has_edge mapped default given same = do
  check codes "error_messages missing required codes"
  check has_edge "graph.edges must contain at least one conditional edge"
  labels ← mapped
  check (default labels) "default_route must be a label or 'default' / 'reject'"
  chosen ← given
  check (same chosen labels) "intent.params.labels must equal the mapping keys"

-- `_validate_consistency`
unfoldable pub validate_consistency : TopicConfig → Outcome (Unit {0})
validate_consistency cfg =
    checks (has_all required_error_codes (keys cfg.error_messages)) (is_cons cfg.edges)
      (mapping_keys (node_ids cfg.nodes) cfg.edges)
      (λ labels.
        mem_text cfg.default_route labels
        || (cfg.default_route == "default" || cfg.default_route == "reject"))
      (label_set (lookup_or "labels" null cfg.intent.params)) same_set

-- `TopicConfig.model_validate` on a document of the right shape
unfoldable pub model_validate : TopicConfig → Outcome TopicConfig
unfolding validate_consistency
model_validate cfg = do
  check (in_bounds cfg) "field out of bounds"
  validate_consistency cfg
  ok cfg
