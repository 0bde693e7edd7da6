-- ===== src/Graph/State.antt =====
-- src/ma/core/graph/state.py and the results of src/ma/core/plugin/base.py.
-- A key that a `TypedDict` lacks is `none`; what a node returns is such a dict too.
use ocm_agent_v.Common.{ℕ, String, Bool, Option, none, some, List, ◌++◌}
use ocm_agent_v.Value.{Fields, end, Value}
use ocm_agent_v.Repo.Models.{Message}

pub record AuthnIdentity : Type 0 where
  pub w3_account : String
  pub raw_claims : Fields

pub record AuthResult : Type 0 where
  pub passed : Bool
  pub reject_code : Option String
  pub reject_message : Option String
  pub user_ctx : Option Fields

pub record EnrichResult : Type 0 where
  pub enriched_question : String
  pub enrich_meta : Fields

-- A confidence is a float of the source; it is counted in hundredths here.
pub record IntentResult : Type 0 where
  pub route : String
  pub confidence : ℕ
  pub reason : String

-- `answer_meta`, `errors` and `user_message_id` are declared by the source and written by nothing.
pub record GraphState : Type 0 where
  pub request_id : Option String
  pub biz_id : Option String
  pub thread_id : Option String
  pub identity : Option AuthnIdentity
  pub question : Option String
  pub biz_params : Option Fields
  pub history : Option (List Message)
  pub user_ctx : Option Fields
  pub auth : Option AuthResult
  pub enriched_question : Option String
  pub enrich_meta : Option Fields
  pub route : Option String
  pub route_confidence : Option ℕ
  pub route_reason : Option String
  pub answer_chunks : Option (List Value)
  pub assistant_message_id : Option String
  pub stream_cancelled : Option Bool

-- The empty dict.
abbrev pub no_update : GraphState
no_update = record {
  request_id = none;
  biz_id = none;
  thread_id = none;
  identity = none;
  question = none;
  biz_params = none;
  history = none;
  user_ctx = none;
  auth = none;
  enriched_question = none;
  enrich_meta = none;
  route = none;
  route_confidence = none;
  route_reason = none;
  answer_chunks = none;
  assistant_message_id = none;
  stream_cancelled = none;
}

-- A key that the update has replaces the state's.
abbrev pub replace {ℓ} : {A : Type ℓ} → Option A → Option A → Option A
replace old none = old
replace old (some a) = some a

-- `Annotated[list, add]`: the update's list goes behind the state's.
abbrev pub extend {ℓ} : {A : Type ℓ} → Option (List A) → Option (List A) → Option (List A)
extend old none = old
extend none (some b) = some b
extend (some a) (some b) = some (a ++ b)

-- The state after a node has returned `u`, key by key as the fields are annotated.
unfoldable pub merge : GraphState → GraphState → GraphState
merge s u = record {
  request_id = replace s.request_id u.request_id;
  biz_id = replace s.biz_id u.biz_id;
  thread_id = replace s.thread_id u.thread_id;
  identity = replace s.identity u.identity;
  question = replace s.question u.question;
  biz_params = replace s.biz_params u.biz_params;
  history = replace s.history u.history;
  user_ctx = replace s.user_ctx u.user_ctx;
  auth = replace s.auth u.auth;
  enriched_question = replace s.enriched_question u.enriched_question;
  enrich_meta = replace s.enrich_meta u.enrich_meta;
  route = replace s.route u.route;
  route_confidence = replace s.route_confidence u.route_confidence;
  route_reason = replace s.route_reason u.route_reason;
  answer_chunks = extend s.answer_chunks u.answer_chunks;
  assistant_message_id = replace s.assistant_message_id u.assistant_message_id;
  stream_cancelled = replace s.stream_cancelled u.stream_cancelled;
}

-- `state.get(key, "")` and `state.get(key, {})`
abbrev pub text_or_empty : Option String → String
text_or_empty none = ""
text_or_empty (some s) = s

abbrev pub dict_or_empty : Option Fields → Fields
dict_or_empty none = end
dict_or_empty (some d) = d
