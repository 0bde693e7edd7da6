-- ===== src/Api/Socket/Handshake.antt =====
-- src/ma/api/ws.py: `chat_ws` up to its `ready` frame, and `_handle_ask`. Accepting, sending and
-- closing are taken not to raise.
use ocm_agent_v.Common.{
  if◌then◌else◌, Outcome, ok, raised, ℕ, suc, String, ◌<>◌, Bool, Option, none, some, List, [], ◌∷◌,
  ◌==◌,
}
use ocm_agent_v.Value.{Fields, field, end, Value, null, str, obj, lookup_or, truthy}
use ocm_agent_v.Repo.Messages.{merge_json}
use ocm_agent_v.Graph.State.{AuthnIdentity}
use ocm_agent_v.Graph.Events.{
  ChatEvent, encode_ws, encode_ws_ready, encode_ws_closed, Parsed, parsed, not_json,
}
use ocm_agent_v.Topic.Registry.{get}
use ocm_agent_v.Graph.Builtins.{text_or}
use ocm_agent_v.Chat.{ChatRequest}
use ocm_agent_v.Chat.Flow.{CompiledTopic}
use ocm_agent_v.Api.Socket.{own_id}

-- The query's `w3_account` and `biz_id`, and the headers X-User-Role and X-User-Claims.
pub record Upgrade : Type 0 where
  pub account : Option String
  pub biz_id : Option String
  pub role : Option String
  pub claims : Option String

pub data Wire : Type 0 where
  accepts : Wire
  sends : Value → Wire
  closes : ℕ → Wire

-- What the connection's tasks go by.
pub record Caller : Type 0 where
  pub w3_account : String
  pub biz_id : String
  pub identity : AuthnIdentity

-- Claims that are no JSON, or no object, are passed over.
abbrev pub object_or_none : Parsed → Fields
object_or_none (parsed (obj d)) = d
object_or_none (parsed v) = end
object_or_none (not_json text) = end

abbrev pub lenient_claims : (String → Parsed) → Option String → Fields
lenient_claims loads none = end
lenient_claims loads (some text) = if text == "" then end else object_or_none (loads text)

abbrev pub identity_of : (String → Parsed) → Upgrade → AuthnIdentity
identity_of loads u = record {
  w3_account = text_or u.account "anonymous";
  raw_claims =
      merge_json (field "role" (str (text_or u.role "REP")) end) (lenient_claims loads u.claims);
}

abbrev pub refuses : String → ℕ → List Wire × Option Caller
refuses reason code = (accepts ∷ sends (encode_ws_closed reason) ∷ closes code ∷ [], none)

abbrev pub by_topic :
    (String → Parsed) → Upgrade → Outcome CompiledTopic → List Wire × Option Caller
by_topic loads u (raised e) = refuses ("unknown biz_id: " <> text_or u.biz_id "") 1008
by_topic loads u (ok topic) = (
  accepts ∷ sends encode_ws_ready ∷ [],
  some (record {
    w3_account = text_or u.account "anonymous";
    biz_id = text_or u.biz_id "";
    identity = identity_of loads u;
  }),
)

-- What is sent, and who the caller is if the loop is entered; `configured` says whether there is a
-- ChatService.
unfoldable pub handshake :
    (String → Parsed) → Bool → List (String × CompiledTopic) → Upgrade → List Wire × Option Caller
handshake loads configured topics u =
    if configured
    then by_topic loads u (get (text_or u.biz_id "") topics)
    else refuses "DB not configured" 1011

-- `frame.get("thread_id") or "unknown"`
abbrev pub own_thread : Value → Value
own_thread v = if truthy v then v else str "unknown"

abbrev pub asked_by : Caller → Value → Value → Value → Value → Option ChatRequest
asked_by caller (str id) (str thread) (str question) (obj biz_params) = some (record {
  biz_id = caller.biz_id;
  thread_id = thread;
  w3_account = caller.w3_account;
  question = question;
  request_id = id;
  biz_params = biz_params;
  identity = some caller.identity;
})
asked_by caller id thread question biz_params = none

-- The request of an `ask` frame. Python does not check the types of the frame's fields: a frame whose
-- fields are not of the types that the request declares is not followed here.
abbrev pub request_of_frame : Caller → String → Fields → Option ChatRequest
request_of_frame caller ulid frame =
    asked_by caller (own_id ulid (lookup_or "request_id" null frame))
      (own_thread (lookup_or "thread_id" null frame)) (lookup_or "question" (str "") frame)
      (lookup_or "biz_params" (obj end) frame)

-- The frames that the loop over the events sends: before each one the client's state is looked at,
-- and the loop is left once the client is gone.
abbrev pub forwarded : (ℕ → Bool) → Value → ℕ → List ChatEvent → List Value
forwarded connected id n [] = []
forwarded connected id n (ev ∷ evs) =
    let rest = forwarded connected id (suc n) evs in
    if connected n then encode_ws ev id ∷ rest else []
