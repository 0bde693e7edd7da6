-- ===== src/Api/Stream.antt =====
-- src/ma/api/sse.py: the checks before a stream, and its frames. FastAPI has checked the body.
-- `loads` and `dumps` are those of `json`; the ULID of a new request id is an argument.
pub mod Opening
pub mod Reader
pub mod Received
use ocm_agent_v.Common.{
  if◌then◌else◌, Outcome, ok, raised, String, ◌<>◌, ◌⊎◌, inl, inr, Bool, false, not, Option, none,
  some, List, map, ◌==◌,
}
use ocm_agent_v.Value.{Fields, field, end, Value, str, obj}
use ocm_agent_v.Repo.Messages.{merge_json}
use ocm_agent_v.Graph.Events.{ChatEvent, encode_sse, Parsed, parsed, not_json}
use ocm_agent_v.Graph.Builtins.{non_empty}
use ocm_agent_v.Topic.Registry.{get}
use ocm_agent_v.Chat.Flow.{CompiledTopic}
use ocm_agent_v.Chat.{ChatRequest}
use ocm_agent_v.Api.History.{Response, answers, http_error}

pub record ChatBody : Type 0 where
  pub biz_id : String
  pub thread_id : String
  pub w3_account : String
  pub question : String
  pub biz_params : Fields

-- The headers: X-Request-Id, X-User-Account, X-User-Role and X-User-Claims.
pub record Headers : Type 0 where
  pub request_id : Option String
  pub account : Option String
  pub role : Option String
  pub claims : Option String

-- `x_user_account is not None and x_user_account != body.w3_account`
abbrev pub mismatches : Option String → String → Bool
mismatches none account = false
mismatches (some given) account = not (given == account)

-- The claims of the header, or the text of the error.
abbrev pub claims_of : Parsed → String ⊎ Fields
claims_of (parsed (obj d)) = inr d
claims_of (parsed v) = inl "X-User-Claims must be a JSON object"
claims_of (not_json text) = inl text

abbrev pub extra_claims : (String → Parsed) → Option String → String ⊎ Fields
extra_claims loads none = inr end
extra_claims loads (some text) = claims_of (loads text)

-- `{"role": role, **extra_claims}`
abbrev pub all_claims : Option String → Fields → Fields
all_claims role extra = merge_json (field "role" (str (non_empty role "REP")) end) extra

abbrev pub request_of : ChatBody → Headers → String → Fields → ChatRequest
request_of body headers ulid extra = record {
  biz_id = body.biz_id;
  thread_id = body.thread_id;
  w3_account = body.w3_account;
  question = body.question;
  request_id = non_empty headers.request_id ("req_" <> ulid);
  biz_params = body.biz_params;
  identity =
      some (record { w3_account = body.w3_account; raw_claims = all_claims headers.role extra });
}

abbrev pub with_claims : ChatBody → Headers → String → String ⊎ Fields → Response ChatRequest
with_claims body headers ulid (inl e) = http_error 400 ("invalid X-User-Claims: " <> e)
with_claims body headers ulid (inr extra) = answers (request_of body headers ulid extra)

abbrev pub with_topic :
    (String → Parsed) → Outcome CompiledTopic → String → ChatBody → Headers → Response ChatRequest
with_topic loads (raised e) ulid body headers = http_error 404 ("unknown biz_id: " <> body.biz_id)
with_topic loads (ok topic) ulid body headers =
    if mismatches headers.account body.w3_account
    then http_error 403 "X-User-Account header mismatch with body.w3_account"
    else with_claims body headers ulid (extra_claims loads headers.claims)

-- `chat_sse`, up to the request that its stream serves; `configured` says whether there is a
-- ChatService.
unfoldable pub chat_sse :
    (String → Parsed)
    → Bool
    → List (String × CompiledTopic)
    → String
    → ChatBody
    → Headers
    → Response ChatRequest
chat_sse loads configured topics ulid body headers =
    if configured
    then with_topic loads (get body.biz_id topics) ulid body headers
    else http_error 503 "DB not configured (MA_PG_DSN_RW required)"

-- The frames of the stream.
abbrev pub frames : (Value → String) → List ChatEvent → List String
frames dumps evs = map (encode_sse dumps) evs
