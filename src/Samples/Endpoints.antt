-- ===== src/Samples/Endpoints.antt =====
-- Tests of the HTTP endpoints.
use ocm_agent_v.Common.{
  if◌then◌else◌, length, All, ◌≤◌, String, ◌≡◌, refl, ◌↔◌, ◌⊎◌, inr, true, Option, none, some, List,
  [], ◌∷◌, map, ◌==◌,
}
use ocm_agent_v.Value.{field, Value, end, obj}
use ocm_agent_v.Repo.Models.{Timestamp, Session, Db}
use ocm_agent_v.Repo.Sessions.{new_session, list_by_user}
use ocm_agent_v.Graph.Events.{done, ChatEvent, type_text, Parsed, parsed, not_json}
use ocm_agent_v.Topic.Registry.{get}
use ocm_agent_v.Chat.Flow.{CompiledTopic}
use ocm_agent_v.Chat.{ChatRequest}
use ocm_agent_v.Api.History.{answers, http_error, serialize_session, list_sessions}
use ocm_agent_v.Api.History.Ownership.{IsCursor, IsWanted, list_sessions_owned}
use ocm_agent_v.Graph.Builtins.Answer.{concat}
use ocm_agent_v.Api.Stream.Reader.{read_events}
use ocm_agent_v.Api.Stream.Received.{IsWritten, read_events-frames}
use ocm_agent_v.Api.Stream.{frames, ChatBody, Headers, chat_sse}
use ocm_agent_v.Api.Stream.Opening.{IsServed, chat_sse_iff}
use ocm_agent_v.Samples.Data.{delta_of, biz_params, some_db, topic}

abbrev pub loads : String → Parsed
loads text = if text == "{}" then parsed (obj end) else not_json "bad"

abbrev pub known_topics : List (String × CompiledTopic)
known_topics = ("sales", topic) ∷ []

abbrev pub body : ChatBody
body = record {
  biz_id = "sales";
  thread_id = "th_1";
  w3_account = "zhangsan";
  question = "how much";
  biz_params = biz_params;
}

abbrev pub headers : Headers
headers = record { request_id = none; account = some "zhangsan"; role = none; claims = some "{}" }

chat_sse_iff_example :
    ((req : ChatRequest) × (chat_sse loads true known_topics "U" body headers ≡ answers req))
    ↔ IsServed loads true known_topics body headers
chat_sse_iff_example = chat_sse_iff loads true known_topics "U" body headers

test_mismatch :
    chat_sse loads true known_topics "U" body (record headers { account = some "lisi" })
    ≡ http_error 403 "X-User-Account header mismatch with body.w3_account"
unfolding chat_sse get
test_mismatch = refl

abbrev iso : Timestamp → String
iso t = "t"

abbrev from_iso : String → String ⊎ Timestamp
from_iso text = inr 9

abbrev her_session : Session
her_session = record (new_session 7 "th_1" "sales" "zhangsan" none) { last_message_at = some 8 }

abbrev her_db : Db
her_db = record some_db { sessions = her_session ∷ [] }

listed_now :
    list_sessions iso from_iso (some "sales") 50 (some "t9") (some "zhangsan") (some her_db)
    ≡ answers (serialize_session iso her_session ∷ [])
unfolding list_sessions list_by_user
listed_now = refl

list_sessions_owned_example :
    (rows : List Session) × (cursor : Option Timestamp) × IsCursor from_iso (some "t9") cursor
    × (serialize_session iso her_session ∷ [] ≡ map (serialize_session iso) rows)
    × (length rows ≤ 50)
    × All (IsWanted "zhangsan" (some "sales") cursor) rows
list_sessions_owned_example =
    list_sessions_owned iso from_iso (some "sales") 50 (some "t9") "zhangsan" her_db
      (serialize_session iso her_session ∷ []) listed_now

-- `json` at the two values that the events below have.
abbrev dumps : Value → String
dumps (obj end) = "{}"
dumps (obj (field k v d)) = "{\"content\":\"a\"}"
dumps v = "null"

abbrev loads_data : String → Parsed
loads_data text =
    if text == "{}"
    then parsed (obj end)
    else if text == "{\"content\":\"a\"}"
    then parsed (delta_of "a").payload
    else not_json "bad"

abbrev two_events : List ChatEvent
two_events =
    record (delta_of "a") { event_id = some "7" }
    ∷ record { type = done; payload = obj end; event_id = none }
    ∷ []

two_events-IsWritten : All (IsWritten loads_data dumps) two_events
two_events-IsWritten = (
  record { plain_id = refl; plain_data = refl; some_data = refl; reads = refl },
  (record { plain_id = tt; plain_data = refl; some_data = refl; reads = refl }, tt),
)

read_events-frames_example :
    read_events loads_data (concat (frames dumps two_events))
    ≡ map (λ ev. (type_text ev.type, parsed ev.payload)) two_events
read_events-frames_example = read_events-frames loads_data dumps two_events two_events-IsWritten

test_frame :
    frames dumps (record (delta_of "a") { event_id = some "7" } ∷ [])
    ≡ "event: delta\nid: 7\ndata: {\"content\":\"a\"}\n\n" ∷ []
test_frame = refl
