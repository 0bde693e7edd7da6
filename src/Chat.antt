-- ===== src/Chat.antt =====
-- src/ma/core/chat_service.py: a request, from its checks to its last event.
-- LangGraph and `str` of an exception are parameters. A time and the two ULIDs of a request are
-- arguments. A consumer that drops the stream is not modelled.
pub mod Flow
pub mod Compiler
pub mod Protocol
pub mod Question
pub mod Memory
pub mod Walk
use ocm_agent_v.Common.{
  if◌then◌else◌, Exn, type_error, session_biz_mismatch, cancelled_error, is_exception, Outcome, ok,
  raised, ◌>>=◌, find_entry, String, ◌<>◌, false, Option, none, some, List, [], ◌∷◌, ◌++◌, ◌==◌,
}
use ocm_agent_v.Value.{Fields, end, Value, str, bool, obj, arr, truthy, get_method, dict}
use ocm_agent_v.Repo.Models.{Timestamp, Db}
use ocm_agent_v.Repo.Sessions.{Action, get_or_create}
use ocm_agent_v.Repo.Messages.{append, set_field}
use ocm_agent_v.Plugin.Formats.{Formats}
use ocm_agent_v.Graph.State.{AuthnIdentity, GraphState, no_update}
use ocm_agent_v.Graph.Nodes.{StreamEnd, finished, cancelled, failed}
use ocm_agent_v.Graph.Events.{
  EventType, meta, thinking, progress, delta, tool, error, done, ChatEvent,
}
use ocm_agent_v.Graph.Builtins.{bind, text_or}
use ocm_agent_v.Graph.Builtins.Memory.{question_message}
use ocm_agent_v.Topic.Registry.{get}
use ocm_agent_v.Chat.Flow.{CompiledTopic, StateGraph, build_graph}

pub record ChatRequest : Type 0 where
  pub biz_id : String
  pub thread_id : String
  pub w3_account : String
  pub question : String
  pub request_id : String
  pub biz_params : Fields
  pub identity : Option AuthnIdentity

-- An event of `astream_events`.
pub record StreamedEvent : Type 0 where
  pub event : String
  pub name : String
  pub payload : Value

abbrev pub chat_event : EventType → Value → ChatEvent
chat_event type payload = record { type = type; payload = payload; event_id = none }

-- `x or {}`
abbrev pub or_empty : Value → Value
or_empty v = if truthy v then v else obj end

-- `topic.error_messages.get(code)`
abbrev pub friendly_text : List (String × String) → Value → Outcome (Option String)
friendly_text messages (str code) = ok (find_entry code messages)
friendly_text messages (arr vs) = raised (type_error "unhashable type")
friendly_text messages (obj d) = raised (type_error "unhashable type")
friendly_text messages v = ok none

-- `{**data, "message": friendly}`, if there is a friendly text
abbrev pub with_message : Value → Option String → Value
with_message (obj d) (some text) =
    if text == "" then obj d else obj (set_field "message" (str text) d)
with_message v friendly = v

abbrev pub relay_error : List (String × String) → Value → Outcome (List ChatEvent)
relay_error messages d = do
  code ← get_method d "code" (str "INTERNAL")
  friendly ← friendly_text messages code
  ok (chat_event error (with_message d friendly) ∷ [])

-- The names that pass, with the types of their events.
abbrev pub passing : List (String × EventType)
passing = ("thinking", thinking) ∷ ("progress", progress) ∷ ("delta", delta) ∷ ("tool", tool) ∷ []

abbrev pub passed_on : Option EventType → Value → List ChatEvent
passed_on none d = []
passed_on (some type) d = chat_event type d ∷ []

-- The body of the `async for`.
abbrev pub relay : List (String × String) → StreamedEvent → Outcome (List ChatEvent)
relay messages ev =
    if ev.event == "on_custom_event"
    then (if ev.name == "error"
        then relay_error messages (or_empty ev.payload)
        else ok (passed_on (find_entry ev.name passing) (or_empty ev.payload)))
    else ok []

-- One event's yields before the rest; the loop is left by what raises.
abbrev pub chained :
    Outcome (List ChatEvent) → List ChatEvent × StreamEnd → List ChatEvent × StreamEnd
chained (raised e) later = ([], failed)
chained (ok shown) (later, ending) = (shown ++ later, ending)

-- The `async for`: what it yields, and how it ends.
unfoldable pub relay_all :
    List (String × String) → List StreamedEvent → StreamEnd → List ChatEvent × StreamEnd
relay_all messages [] last = ([], last)
relay_all messages (ev ∷ evs) last = chained (relay messages ev) (relay_all messages evs last)

-- What a request yields, how it ends, and the database that it leaves.
abbrev pub Reply : Type 0
Reply = List ChatEvent × Outcome (Unit {0}) × Db

abbrev pub then_yield : List ChatEvent → Reply → Reply
then_yield first (evs, result, db) = (first ++ evs, result, db)

-- An `error` event and the `done` that ends a request that is refused.
abbrev pub refusal : List (String × Value) → Db → Reply
refusal payload db = (
  chat_event error (dict payload) ∷ chat_event done (dict (("status", str "failed") ∷ [])) ∷ [],
  ok tt,
  db,
)

abbrev pub refused : String → String → List (String × Value) → String → List (String × Value)
refused code text detail request =
    ("code", str code) ∷ ("message", str text) ∷ ("retryable", bool false) ∷ detail
    ++ ("request_id", str request) ∷ []

-- `_persist_user_message`
unfoldable pub persist_user_message : Timestamp → String → ChatRequest → Action (Unit {0})
persist_user_message now id req db =
    bind (get_or_create now req.thread_id req.biz_id req.w3_account none db)
      λ _ db. append now (question_message id req.thread_id req.question req.request_id) db

abbrev pub initial_state : ChatRequest → String → GraphState
initial_state req answer_id = record no_update {
  request_id = some req.request_id;
  biz_id = some req.biz_id;
  thread_id = some req.thread_id;
  identity = some (elim req.identity [
    | none ↦ record { w3_account = req.w3_account; raw_claims = end }
    | some identity ↦ identity
  ]);
  question = some req.question;
  biz_params = some req.biz_params;
  assistant_message_id = some answer_id;
}

abbrev pub meta_event : ChatRequest → String → ChatEvent
meta_event req answer_id = chat_event meta (
    dict (
      ("thread_id", str req.thread_id)
      ∷ ("request_id", str req.request_id)
      ∷ ("message_id", str answer_id)
      ∷ ("topic", str req.biz_id)
      ∷ []))

abbrev pub done_event : String → ChatEvent
done_event answer_id =
    chat_event done (dict (("message_id", str answer_id) ∷ ("status", str "complete") ∷ []))

abbrev pub internal_error : List (String × String) → String → ChatEvent
internal_error messages request =
    chat_event error
      (dict (refused "INTERNAL" (text_or (find_entry "INTERNAL" messages) "服务异常") [] request))

-- After the loop: a failure is shown, a cancellation goes on upwards.
abbrev pub finish : List (String × String) → ChatRequest → String → StreamEnd → Db → Reply
finish messages req answer_id finished db = (done_event answer_id ∷ [], ok tt, db)
finish messages req answer_id failed db =
    (internal_error messages req.request_id ∷ done_event answer_id ∷ [], ok tt, db)
finish messages req answer_id cancelled db = ([], raised cancelled_error, db)

-- The text of a `SessionBizMismatchError`.
abbrev pub mismatch_of : Exn → Option String
mismatch_of (session_biz_mismatch text) = some text
mismatch_of _ = none

-- `except SessionBizMismatchError`; any other exception goes on upwards.
abbrev pub not_stored : ChatRequest → Exn → Option String → Db → Reply
not_stored req e none db = ([], raised e, db)
not_stored req e (some text) db =
    refusal
      (refused "BAD_REQUEST" "thread_id 已绑定到其它专题，无法跨专题复用" (("detail", str text) ∷ [])
        req.request_id)
      db

-- LangGraph: `compile` checks the graph, and `astream_events` runs it.
module _ (f : Formats) (text_of : Exn → String) {Graph : Type 0}
    (compile : StateGraph → Outcome Graph)
    (astream_events : Graph
      → Timestamp
      → GraphState
      → Db
      → (List StreamedEvent × StreamEnd) × Db) where
  -- The `async for` over a graph that is compiled; `compile` raises outside of the `try`.
  abbrev pub run_compiled :
      Timestamp → CompiledTopic → ChatRequest → String → Outcome Graph → Db → Reply
  run_compiled now topic req answer_id (raised e) db = ([], raised e, db)
  run_compiled now topic req answer_id (ok graph) db =
      let ((events, last), db') = astream_events graph now (initial_state req answer_id) db in
      let (shown, ending) = relay_all topic.error_messages events last in
      then_yield shown (finish topic.error_messages req answer_id ending db')

  abbrev pub after_question :
      Timestamp → CompiledTopic → ChatRequest → String → Outcome (Unit {0}) × Db → Reply
  after_question now topic req answer_id (ok _, db) =
      run_compiled now topic req answer_id (build_graph f topic >>= compile) db
  after_question now topic req answer_id (raised e, db) = not_stored req e (mismatch_of e) db

  abbrev pub serve_checked :
      Timestamp → String → String → CompiledTopic → ChatRequest → Outcome (Unit {0}) → Db → Reply
  serve_checked now answer_id question_id topic req (raised e) db =
      if is_exception e
      then refusal
          (refused "BAD_REQUEST" "请求参数不合法" (("detail", str (text_of e)) ∷ []) req.request_id) db
      else ([], raised e, db)
  serve_checked now answer_id question_id topic req (ok _) db =
      then_yield (meta_event req answer_id ∷ [])
        (after_question now topic req answer_id (persist_user_message now question_id req db))

  abbrev pub serve : Timestamp → String → String → ChatRequest → Outcome CompiledTopic → Db → Reply
  serve now answer_id question_id req (raised e) db =
      refusal (refused "TOPIC_NOT_FOUND" ("未配置专题：" <> req.biz_id) [] req.request_id) db
  serve now answer_id question_id req (ok topic) db =
      serve_checked now answer_id question_id topic req (topic.biz_params_model req.biz_params) db

  unfoldable pub handle :
      List (String × CompiledTopic) → Timestamp → String → String → ChatRequest → Db → Reply
  unfolding persist_user_message relay_all
  handle topics now answer_ulid question_ulid req db =
      serve now ("msg_" <> answer_ulid) ("msg_" <> question_ulid) req (get req.biz_id topics) db
