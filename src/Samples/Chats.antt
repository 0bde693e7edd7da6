-- ===== src/Samples/Chats.antt =====
-- Tests of the requests.
use ocm_agent_v.Common.{
  Exn, ok, ◌>>=◌, String, ◌≡◌, refl, ◌↔◌, inl, true, none, some, List, [], ◌∷◌, ◌++◌, arith,
}
use ocm_agent_v.Value.{Value, str, dict}
use ocm_agent_v.Repo.Models.{Timestamp, Session, Message, Db}
use ocm_agent_v.Repo.Sessions.{find_session, new_session, get_or_create}
use ocm_agent_v.Repo.Messages.{numbered, append, list_recent}
use ocm_agent_v.Graph.Nodes.{StreamEnd, failed}
use ocm_agent_v.Graph.Events.{meta, delta, error, done, ChatEvent}
use ocm_agent_v.Topic.Registry.{get}
use ocm_agent_v.Topic.Config.{validate_consistency, model_validate}
use ocm_agent_v.Topic.Config.Consistency.{IsConsistent, validate_consistency_iff}
use ocm_agent_v.Chat.Flow.{CompiledTopic, StateGraph, build_graph}
use ocm_agent_v.Chat.{
  initial_state, ChatRequest, StreamedEvent, chat_event, Reply, then_yield, meta_event,
  run_compiled, handle,
}
use ocm_agent_v.Chat.Protocol.{protocol, types, is_ok, handle-protocol}
use ocm_agent_v.Chat.Question.{question_of, handle_asks, handle_refuses}
use ocm_agent_v.Graph.State.{GraphState, no_update}
use ocm_agent_v.Graph.Builtins.{load_session_node}
use ocm_agent_v.Chat.Memory.{turn_is_remembered}
use ocm_agent_v.Samples.Data.{
  plain, question, answer, next_question, some_db, config, topic, request, user,
}

abbrev pub exception_text : Exn → String
exception_text e = "e"

-- A graph that shows one chunk and fails.
abbrev one_chunk : StateGraph → Timestamp → GraphState → Db → (List StreamedEvent × StreamEnd) × Db
one_chunk g now state db = (
  (
    record { event = "on_custom_event"; name = "delta"; payload = dict (("content", str "a") ∷ []) }
        ∷ [],
    failed,
  ),
  db,
)

abbrev topics : List (String × CompiledTopic)
topics = ("sales", topic) ∷ []

abbrev reply : ChatRequest → Reply
reply req = handle plain exception_text ok one_chunk topics 7 "A" "Q" req some_db

handle-protocol_example : protocol (is_ok (reply request).1) (types (reply request).0) ≡ true
handle-protocol_example =
    handle-protocol plain exception_text ok one_chunk topics 7 "A" "Q" request some_db

test_types : types (reply request).0 ≡ meta ∷ delta ∷ error ∷ done ∷ []
unfolding handle get get_or_create append build_graph
test_types = refl

abbrev bound_session : Session
bound_session = new_session 7 "th_1" "sales" "zhangsan" none

abbrev bound_db : Db
bound_db = record some_db { sessions = bound_session ∷ [] }

bound_now : get_or_create 7 "th_1" "sales" "zhangsan" none some_db ≡ (ok bound_session, bound_db)
unfolding get_or_create
bound_now = refl

handle_asks_example :
    (asked : Db) × (reply request
      ≡ then_yield (meta_event request "msg_A" ∷ []) (
          run_compiled plain exception_text ok one_chunk 7 topic request "msg_A"
            (build_graph plain topic >>= ok)
            asked))
    × (list_recent "th_1" 3 asked
        ≡ numbered 7 (question_of request "msg_Q") some_db.messages ∷ list_recent "th_1" 2 some_db)
    × (find_session "th_1" asked.sessions ≡ some bound_session)
    × (bound_session.biz_id ≡ "sales")
unfolding get
handle_asks_example =
    handle_asks plain exception_text ok one_chunk topics topic 7 2 "A" "Q" request bound_session
      some_db bound_db refl refl bound_now refl

abbrev other_request : ChatRequest
other_request = record request { biz_id = "finance" }

handle_refuses_example :
    (opening : List ChatEvent) × (payload : Value) × (reply other_request ≡ (
      opening
          ++ chat_event error payload ∷ chat_event done (dict (("status", str "failed") ∷ [])) ∷ [],
      ok tt,
      some_db,
    ))
unfolding get
handle_refuses_example =
    handle_refuses plain exception_text ok one_chunk topics 7 "A" "Q" other_request some_db
      (inl refl)

abbrev next_state : GraphState
next_state = initial_state request "msg_B"

turn_is_remembered_example :
    let asked = (append 1 question bound_db).1 in
    let answered = (append 2 answer asked).1 in
    let later = (append 3 next_question answered).1 in
    (earlier : List Message) × (load_session_node 1 4 next_state later ≡ (
      ok (record no_update {
        history = some (
            earlier
            ++ numbered 1 question bound_db.messages ∷ numbered 2 answer asked.messages ∷ []);
      }),
      later,
    ))
unfolding append
turn_is_remembered_example =
    turn_is_remembered 1 2 3 4 1 question answer next_question bound_db next_state user "sales"
      bound_session refl refl refl refl refl (omega arith) refl refl refl refl refl refl refl refl
      refl refl

validate_consistency_iff_example : (validate_consistency config ≡ ok tt) ↔ IsConsistent config
validate_consistency_iff_example = validate_consistency_iff config

test_config : model_validate config ≡ ok config
unfolding model_validate
test_config = refl
