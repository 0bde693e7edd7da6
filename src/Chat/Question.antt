-- ===== src/Chat/Question.antt =====
-- What a request writes before its graph runs, and what the next request of the thread sees of it.
use ocm_agent_v.Common.{
  Exn, topic_not_found, is_exception, Outcome, ok, raised, ◌>>=◌, ℕ, suc, String, ◌<>◌, ◌≡◌, refl,
  ◌⊎◌, inl, inr, true, false, Option, none, some, List, [], ◌∷◌, ◌++◌, arith, ◌==◌,
}
use ocm_agent_v.Value.{Fields, Value, str, dict}
use ocm_agent_v.Repo.Models.{Timestamp, Session, Message, Db}
use ocm_agent_v.Repo.Sessions.{find_session, mismatch_text, get_or_create_amid, get_or_create}
use ocm_agent_v.Repo.Sessions.Binding.{get_or_create-finds}
use ocm_agent_v.Repo.Messages.{numbered, list_recent}
use ocm_agent_v.Repo.Messages.Append.{has_id, append_fresh, append-list_recent}
use ocm_agent_v.Plugin.Formats.{Formats}
use ocm_agent_v.Graph.State.{GraphState}
use ocm_agent_v.Graph.Nodes.{StreamEnd}
use ocm_agent_v.Graph.Builtins.Memory.{question_message}
use ocm_agent_v.Graph.Events.{error, done, ChatEvent}
use ocm_agent_v.Topic.Registry.{get}
use ocm_agent_v.Chat.Flow.{CompiledTopic, StateGraph, build_graph}
use ocm_agent_v.Chat.{
  ChatRequest, StreamedEvent, chat_event, then_yield, refused, persist_user_message, meta_event,
  run_compiled, handle,
}

get_or_create-messages :
    (now : Timestamp) (thread biz account : String) (ext : Option Fields) (db : Db)
    → (get_or_create now thread biz account ext db).1.messages ≡ db.messages
unfolding get_or_create
get_or_create-messages now thread biz account ext db = ground arith

-- The message that stands for a question.
abbrev pub question_of : ChatRequest → String → Message
question_of req id = question_message id req.thread_id req.question req.request_id

pub persist_user_message_lem :
    (now : Timestamp) (id : String) (req : ChatRequest) (s : Session) (db bound : Db)
    → get_or_create now req.thread_id req.biz_id req.w3_account none db ≡ (ok s, bound)
    → has_id id db.messages ≡ false
    → persist_user_message now id req db ≡ (
      ok tt,
      record bound { messages = db.messages ++ numbered now (question_of req id) db.messages ∷ [] },
    )
unfolding persist_user_message
persist_user_message_lem now id req s db bound h fresh =
    let same : bound.messages ≡ db.messages =
      rw h at (get_or_create-messages now req.thread_id req.biz_id req.w3_account none db) in
    rw h (rw (append_fresh now (question_of req id) bound refl (rw same fresh)) (rw same refl))

module _ (f : Formats) (text_of : Exn → String) {Graph : Type 0}
    (compile : StateGraph → Outcome Graph)
    (astream_events : Graph
      → Timestamp
      → GraphState
      → Db
      → (List StreamedEvent × StreamEnd) × Db) where
  -- A request to a known topic with admitted parameters, on a thread that is new or bound to that
  -- topic, and with a new id for its question: the `meta` event is followed by the run of the
  -- topic's graph, which starts when the question is the newest message of the thread, and when the
  -- thread's session is there and is bound to the topic.
  pub handle_asks :
      (topics : List (String × CompiledTopic)) (topic : CompiledTopic) (now limit : ℕ)
      (answer_ulid question_ulid : String) (req : ChatRequest) (s : Session) (db bound : Db)
      → get req.biz_id topics ≡ ok topic
      → topic.biz_params_model req.biz_params ≡ ok tt
      → get_or_create now req.thread_id req.biz_id req.w3_account none db ≡ (ok s, bound)
      → has_id ("msg_" <> question_ulid) db.messages ≡ false
      → (asked : Db) × (handle f text_of compile astream_events topics now answer_ulid question_ulid
            req db
          ≡ then_yield (meta_event req ("msg_" <> answer_ulid) ∷ []) (
              run_compiled f text_of compile astream_events now topic req
                ("msg_" <> answer_ulid)
                (build_graph f topic >>= compile)
                asked))
        × (list_recent req.thread_id (suc limit) asked
            ≡ numbered now (question_of req ("msg_" <> question_ulid)) db.messages
              ∷ list_recent req.thread_id limit db)
        × (find_session req.thread_id asked.sessions ≡ some s)
        × (s.biz_id ≡ req.biz_id)
  unfolding handle list_recent
  handle_asks topics topic now limit answer_ulid question_ulid req s db bound known valid h fresh =
      let id = "msg_" <> question_ulid in
      let (found, same_topic) =
        get_or_create-finds now req.thread_id req.biz_id req.w3_account none db s bound h in
      let (_, newest) = append-list_recent now limit (question_of req id) db refl fresh refl in
      let stored = append_fresh now (question_of req id) db refl fresh in
      (
        record bound {
          messages = db.messages ++ numbered now (question_of req id) db.messages ∷ [];
        },
        rw (known, valid, persist_user_message_lem now id req s db bound h fresh) refl,
        (rw stored at newest),
        found,
        same_topic,
      )

  -- A request that is refused writes nothing, and ends with one error and the `done` that reports
  -- the failure: its topic is not known, its parameters are not admitted, or its thread is bound to
  -- another topic.
  pub handle_refuses :
      (topics : List (String × CompiledTopic)) (now : ℕ) (answer_ulid question_ulid : String)
      (req : ChatRequest) (db : Db)
      → (get req.biz_id topics ≡ raised (topic_not_found req.biz_id))
        ⊎ ((topic : CompiledTopic) × (get req.biz_id topics ≡ ok topic)
            × (((e : Exn) × (topic.biz_params_model req.biz_params ≡ raised e)
                  × (is_exception e ≡ true))
                ⊎ ((topic.biz_params_model req.biz_params ≡ ok tt)
                    × ((s : Session) × (find_session req.thread_id db.sessions ≡ some s)
                        × ((s.biz_id == req.biz_id) ≡ false)))))
      → (opening : List ChatEvent) × (payload : Value) × (handle f text_of compile astream_events
            topics now answer_ulid question_ulid req db
          ≡ (
            opening
                ++ chat_event error payload
                  ∷ chat_event done (dict (("status", str "failed") ∷ []))
                  ∷ [],
            ok tt,
            db,
          ))
  unfolding handle get_or_create
  handle_refuses topics now answer_ulid question_ulid req db (inl unknown) = (
    [],
    dict (refused "TOPIC_NOT_FOUND" ("未配置专题：" <> req.biz_id) [] req.request_id),
    rw unknown refl,
  )
  handle_refuses topics now answer_ulid question_ulid req db
        (inr (topic, known, inl (e, invalid, c))) =
      (
        [],
        dict (refused "BAD_REQUEST" "请求参数不合法" (("detail", str (text_of e)) ∷ []) req.request_id),
        rw (known, invalid, c) refl,
      )
  handle_refuses topics now answer_ulid question_ulid req db
        (inr (topic, known, inr (valid, (s, found, other)))) =
      let text = mismatch_text req.thread_id s.biz_id req.biz_id in
      (
        meta_event req ("msg_" <> answer_ulid) ∷ [],
        dict (
            refused "BAD_REQUEST" "thread_id 已绑定到其它专题，无法跨专题复用" (("detail", str text) ∷ [])
              req.request_id),
        rw (known, valid, persist_user_message, get_or_create, get_or_create_amid, found, other)
            refl,
      )
