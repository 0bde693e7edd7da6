-- ===== src/Chat/Walk/Asked.antt =====
-- A request that is admitted, up to the walk through its topic's graph.
use ocm_agent_v.Common.{
  suc, map, Bool-cases, inl, inr, Exn, Outcome, ok, ℕ, ◌*◌, ◌<◌, String, ◌<>◌, ◌≡◌, refl, ap, ◌∙◌,
  false, none, some, List, [], ◌∷◌, ◌++◌, ◌==◌,
}
use ocm_agent_v.Value.{str}
use ocm_agent_v.Repo.Models.{Timestamp, Session, Message, Db}
use ocm_agent_v.Repo.Sessions.{find_session, get_or_create}
use ocm_agent_v.Repo.Sessions.Binding.{get_or_create-finds}
use ocm_agent_v.Repo.Sessions.Table.{found_again}
use ocm_agent_v.Repo.Messages.{numbered, list_recent}
use ocm_agent_v.Repo.Messages.Append.{has_id, append_fresh, append-list_recent}
use ocm_agent_v.Plugin.Formats.{Formats}
use ocm_agent_v.Graph.State.{GraphState, no_update, merge}
use ocm_agent_v.Graph.Trace.{Effect}
use ocm_agent_v.Graph.Nodes.{StreamEnd}
use ocm_agent_v.Graph.Builtins.{
  build_history, answer_status, answer_message, load_session_node, persist_node,
}
use ocm_agent_v.Graph.Builtins.Answer.{concat, persist_node_writes}
use ocm_agent_v.Topic.Registry.{get}
use ocm_agent_v.Chat.Flow.{
  CompiledTopic, StateGraph, graph_start, first_mapping, described, build_graph, db_node,
}
use ocm_agent_v.Chat.{
  ChatRequest, StreamedEvent, then_yield, initial_state, meta_event, finish, handle, relay_all,
}
use ocm_agent_v.Chat.Question.{question_of, persist_user_message_lem}
use ocm_agent_v.Chat.Walk.{Walk, customs, dispatched, FollowsWalks}
use ocm_agent_v.Chat.Walk.Relay.{relay_customs, relay_all-customs}
use ocm_agent_v.Graph.Events.{ChatEvent}

-- The topic is known, the parameters are admitted, the thread is new or bound to the topic, and the
-- ids of the two messages are new.
pub record IsAdmitted (topics : List (String × CompiledTopic)) (topic : CompiledTopic)
    (now : Timestamp) (answer_id question_id : String) (req : ChatRequest) (s : Session)
    (db bound : Db) : Type 0 where
  pub known : get req.biz_id topics ≡ ok topic
  pub valid : topic.biz_params_model req.biz_params ≡ ok tt
  pub opened : get_or_create now req.thread_id req.biz_id req.w3_account none db ≡ (ok s, bound)
  pub new_question : has_id question_id db.messages ≡ false
  pub new_answer : has_id answer_id db.messages ≡ false
  pub two_ids : (answer_id == question_id) ≡ false

-- The database when the graph starts.
abbrev pub asked : Timestamp → String → ChatRequest → Db → Db → Db
asked now question_id req db bound = record bound {
  messages = db.messages ++ numbered now (question_of req question_id) db.messages ∷ [];
}

abbrev pub history_update : List Message → GraphState
history_update h = record no_update { history = some h }

-- The state behind `load_session`.
abbrev pub loaded : ChatRequest → String → List Message → GraphState
loaded req answer_id h = merge (initial_state req answer_id) (history_update h)

pub has_id-append :
    (id : String) (rows : List Message) (m : Message)
    → has_id id rows ≡ false
    → (id == m.message_id) ≡ false
    → has_id id (rows ++ m ∷ []) ≡ false
has_id-append id [] m h k = rw k refl
has_id-append id (x ∷ rows) m h k = elim (Bool-cases (id == x.message_id)) [
  | inl e ↦ absurd (cc (rw e at h))
  | inr e ↦ rw e (has_id-append id rows m (rw e at h) k)
]

-- `load_session` finds the session, and gives the history.
pub load_session_runs :
    (max_turns : ℕ) (now : Timestamp) (answer_id : String) (req : ChatRequest) (s : Session)
    (db : Db)
    → find_session req.thread_id db.sessions ≡ some s
    → s.biz_id ≡ req.biz_id
    → db_node (load_session_node max_turns) now (initial_state req answer_id) db ≡ (
      (
        [],
        ok (
            history_update
              (build_history max_turns (list_recent req.thread_id (max_turns * 4) db))),
      ),
      db,
    )
unfolding load_session_node
load_session_runs max_turns now answer_id req s db found same =
    rw (found_again now req.thread_id req.biz_id _ db s found same) refl

-- What the graph finds when it starts: the question is the newest message, the session is bound to
-- the topic, and the answer's id is still new.
module _ {topics : List (String × CompiledTopic)} {topic : CompiledTopic} {now : Timestamp}
    {answer_id question_id : String} {req : ChatRequest} {s : Session} {db bound : Db}
    (admitted : IsAdmitted topics topic now answer_id question_id req s db bound) where
  pub asked_newest :
      (limit : ℕ)
      → list_recent req.thread_id (suc limit) (asked now question_id req db bound)
        ≡ numbered now (question_of req question_id) db.messages
          ∷ list_recent req.thread_id limit db
  unfolding list_recent
  asked_newest limit =
      let (_, newest) =
        append-list_recent now limit (question_of req question_id) db refl admitted.new_question
          refl in
      rw (append_fresh now (question_of req question_id) db refl admitted.new_question) at newest

  pub asked_bound :
      (find_session req.thread_id (asked now question_id req db bound).sessions ≡ some s)
      × (s.biz_id ≡ req.biz_id)
  asked_bound =
      get_or_create-finds now req.thread_id req.biz_id req.w3_account none db s bound
        admitted.opened

  pub asked_fresh : has_id answer_id (asked now question_id req db bound).messages ≡ false
  asked_fresh = has_id-append answer_id db.messages _ admitted.new_answer admitted.two_ids

  -- The thread ends with the question and a message that answers it.
  abbrev pub IsAnswered : ℕ → String → String → Db → Type 0
  IsAnswered limit text status final =
      (m : Message) × (list_recent req.thread_id (suc (suc limit)) final
        ≡ m
          ∷ numbered now (question_of req question_id) db.messages
          ∷ list_recent req.thread_id limit db)
      × (m.message_id ≡ answer_id)
      × (m.role ≡ "assistant")
      × (m.content ≡ text)
      × (m.status ≡ status)
      × (m.request_id ≡ some req.request_id)

  -- The node that stores an answer, behind the node that gave it.
  pub persist_answers :
      (limit : ℕ) (state : GraphState) (texts : List String)
      → state.assistant_message_id ≡ some answer_id
      → state.thread_id ≡ some req.thread_id
      → state.request_id ≡ some req.request_id
      → state.answer_chunks ≡ some (map str texts)
      → let r = db_node persist_node now state (asked now question_id req db bound) in
        (r ≡ (([], ok no_update), r.1)) × IsAnswered limit (concat texts) (answer_status state) r.1
  persist_answers limit state texts named placed its chunks =
      let before = asked now question_id req db bound in
      let (returns, newest, times) =
        persist_node_writes now (suc limit) state answer_id req.thread_id texts before named placed
          chunks asked_fresh in
      let answer = answer_message state answer_id req.thread_id (concat texts) in
      (
        ap (λ (o : Outcome GraphState). (([], o), (persist_node now state before).1)) returns,
        (
          numbered now answer before.messages,
          newest ∙ ap (λ l. numbered now answer before.messages ∷ l) (asked_newest limit),
          refl,
          refl,
          refl,
          refl,
          its,
        ),
      )

finish_walk :
    (messages : List (String × String)) (req : ChatRequest) (answer_id : String)
    (r : (List StreamedEvent × StreamEnd) × Db) (es : List Effect) (shown : List ChatEvent)
    (last : StreamEnd) (final : Db)
    → customs r.0.0 ≡ dispatched es
    → r.0.1 ≡ last
    → r.1 ≡ final
    → relay_customs messages (dispatched es) last ≡ (shown, last)
    → (let relayed = relay_all messages r.0.0 r.0.1 in
        then_yield relayed.0 (finish messages req answer_id relayed.1 r.1))
      ≡ then_yield shown (finish messages req answer_id last final)
finish_walk messages req answer_id ((events, l), d) es shown last final c e k relays =
    rw (e, k, relay_all-customs messages events last, c, relays) refl

module _ (f : Formats) (text_of : Exn → String) {Graph : Type 0}
    (compile : StateGraph → Outcome Graph)
    (astream_events : Graph → Timestamp → GraphState → Db → (List StreamedEvent × StreamEnd) × Db)
    (follows : FollowsWalks compile astream_events) where
  -- What is passed on of a walk through the graph is what the request shows between its `meta` and
  -- its end.
  pub handle_walks :
      (topics : List (String × CompiledTopic)) (topic : CompiledTopic) (now : Timestamp)
      (answer_ulid question_ulid : String) (req : ChatRequest) (s : Session) (db bound : Db)
      (mapping : List (String × String)) (graph : Graph) (n : ℕ) (es : List Effect)
      (shown : List ChatEvent) (last : StreamEnd) (final : Db)
      → IsAdmitted topics topic now ("msg_" <> answer_ulid) ("msg_" <> question_ulid) req s db bound
      → first_mapping topic.config.edges ≡ ok mapping
      → compile (described f topic mapping) ≡ ok graph
      → n < 25
      → Walk
          (described f topic mapping)
          now
          n
          graph_start
          (initial_state req ("msg_" <> answer_ulid))
          (asked now ("msg_" <> question_ulid) req db bound)
          es
          last
          final
      → relay_customs topic.error_messages (dispatched es) last ≡ (shown, last)
      → handle f text_of compile astream_events topics now answer_ulid question_ulid req db
        ≡ then_yield
            (meta_event req ("msg_" <> answer_ulid) ∷ [])
            (then_yield shown (finish topic.error_messages req ("msg_" <> answer_ulid) last final))
  unfolding handle build_graph
  handle_walks topics topic now answer_ulid question_ulid req s db bound mapping graph n es shown
        last final admitted first compiles short walk relays =
      let id = "msg_" <> question_ulid in
      let state = initial_state req ("msg_" <> answer_ulid) in
      let (c, e, k) =
        follows (described f topic mapping) graph now state (asked now id req db bound) n es last
          final compiles short walk in
      rw
        (
          admitted.known,
          admitted.valid,
          persist_user_message_lem now id req s db bound admitted.opened admitted.new_question,
          first,
          compiles,
        )
        (ap (then_yield (meta_event req ("msg_" <> answer_ulid) ∷ [])) (
          finish_walk topic.error_messages req ("msg_" <> answer_ulid)
            (astream_events graph now state (asked now id req db bound)) es shown last final c e k
            relays))
