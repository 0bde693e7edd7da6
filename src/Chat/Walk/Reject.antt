-- ===== src/Chat/Walk/Reject.antt =====
-- A request that the topic's auth plugin does not let pass.
use text.Mathlib.TextLemmas.{append-nil}
use ocm_agent_v.Common.{
  subst, Exn, Outcome, ok, ℕ, ◌*◌, String, ◌<>◌, ◌≡◌, refl, ◌∙◌, Bool, false, some, List, [], ◌∷◌,
  arith,
}
use ocm_agent_v.Value.{Value, str, bool, dict}
use ocm_agent_v.Repo.Models.{Timestamp, Session, Message, Db}
use ocm_agent_v.Repo.Messages.{list_recent}
use ocm_agent_v.Plugin.Formats.{Formats}
use ocm_agent_v.Graph.State.{AuthResult, GraphState, no_update, merge}
use ocm_agent_v.Graph.Trace.{Effect, emit, emissions}
use ocm_agent_v.Graph.Events.{thinking, progress, delta}
use ocm_agent_v.Graph.Nodes.{StreamEnd, finished, auth_node}
use ocm_agent_v.Graph.Builtins.{
  build_history, reject_text, reject_node, load_session_node, persist_node,
}
use ocm_agent_v.Chat.Flow.{
  CompiledTopic, StateGraph, graph_start, first_mapping, described, db_node, pure_node,
}
use ocm_agent_v.Chat.{
  ChatRequest, StreamedEvent, chat_event, initial_state, meta_event, done_event, handle,
}
use ocm_agent_v.Chat.Walk.{Walk, arrives, visits, FollowsWalks}
use ocm_agent_v.Chat.Walk.Places.{
  HasOwnNames, start_leads, load_leads, auth_leads, reject_leads, persist_leads, persist_stands,
}
use ocm_agent_v.Chat.Walk.Asked.{
  IsAdmitted, asked, history_update, loaded, load_session_runs, asked_bound, IsAnswered,
  persist_answers, handle_walks,
}

abbrev pub auth_thinking : Value
auth_thinking = dict (("phase", str "auth") ∷ ("label", str "正在校验权限…") ∷ [])

abbrev pub auth_progress : Bool → Value
auth_progress passed = dict (
    ("step", str "auth")
    ∷ ("status", str "done")
    ∷ ("extra", dict (("passed", bool passed) ∷ []))
    ∷ [])

abbrev pub content_of : String → Value
content_of text = dict (("content", str text) ∷ [])

abbrev rejected_update : AuthResult → GraphState
rejected_update a = record no_update { auth = some a; route = some "reject" }

auth_rejects :
    (authorize : GraphState → Outcome AuthResult) (a : AuthResult) (now : Timestamp)
    (s : GraphState) (db : Db)
    → authorize s ≡ ok a
    → a.passed ≡ false
    → pure_node (auth_node authorize) now s db ≡ (
      (
        emit "thinking" auth_thinking ∷ emit "progress" (auth_progress false) ∷ [],
        ok (rejected_update a),
      ),
      db,
    )
unfolding auth_node
auth_rejects authorize a now s db h fails = rw (h, fails) refl

module _ (f : Formats) (topic : CompiledTopic) (mapping : List (String × String))
    (own : HasOwnNames topic.adapters) (now : Timestamp) {topics : List (String × CompiledTopic)}
    {answer_id question_id : String} {req : ChatRequest} {s : Session} {db bound : Db}
    (admitted : IsAdmitted topics topic now answer_id question_id req s db bound) (a : AuthResult)
    (denies : (h : List Message) → topic.auth (loaded req answer_id h) ≡ ok a)
    (fails : a.passed ≡ false) where
  abbrev message : String
  message = reject_text topic.error_messages (some a)

  abbrev rejected_effects : List Effect
  rejected_effects =
      emit "thinking" auth_thinking
      ∷ emit "progress" (auth_progress false)
      ∷ emit "delta" (content_of message)
      ∷ []

  rejected-Walk :
      (limit : ℕ)
      → (final : Db) × Walk
          (described f topic mapping)
          now
          4
          graph_start
          (initial_state req answer_id)
          (asked now question_id req db bound)
          rejected_effects
          finished
          final
        × IsAnswered admitted limit message "complete" final
  unfolding merge reject_node
  rejected-Walk limit =
      let start = asked now question_id req db bound in
      let (found, same) = asked_bound admitted in
      let h =
        build_history topic.max_turns (list_recent req.thread_id (topic.max_turns * 4) start) in
      let s1 = loaded req answer_id h in
      let s2 = merge s1 (rejected_update a) in
      let s3 = merge s2 (record no_update { answer_chunks = some (str message ∷ []) }) in
      let (stored, answered) =
        persist_answers admitted limit s3 (message ∷ []) refl refl refl refl in
      let final = (db_node persist_node now s3 start).1 in
      (
        final,
        visits "load_session" (db_node (load_session_node topic.max_turns)) [] (history_update h)
            start (start_leads f topic mapping own (initial_state req answer_id)) refl refl
            (load_session_runs topic.max_turns now answer_id req s start found same)
            (visits "auth_node" (pure_node (auth_node topic.auth))
              (emit "thinking" auth_thinking ∷ emit "progress" (auth_progress false) ∷ [])
              (rejected_update a) start (load_leads f topic mapping own s1) refl refl
              (auth_rejects topic.auth a now s1 start (denies h) fails)
              (visits "reject_node" (pure_node (reject_node topic.error_messages))
                (emit "delta" (content_of message) ∷ []) _ start
                (auth_leads f topic mapping own s2 a refl ∙ rw fails refl) refl refl refl
                (visits "persist_node" (db_node persist_node) [] no_update final
                  (reject_leads f topic mapping own s3) refl (persist_stands f topic mapping own)
                  stored (arrives (persist_leads f topic mapping own (merge s3 no_update)))))),
        subst (λ t. IsAnswered admitted limit t "complete" final) (append-nil message) answered,
      )

module _ (f : Formats) (text_of : Exn → String) {Graph : Type 0}
    (compile : StateGraph → Outcome Graph)
    (astream_events : Graph → Timestamp → GraphState → Db → (List StreamedEvent × StreamEnd) × Db)
    (follows : FollowsWalks compile astream_events) where
  -- If LangGraph runs graphs as it documents, the request is admitted, and the auth plugin lets it
  -- not pass, whatever the history: the user is shown the check, its outcome and the text of the
  -- rejection, and nothing else; no error is reported; and that text is stored as the complete
  -- answer to the question, which is the message before it.
  pub handle_rejects :
      (topics : List (String × CompiledTopic)) (topic : CompiledTopic) (now : Timestamp) (limit : ℕ)
      (answer_ulid question_ulid : String) (req : ChatRequest) (s : Session) (db bound : Db)
      (mapping : List (String × String)) (graph : Graph) (a : AuthResult)
      (admitted : IsAdmitted topics topic now
        ("msg_" <> answer_ulid)
        ("msg_" <> question_ulid)
        req
        s
        db
        bound)
      → first_mapping topic.config.edges ≡ ok mapping
      → compile (described f topic mapping) ≡ ok graph
      → HasOwnNames topic.adapters
      → ((h : List Message) → topic.auth (loaded req ("msg_" <> answer_ulid) h) ≡ ok a)
      → a.passed ≡ false
      → let shown = reject_text topic.error_messages (some a) in
        (final : Db) × (handle f text_of compile astream_events topics now answer_ulid question_ulid
            req db
          ≡ (
            meta_event req ("msg_" <> answer_ulid)
                ∷ chat_event thinking auth_thinking
                ∷ chat_event progress (auth_progress false)
                ∷ chat_event delta (content_of shown)
                ∷ done_event ("msg_" <> answer_ulid)
                ∷ [],
            ok tt,
            final,
          ))
        × IsAnswered admitted limit shown "complete" final
  unfolding emissions
  handle_rejects topics topic now limit answer_ulid question_ulid req s db bound mapping graph a
        admitted first compiles own denies fails =
      let (final, walk, answered) =
        rejected-Walk f topic mapping own now admitted a denies fails limit in
      (
        final,
        handle_walks f text_of compile astream_events follows topics topic now answer_ulid
            question_ulid req s db bound mapping graph 4 _ _ finished final admitted first compiles
            (omega arith) walk refl,
        answered,
      )
