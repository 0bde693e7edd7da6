-- ===== src/Chat/Walk/Answer.antt =====
-- A request that goes through the whole graph: history, auth, enrich, intent, an adapter, the answer.
use ocm_agent_v.Common.{
  find_entry, Exn, Outcome, ok, ℕ, String, ◌<>◌, ◌≡◌, refl, ap, ◌∙◌, true, some, List, [], ◌∷◌,
  ◌++◌, map, arith,
}
use ocm_agent_v.Repo.Models.{Timestamp, Session, Db}
use ocm_agent_v.Plugin.Formats.{Formats}
use ocm_agent_v.Graph.State.{AuthResult, GraphState, no_update, extend, merge}
use ocm_agent_v.Graph.Trace.{Effect, emissions}
use ocm_agent_v.Graph.Nodes.{StreamEnd, finished, adapter_node}
use ocm_agent_v.Graph.Nodes.Adapter.{content}
use ocm_agent_v.Graph.Nodes.Updates.{answer_update, adapter_node_writes}
use ocm_agent_v.Graph.Builtins.{answer_status, persist_node}
use ocm_agent_v.Graph.Builtins.Answer.{concat}
use ocm_agent_v.Chat.Flow.{
  CompiledTopic, StateGraph, graph_start, graph_end, first_mapping, described, db_node, pure_node,
}
use ocm_agent_v.Graph.Events.{ChatEvent}
use ocm_agent_v.Chat.{
  ChatRequest, StreamedEvent, or_empty, initial_state, meta_event, done_event, handle,
}
use ocm_agent_v.Chat.Walk.{Walk, arrives, visits, dispatched, FollowsWalks}
use ocm_agent_v.Chat.Walk.Places.{
  HasOwnNames, differs, adapter_leads, adapter_stands, persist_leads, persist_stands,
}
use ocm_agent_v.Chat.Walk.Relay.{passed, deltas, deltas-passed, relay_customs-passed}
use ocm_agent_v.Chat.Walk.Asked.{IsAdmitted, asked, IsAnswered, persist_answers, handle_walks}
use ocm_agent_v.Chat.Walk.Reject.{content_of}
use ocm_agent_v.Chat.Walk.Ahead.{IsReached, reaches_adapter}
use ocm_agent_v.Chat.Walk.Steps.{
  texts_kept, shown_texts, status-IsEnded, behind, emissions-end, not_end, ShowsTexts, Permits,
  Prepares, Routes, AnswersInText, IsEnded,
}

module _ (f : Formats) (topic : CompiledTopic) (mapping : List (String × String))
    (own : HasOwnNames topic.adapters) (now : Timestamp) {topics : List (String × CompiledTopic)}
    {answer_id question_id : String} {req : ChatRequest} {s : Session} {db bound : Db}
    (admitted : IsAdmitted topics topic now answer_id question_id req s db bound) (limit : ℕ) where
  abbrev start : Db
  start = asked now question_id req db bound

  -- From behind the intent node: the adapter, and the node that stores its answer.
  pub IsAnswered-Walk :
      (r : IsReached f topic mapping now answer_id req start) (texts : List String)
      → let es =
          (adapter_node f r.run true (find_entry r.target topic.adapter_retries) r.state).0 in
        emissions "delta" es ≡ map content_of texts
        → (status : String) × (final : Db) × Walk
            (described f topic mapping)
            now
            6
            graph_start
            (initial_state req answer_id)
            start
            (r.ahead ++ (es ++ []))
            finished
            final
          × IsEnded status
          × IsAnswered admitted limit (concat texts) status final
  unfolding merge
  IsAnswered-Walk r texts shown =
      let retry = find_entry r.target topic.adapter_retries in
      let es = (adapter_node f r.run true retry r.state).0 in
      let (chunks, cut, returns, kept) = adapter_node_writes f r.run retry r.state in
      let u = answer_update chunks cut in
      let next = merge r.state u in
      let (stored, answered) =
        persist_answers admitted limit next texts r.named r.placed r.requested (
          ap (λ o. extend o (some chunks)) r.no_answer
          ∙ ap some (texts_kept chunks texts (kept ∙ ap (map content) shown))) in
      let final = (db_node persist_node now next start).1 in
      (
        answer_status next,
        final,
        r.walk_on 2 (es ++ []) finished final (
            visits r.target (pure_node (adapter_node f r.run true retry)) es u start r.way
              (not_end r.target (differs f topic mapping own r.target r.run r.found graph_end refl))
              (adapter_stands f topic mapping own r.target r.run r.found)
              (ap (λ (o : Outcome GraphState). ((es, o), start)) returns)
              (visits "persist_node" (db_node persist_node) [] no_update final
                (adapter_leads f topic mapping own r.target r.run r.found next) refl
                (persist_stands f topic mapping own) stored
                (arrives (persist_leads f topic mapping own (merge next no_update))))),
        status-IsEnded next,
        answered,
      )

module _ (f : Formats) (topic : CompiledTopic) (mapping : List (String × String))
    (own : HasOwnNames topic.adapters) (now : Timestamp) {topics : List (String × CompiledTopic)}
    {answer_id question_id : String} {req : ChatRequest} {s : Session} {db bound : Db}
    (admitted : IsAdmitted topics topic now answer_id question_id req s db bound) (a : AuthResult)
    (permits : Permits topic req answer_id a) (prepares : Prepares topic)
    (routes : Routes topic mapping) (textual : AnswersInText f topic) (limit : ℕ) where
  full-Walk :
      (es : List Effect) × (texts : List String) × (status : String) × (final : Db) × Walk
        (described f topic mapping)
        now
        6
        graph_start
        (initial_state req answer_id)
        (asked now question_id req db bound)
        es
        finished
        final
      × ShowsTexts es texts
      × IsEnded status
      × IsAnswered admitted limit (concat texts) status final
  full-Walk =
      let r = reaches_adapter f topic mapping own now admitted a permits prepares routes in
      let es = (adapter_node f r.run true (find_entry r.target topic.adapter_retries) r.state).0 in
      let (texts, shown, quiet) = textual r.target r.run r.state r.found in
      let (status, final, walk, ended, answered) =
        IsAnswered-Walk f topic mapping own now admitted limit r texts shown in
      (
        _,
        texts,
        status,
        final,
        walk,
        (
          behind "delta" r.ahead (es ++ []) r.no_content ∙ emissions-end "delta" es ∙ shown,
          behind "error" r.ahead (es ++ []) r.no_error ∙ emissions-end "error" es ∙ quiet,
        ),
        ended,
        answered,
      )

module _ (f : Formats) (text_of : Exn → String) {Graph : Type 0}
    (compile : StateGraph → Outcome Graph)
    (astream_events : Graph → Timestamp → GraphState → Db → (List StreamedEvent × StreamEnd) × Db)
    (follows : FollowsWalks compile astream_events) where
  -- If LangGraph runs graphs as it documents, the request is admitted, the auth plugin lets it pass,
  -- the enrich plugin raises nothing, the intent plugin is not cancelled (it may fail, or name a
  -- route that is not known), every route leads to an adapter, and what the adapters show is text
  -- and no error: the user is shown the `meta` event, then the events of the run, whose contents
  -- are texts in their order, then `done`; and the texts, joined, are stored as the answer to the
  -- question, which is the message before it, with the status `complete` or `partial`.
  pub handle_answers :
      (topics : List (String × CompiledTopic)) (topic : CompiledTopic) (now : Timestamp) (limit : ℕ)
      (answer_ulid question_ulid : String) (req : ChatRequest) (s : Session) (db bound : Db)
      (mapping : List (String × String)) (graph : Graph) (a : AuthResult)
      (admitted : IsAdmitted topics topic now
        ("msg_" <> answer_ulid)
        ("msg_" <> question_ulid)
        req
        s
        db
        bound)
      → first_mapping topic.config.edges ≡ ok mapping
      → compile (described f topic mapping) ≡ ok graph
      → HasOwnNames topic.adapters
      → Permits topic req ("msg_" <> answer_ulid) a
      → Prepares topic
      → Routes topic mapping
      → AnswersInText f topic
      → (shown : List ChatEvent) × (texts : List String) × (status : String) × (final : Db)
        × (handle f text_of compile astream_events topics now answer_ulid question_ulid req db ≡ (
          meta_event req ("msg_" <> answer_ulid) ∷ shown ++ done_event ("msg_" <> answer_ulid) ∷ [],
          ok tt,
          final,
        ))
        × (deltas shown ≡ map content_of texts)
        × IsEnded status
        × IsAnswered admitted limit (concat texts) status final
  handle_answers topics topic now limit answer_ulid question_ulid req s db bound mapping graph a
        admitted first compiles own permits prepares routes textual =
      let (es, texts, status, final, walk, (contents, quiet), ended, answered) =
        full-Walk f topic mapping own now admitted a permits prepares routes textual limit in
      (
        passed (dispatched es),
        texts,
        status,
        final,
        handle_walks f text_of compile astream_events follows topics topic now answer_ulid
            question_ulid req s db bound mapping graph 6 es (passed (dispatched es)) finished final
            admitted first compiles (omega arith) walk
            (relay_customs-passed topic.error_messages es finished quiet),
        deltas-passed es ∙ ap (map or_empty) contents ∙ shown_texts texts,
        ended,
        answered,
      )
