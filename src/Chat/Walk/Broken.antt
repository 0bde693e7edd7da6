-- ===== src/Chat/Walk/Broken.antt =====
-- A request whose adapter delivers a chunk that is no text.
use ocm_agent_v.Common.{
  suc, map, find_entry, Exn, type_error, Outcome, ok, ℕ, String, ◌<>◌, ◌≡◌, refl, ap, ◌∙◌, Bool,
  true, false, some, List, [], ◌∷◌, ◌++◌, arith,
}
use ocm_agent_v.Value.{Value, str}
use ocm_agent_v.Repo.Models.{Timestamp, Session, Db}
use ocm_agent_v.Repo.Messages.{numbered, list_recent}
use ocm_agent_v.Plugin.Formats.{Formats}
use ocm_agent_v.Graph.State.{AuthResult, GraphState, extend, merge}
use ocm_agent_v.Graph.Trace.{Effect, emissions}
use ocm_agent_v.Graph.Nodes.{StreamEnd, failed, Stream, adapter_node}
use ocm_agent_v.Graph.Nodes.Adapter.{content}
use ocm_agent_v.Graph.Nodes.Updates.{answer_update, adapter_node_writes}
use ocm_agent_v.Graph.Builtins.{persist_node}
use ocm_agent_v.Graph.Builtins.Answer.{is_text, persist_node_no_text}
use ocm_agent_v.Graph.Events.{ChatEvent}
use ocm_agent_v.Chat.Flow.{
  CompiledTopic, StateGraph, graph_start, graph_end, first_mapping, described, db_node, pure_node,
}
use ocm_agent_v.Chat.{
  ChatRequest, StreamedEvent, initial_state, meta_event, done_event, internal_error, handle,
}
use ocm_agent_v.Chat.Question.{question_of}
use ocm_agent_v.Chat.Walk.{Walk, visits, breaks, dispatched, FollowsWalks}
use ocm_agent_v.Chat.Walk.Places.{
  HasOwnNames, differs, adapter_leads, adapter_stands, persist_stands,
}
use ocm_agent_v.Chat.Walk.Relay.{passed, relay_customs-passed}
use ocm_agent_v.Chat.Walk.Asked.{IsAdmitted, asked, asked_newest, handle_walks}
use ocm_agent_v.Chat.Walk.Steps.{behind, emissions-end, not_end, Permits, Prepares, Routes}
use ocm_agent_v.Chat.Walk.Ahead.{IsReached, reaches_adapter}

-- Some content that an adapter shows is no text, and it reports no error.
abbrev pub AnswersInNoText : Formats → CompiledTopic → Type 0
AnswersInNoText f topic =
    (x : String) (run : GraphState → Bool → ℕ → Stream) (s : GraphState)
    → find_entry x topic.adapters ≡ some run
    → let es = (adapter_node f run true (find_entry x topic.adapter_retries) s).0 in
      (texts : List String) × (v : Value) × (rest : List Value) × (is_text v ≡ false)
      × (map content (emissions "delta" es) ≡ map ok (map str texts ++ v ∷ rest))
      × (emissions "error" es ≡ [])

same_chunks : (cs ds : List Value) → map ok cs ≡ map ok ds → cs ≡ ds
same_chunks [] [] h = refl
same_chunks [] (d ∷ ds) h = cc
same_chunks (c ∷ cs) [] h = cc
same_chunks (c ∷ cs) (d ∷ ds) h =
    let first : c ≡ d = cc in
    let rest : map ok cs ≡ map ok ds = cc in rw (first, same_chunks cs ds rest) refl

module _ (f : Formats) (topic : CompiledTopic) (mapping : List (String × String))
    (own : HasOwnNames topic.adapters) (now : Timestamp) {answer_id : String} {req : ChatRequest}
    {start : Db} (r : IsReached f topic mapping now answer_id req start)
    (odd : AnswersInNoText f topic) where
  broken-Walk :
      (es : List Effect) × Walk
        (described f topic mapping)
        now
        6
        graph_start
        (initial_state req answer_id)
        start
        es
        failed
        start
      × (emissions "error" es ≡ [])
  unfolding merge
  broken-Walk =
      let retry = find_entry r.target topic.adapter_retries in
      let es = (adapter_node f r.run true retry r.state).0 in
      let (texts, v, rest, no_text, contents, quiet) = odd r.target r.run r.state r.found in
      let (chunks, cut, returns, kept) = adapter_node_writes f r.run retry r.state in
      let u = answer_update chunks cut in
      let next = merge r.state u in
      let its : chunks ≡ map str texts ++ v ∷ rest =
        same_chunks chunks (map str texts ++ v ∷ rest) (kept ∙ contents) in
      let raises =
        persist_node_no_text now next texts v rest start
          (ap (λ o. extend o (some chunks)) r.no_answer ∙ ap some its) no_text in
      (
        _,
        r.walk_on 2 _ failed start (
            visits r.target (pure_node (adapter_node f r.run true retry)) es u start r.way
              (not_end r.target (differs f topic mapping own r.target r.run r.found graph_end refl))
              (adapter_stands f topic mapping own r.target r.run r.found)
              (ap (λ (o : Outcome GraphState). ((es, o), start)) returns)
              (breaks "persist_node" (db_node persist_node)
                (type_error "sequence item: expected str instance")
                (adapter_leads f topic mapping own r.target r.run r.found next) refl
                (persist_stands f topic mapping own)
                (ap (λ (p : Outcome GraphState × Db). (([], p.0), p.1)) raises) refl)),
        behind "error" r.ahead _ r.no_error ∙ emissions-end "error" es ∙ quiet,
      )

module _ (f : Formats) (text_of : Exn → String) {Graph : Type 0}
    (compile : StateGraph → Outcome Graph)
    (astream_events : Graph → Timestamp → GraphState → Db → (List StreamedEvent × StreamEnd) × Db)
    (follows : FollowsWalks compile astream_events) where
  -- If LangGraph runs graphs as it documents, the request is admitted, the auth plugin lets it pass,
  -- the enrich plugin raises nothing, the intent plugin is not cancelled, every route leads to an
  -- adapter, and the adapters show some content that is no text, and no error: then nothing of the
  -- answer is stored, so that the question is the newest message of the thread, and behind what was
  -- shown the request ends with an internal error and the same `done` as an answer that is stored.
  pub handle_breaks :
      (topics : List (String × CompiledTopic)) (topic : CompiledTopic) (now : Timestamp) (limit : ℕ)
      (answer_ulid question_ulid : String) (req : ChatRequest) (s : Session) (db bound : Db)
      (mapping : List (String × String)) (graph : Graph) (a : AuthResult)
      (admitted : IsAdmitted topics topic now
        ("msg_" <> answer_ulid)
        ("msg_" <> question_ulid)
        req
        s
        db
        bound)
      → first_mapping topic.config.edges ≡ ok mapping
      → compile (described f topic mapping) ≡ ok graph
      → HasOwnNames topic.adapters
      → Permits topic req ("msg_" <> answer_ulid) a
      → Prepares topic
      → Routes topic mapping
      → AnswersInNoText f topic
      → (shown : List ChatEvent) × (final : Db) × (handle f text_of compile astream_events topics
            now answer_ulid question_ulid req db
          ≡ (
            meta_event req ("msg_" <> answer_ulid) ∷ shown
                ++ internal_error topic.error_messages req.request_id
                  ∷ done_event ("msg_" <> answer_ulid)
                  ∷ [],
            ok tt,
            final,
          ))
        × (list_recent req.thread_id (suc limit) final
            ≡ numbered now (question_of req ("msg_" <> question_ulid)) db.messages
              ∷ list_recent req.thread_id limit db)
  handle_breaks topics topic now limit answer_ulid question_ulid req s db bound mapping graph a
        admitted first compiles own permits prepares routes odd =
      let reached = reaches_adapter f topic mapping own now admitted a permits prepares routes in
      let (es, walk, quiet) = broken-Walk f topic mapping own now reached odd in
      let final = asked now ("msg_" <> question_ulid) req db bound in
      (
        passed (dispatched es),
        final,
        handle_walks f text_of compile astream_events follows topics topic now answer_ulid
            question_ulid req s db bound mapping graph 6 es (passed (dispatched es)) failed final
            admitted first compiles (omega arith) walk
            (relay_customs-passed topic.error_messages es failed quiet),
        asked_newest admitted limit,
      )
