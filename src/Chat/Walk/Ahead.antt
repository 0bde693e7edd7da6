-- ===== src/Chat/Walk/Ahead.antt =====
-- A request that is let pass, up to the adapter that its route leads to.
use ocm_agent_v.Common.{
  suc, find_entry, Outcome, ok, ℕ, ◌*◌, String, ◌≡◌, refl, ap, ◌∙◌, Bool, true, none, some, List,
  [], ◌∷◌, ◌++◌,
}
use ocm_agent_v.Repo.Models.{Timestamp, Session, Db}
use ocm_agent_v.Repo.Messages.{list_recent}
use ocm_agent_v.Plugin.Formats.{Formats}
use ocm_agent_v.Graph.State.{AuthResult, GraphState, merge}
use ocm_agent_v.Graph.Trace.{Effect, emit, emissions}
use ocm_agent_v.Graph.Nodes.{StreamEnd, Stream, intent_update, auth_node, enrich_node, intent_node}
use ocm_agent_v.Graph.Nodes.Updates.{intent_node-Settles}
use ocm_agent_v.Graph.Builtins.{build_history, load_session_node}
use ocm_agent_v.Topic.Config.{keys}
use ocm_agent_v.Chat.Flow.{CompiledTopic, graph_start, described, db_node, pure_node}
use ocm_agent_v.Chat.{ChatRequest, initial_state}
use ocm_agent_v.Chat.Walk.{Walk, leads, visits}
use ocm_agent_v.Chat.Walk.Places.{
  HasOwnNames, start_leads, load_leads, auth_leads, enrich_leads, intent_leads,
}
use ocm_agent_v.Chat.Walk.Asked.{
  IsAdmitted, asked, history_update, loaded, load_session_runs, asked_bound,
}
use ocm_agent_v.Chat.Walk.Reject.{auth_thinking, auth_progress}
use ocm_agent_v.Chat.Walk.Steps.{
  found_route, known_route, entry_of, auth_permits, enriches, permitted_update, enrich_update,
  enrich_effects, Permits, Prepares, Routes,
}

-- The walk has come behind the intent node: what is known of the state there, and that a walk from
-- there on is the end of a walk from the start.
pub record IsReached (f : Formats) (topic : CompiledTopic) (mapping : List (String × String))
    (now : Timestamp) (answer_id : String) (req : ChatRequest) (start : Db) : Type 0 where
  pub state : GraphState
  pub target : String
  pub run : GraphState → Bool → ℕ → Stream
  pub ahead : List Effect
  pub named : state.assistant_message_id ≡ some answer_id
  pub placed : state.thread_id ≡ some req.thread_id
  pub requested : state.request_id ≡ some req.request_id
  pub no_answer : state.answer_chunks ≡ none
  pub found : find_entry target topic.adapters ≡ some run
  pub way : leads (described f topic mapping) "intent_node" state ≡ ok target
  pub no_content : emissions "delta" ahead ≡ []
  pub no_error : emissions "error" ahead ≡ []
  pub walk_on :
      (n : ℕ) (es : List Effect) (last : StreamEnd) (final : Db)
      → Walk (described f topic mapping) now n "intent_node" state start es last final
      → Walk
          (described f topic mapping)
          now
          (suc (suc (suc (suc n))))
          graph_start
          (initial_state req answer_id)
          start
          (ahead ++ es)
          last
          final

module _ (f : Formats) (topic : CompiledTopic) (mapping : List (String × String))
    (own : HasOwnNames topic.adapters) (now : Timestamp) {topics : List (String × CompiledTopic)}
    {answer_id question_id : String} {req : ChatRequest} {s : Session} {db bound : Db}
    (admitted : IsAdmitted topics topic now answer_id question_id req s db bound) (a : AuthResult)
    (permits : Permits topic req answer_id a) (prepares : Prepares topic)
    (routes : Routes topic mapping) where
  abbrev start : Db
  start = asked now question_id req db bound

  pub reaches_adapter : IsReached f topic mapping now answer_id req start
  unfolding merge emissions
  reaches_adapter =
      let (found, same) = asked_bound admitted in
      let h =
        build_history topic.max_turns (list_recent req.thread_id (topic.max_turns * 4) start) in
      let s1 = loaded req answer_id h in
      let s2 = merge s1 (permitted_update a) in
      let (r, enriched) = prepares.0 s2 in
      let s3 = merge s2 (enrich_update r) in
      let labels = keys mapping in
      let node = intent_node f topic.default_route labels topic.intent topic.intent_retry in
      let (i, settles, routed, shows_none, quiet) =
        intent_node-Settles f topic.default_route labels topic.intent topic.intent_retry s3
          (prepares.1 s3) in
      let s4 = merge s3 (intent_update i) in
      let (x, target, entry) =
        found_route topic.adapters i.route mapping (known_route i.route labels routed routes.1)
          routes.0 in
      let (run, at) = entry_of (find_entry x topic.adapters) entry in
      record {
        state = s4;
        target = x;
        run = run;
        ahead =
            emit "thinking" auth_thinking ∷ emit "progress" (auth_progress true) ∷ enrich_effects r
            ++ (node s3).0;
        named = refl;
        placed = refl;
        requested = refl;
        no_answer = refl;
        found = at;
        way = intent_leads f topic mapping own s4 i.route refl ∙ rw target refl;
        no_content = shows_none;
        no_error = quiet;
        walk_on = λ n es last final walk.
            visits "load_session" (db_node (load_session_node topic.max_turns)) []
              (history_update h) start
              (start_leads f topic mapping own (initial_state req answer_id)) refl refl
              (load_session_runs topic.max_turns now answer_id req s start found same)
              (visits "auth_node" (pure_node (auth_node topic.auth))
                (emit "thinking" auth_thinking ∷ emit "progress" (auth_progress true) ∷ [])
                (permitted_update a) start (load_leads f topic mapping own s1) refl refl
                (auth_permits topic.auth a now s1 start (permits.1 h) permits.0)
                (visits "enrich_node" (pure_node (enrich_node topic.enrich)) (enrich_effects r)
                  (enrich_update r) start
                  (auth_leads f topic mapping own s2 a refl ∙ rw (permits.0) refl) refl refl
                  (enriches topic.enrich r now s2 start enriched)
                  (visits "intent_node" (pure_node node) (node s3).0 (intent_update i) start
                    (enrich_leads f topic mapping own s3) refl refl
                    (ap (λ (o : Outcome GraphState). (((node s3).0, o), start)) settles) walk)));
      }
