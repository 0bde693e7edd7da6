-- ===== src/Samples/Walks.antt =====
-- Tests of requests that go through a graph, with a small interpreter of graphs in LangGraph's place.
use ocm_agent_v.Common.{
  nat_eq, Outcome, ok, raised, find_entry, ℕ, zero, suc, ◌<◌, String, ◌≡◌, refl, ap, true, false,
  none, some, List, [], ◌∷◌, ◌++◌, map, arith, ◌==◌,
}
use ocm_agent_v.Value.{fields, str}
use ocm_agent_v.Repo.Models.{Timestamp, Session, Message, Db}
use ocm_agent_v.Repo.Sessions.{new_session, get_or_create}
use ocm_agent_v.Graph.State.{AuthResult, GraphState, merge}
use ocm_agent_v.Graph.Trace.{Effect, Run, emit, sleep, attempt}
use ocm_agent_v.Graph.Nodes.{StreamEnd, finished, failed}
use ocm_agent_v.Common.{All, inl, inr, Bool-cases}
use ocm_agent_v.Value.{arr, contained}
use ocm_agent_v.Topic.Registry.{get}
use ocm_agent_v.Graph.Events.{thinking, progress, delta, ChatEvent}
use ocm_agent_v.Graph.Trace.{emissions}
use ocm_agent_v.Graph.Nodes.{adapter_node, adapter_loop}
use ocm_agent_v.Graph.Nodes.Intent.{NeverCancelled}
use ocm_agent_v.Graph.Builtins.Answer.{concat}
use ocm_agent_v.Plugin.Auth.{authorize}
use ocm_agent_v.Plugin.Enrich.{text_items}
use ocm_agent_v.Chat.Flow.{CompiledTopic, StateGraph, graph_start, graph_end, described}
use ocm_agent_v.Chat.{ChatRequest, StreamedEvent, chat_event, meta_event, done_event, handle}
use ocm_agent_v.Chat.Walk.{
  Walk, arrives, visits, breaks, strays, leads, customs, dispatched, FollowsWalks,
}
use ocm_agent_v.Chat.Walk.Places.{reserved, HasOwnNames}
use ocm_agent_v.Chat.Walk.Relay.{deltas}
use ocm_agent_v.Chat.Walk.Asked.{IsAdmitted, loaded, IsAnswered}
use ocm_agent_v.Chat.Walk.Reject.{auth_thinking, auth_progress, content_of, handle_rejects}
use ocm_agent_v.Chat.Walk.Steps.{Permits, Prepares, AnswersInText, IsEnded}
use ocm_agent_v.Chat.Walk.Answer.{handle_answers}
use ocm_agent_v.Samples.Data.{plain, some_db, topic, request, streams, classify, two_tries}
use ocm_agent_v.Samples.Chats.{exception_text}

abbrev pub Walked : Type 0
Walked = (List Effect × StreamEnd) × Db

abbrev went : Run GraphState × Db → (GraphState → Db → Walked) → Walked
went ((es, raised e), after) further = ((es, failed), after)
went ((es, ok u), after) further =
    let ((later, last), final) = further u after in ((es ++ later, last), final)

-- At most `n` steps from behind the node `x`.
pub walk_on : ℕ → StateGraph → Timestamp → String → GraphState → Db → Walked
walk_on zero g now x s db = (([], failed), db)
walk_on (suc n) g now x s db = elim (leads g x s) [
  | raised e ↦ (([], failed), db)
  | ok y ↦ elim (y == graph_end) [
    | true ↦ (([], finished), db)
    | false ↦ elim (find_entry y g.nodes) [
      | none ↦ (([], failed), db)
      | some node ↦ went (node now s db) (λ u after. walk_on n g now y (merge s u) after)
    ]
  ]
]

walk_on-Walk :
    {g : StateGraph} {now : Timestamp} (fuel : ℕ) {n : ℕ} {x : String} {s : GraphState} {db : Db}
    {es : List Effect} {last : StreamEnd} {final : Db}
    → n < fuel
    → Walk g now n x s db es last final
    → walk_on fuel g now x s db ≡ ((es, last), final)
unfolding walk_on
walk_on-Walk zero h walk = absurd (omega arith)
walk_on-Walk (suc fuel) h (arrives e) = rw (walk_on, e) refl
walk_on-Walk (suc fuel) h (visits y node es u after to inner stands runs walk) =
    rw (walk_on, to, inner, stands, runs, walk_on-Walk fuel (omega arith) walk) refl
walk_on-Walk (suc fuel) h (breaks y node e to inner stands raises caught) =
    rw (walk_on, to, inner, stands, raises) refl
walk_on-Walk (suc fuel) h (strays e to caught) = rw (walk_on, to) refl

abbrev pub streamed : List Effect → List StreamedEvent
streamed [] = []
streamed (emit name v ∷ es) =
    record { event = "on_custom_event"; name = name; payload = v } ∷ streamed es
streamed (sleep ms ∷ es) = streamed es
streamed (attempt n ∷ es) = streamed es

customs-streamed : (es : List Effect) → customs (streamed es) ≡ dispatched es
customs-streamed [] = refl
customs-streamed (emit name v ∷ es) = ap (λ l. (name, v) ∷ l) (customs-streamed es)
customs-streamed (sleep ms ∷ es) = customs-streamed es
customs-streamed (attempt n ∷ es) = customs-streamed es

abbrev pub interpreter :
    StateGraph → Timestamp → GraphState → Db → (List StreamedEvent × StreamEnd) × Db
interpreter g now s db =
    let ((es, last), final) = walk_on 25 g now graph_start s db in ((streamed es, last), final)

abbrev pub as_described : StateGraph → Outcome StateGraph
as_described g = ok g

pub interpreter-FollowsWalks : FollowsWalks as_described interpreter
interpreter-FollowsWalks g graph now s db n es last final compiles short walk =
    let same : g ≡ graph = cc in
    let runs = walk_on-Walk 25 short walk in rw⁻¹ same (rw runs (customs-streamed es, refl, refl))

abbrev topics : List (String × CompiledTopic)
topics = ("sales", topic) ∷ []

abbrev guest_request : ChatRequest
guest_request = record request {
  identity =
      some (record { w3_account = "zhangsan"; raw_claims = fields (("role", str "GUEST") ∷ []) });
}

abbrev pub opened : Session
opened = new_session 7 "th_1" "sales" "zhangsan" none

abbrev pub opened_db : Db
opened_db = record some_db { sessions = opened ∷ [] }

abbrev pub mapping : List (String × String)
mapping = ("data", "ask_data") ∷ []

free : All (λ name. find_entry name topic.adapters ≡ none) reserved
free = (refl, (refl, (refl, (refl, (refl, (refl, (refl, (refl, tt))))))))

own_names : HasOwnNames topic.adapters
own_names = (free, (refl, tt))

abbrev Admitted : ChatRequest → Type 0
Admitted req = IsAdmitted topics topic 7 "msg_A" "msg_Q" req opened some_db opened_db

guest-Admitted : Admitted guest_request
unfolding get get_or_create
guest-Admitted = record {
  known = refl;
  valid = refl;
  opened = refl;
  new_question = refl;
  new_answer = refl;
  two_ids = refl;
}

request-Admitted : Admitted request
unfolding get get_or_create
request-Admitted = record {
  known = refl;
  valid = refl;
  opened = refl;
  new_question = refl;
  new_answer = refl;
  two_ids = refl;
}

abbrev denied : AuthResult
denied = record {
  passed = false;
  reject_code = some "FORBIDDEN_TOPIC";
  reject_message = some "该专题仅限 REP 角色访问。";
  user_ctx = none;
}

denies : (h : List Message) → topic.auth (loaded guest_request "msg_A" h) ≡ ok denied
unfolding authorize merge
denies h = refl

handle_rejects_example :
    (final : Db) × (handle plain exception_text as_described interpreter topics 7 "A" "Q"
        guest_request some_db
      ≡ (
        meta_event guest_request "msg_A"
            ∷ chat_event thinking auth_thinking
            ∷ chat_event progress (auth_progress false)
            ∷ chat_event delta (content_of "该专题仅限 REP 角色访问。")
            ∷ done_event "msg_A"
            ∷ [],
        ok tt,
        final,
      ))
    × IsAnswered guest-Admitted 2 "该专题仅限 REP 角色访问。" "complete" final
handle_rejects_example =
    handle_rejects plain exception_text as_described interpreter interpreter-FollowsWalks topics
      topic 7 2 "A" "Q" guest_request opened some_db opened_db mapping
      (described plain topic mapping) denied guest-Admitted refl refl own_names denies refl

abbrev pub allowed : AuthResult
allowed = record {
  passed = true;
  reject_code = none;
  reject_message = none;
  user_ctx = some (
      fields (
        ("role", str "REP")
        ∷ ("regions", arr (text_items ("huadong" ∷ [])))
        ∷ ("region", str "huadong")
        ∷ []));
}

permits : Permits topic request "msg_A" allowed
unfolding authorize merge contained
permits = (refl, λ h. refl)

pub calm : (s : GraphState) → NeverCancelled (classify s)
calm s n e = elim (Bool-cases (nat_eq n 1)) [ inl h ↦ cc (rw h at e) | inr h ↦ cc (rw h at e) ]

prepares : Prepares topic
prepares = (λ s. (_, refl), calm)

streams_shown :
    (s : GraphState)
    → let es = (adapter_node plain streams true (some two_tries) s).0 in
      (emissions "delta" es ≡ map content_of ("a" ∷ "b" ∷ [])) × (emissions "error" es ≡ [])
unfolding adapter_node adapter_loop emissions
streams_shown s = (refl, refl)

textual : AnswersInText plain topic
textual x run s found = elim (Bool-cases ("ask_data" == x)) [
  | inr e ↦ absurd (cc (rw e at found))
  | inl e ↦
      let its : streams ≡ run = cc (rw e at found) in
      rw⁻¹ its (rw e ("a" ∷ "b" ∷ [], (streams_shown s).0, (streams_shown s).1))
]

handle_answers_example :
    (shown : List ChatEvent) × (texts : List String) × (status : String) × (final : Db) × (handle
        plain exception_text as_described interpreter topics 7 "A" "Q" request some_db
      ≡ (meta_event request "msg_A" ∷ shown ++ done_event "msg_A" ∷ [], ok tt, final))
    × (deltas shown ≡ map content_of texts)
    × IsEnded status
    × IsAnswered request-Admitted 2 (concat texts) status final
handle_answers_example =
    handle_answers plain exception_text as_described interpreter interpreter-FollowsWalks topics
      topic 7 2 "A" "Q" request opened some_db opened_db mapping (described plain topic mapping)
      allowed request-Admitted refl refl own_names permits prepares ((refl, tt), refl) textual
