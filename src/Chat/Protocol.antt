-- ===== src/Chat/Protocol.antt =====
-- The order of the events of a request.
use ocm_agent_v.Plugin.Formats.{Formats}
use ocm_agent_v.Graph.State.{GraphState}
use ocm_agent_v.Chat.Flow.{CompiledTopic, StateGraph, build_graph}
use ocm_agent_v.Repo.Models.{Timestamp, Db}
use ocm_agent_v.Topic.Registry.{get}
use ocm_agent_v.Common.{
  Bool-cases, All, All-append, Exn, is_exception, Outcome, ok, raised, ◌>>=◌, ok-injective,
  >>=-eq-ok, find_entry, String, ◌<>◌, ◌≡◌, refl, ◌∙◌, subst, inl, inr, Bool, true, false, not,
  Option, none, some, List, [], ◌∷◌, ◌++◌, ◌==◌,
}
use ocm_agent_v.Value.{Value, str, get_method}
use ocm_agent_v.Graph.Nodes.{StreamEnd, finished, cancelled, failed}
use ocm_agent_v.Graph.Events.{
  EventType, meta, thinking, progress, delta, tool, error, done, ChatEvent,
}
use ocm_agent_v.Chat.{
  ChatRequest, StreamedEvent, chat_event, or_empty, friendly_text, relay_error, passing, passed_on,
  relay, chained, relay_all, Reply, then_yield, persist_user_message, initial_state, done_event,
  internal_error, finish, mismatch_of, not_stored, run_compiled, after_question, serve_checked,
  serve, handle,
}

-- After the opening: anything but `meta` and `done`, and then one `done` if the request returned.
abbrev pub body : Bool → List EventType → Bool
body whole [] = not whole
body whole (done ∷ []) = whole
body whole (done ∷ t ∷ ts) = false
body whole (meta ∷ ts) = false
body whole (thinking ∷ ts) = body whole ts
body whole (progress ∷ ts) = body whole ts
body whole (delta ∷ ts) = body whole ts
body whole (tool ∷ ts) = body whole ts
body whole (error ∷ ts) = body whole ts

-- There is at most one `meta`, and it comes first.
abbrev pub protocol : Bool → List EventType → Bool
protocol whole (meta ∷ ts) = body whole ts
protocol whole ts = body whole ts

abbrev pub types : List ChatEvent → List EventType
types [] = []
types (ev ∷ evs) = ev.type ∷ types evs

abbrev pub is_ok : Outcome (Unit {0}) → Bool
is_ok (ok _) = true
is_ok (raised e) = false

abbrev IsInner : ChatEvent → Type 0
IsInner ev = (whole : Bool) (ts : List EventType) → body whole (ev.type ∷ ts) ≡ body whole ts

body-append :
    (whole : Bool) (evs later : List ChatEvent)
    → All IsInner evs
    → body whole (types (evs ++ later)) ≡ body whole (types later)
body-append whole [] later h = refl
body-append whole (ev ∷ evs) later (h, hs) =
    h whole (types (evs ++ later)) ∙ body-append whole evs later hs

relay_error-IsInner :
    (messages : List (String × String)) (d : Value) (shown : List ChatEvent)
    → relay_error messages d ≡ ok shown
    → All IsInner shown
relay_error-IsInner messages d shown h =
    let (code, _, h1) = >>=-eq-ok (get_method d "code" (str "INTERNAL")) _ h in
    let (friendly, _, h2) = >>=-eq-ok (friendly_text messages code) _ h1 in
    subst (All IsInner) (ok-injective h2) ((λ whole ts. refl), tt)

passed_on-IsInner :
    (name : String) (table : List (String × EventType)) (d : Value)
    → All (λ (e : String × EventType). IsInner (chat_event e.1 d)) table
    → All IsInner (passed_on (find_entry name table) d)
passed_on-IsInner name [] d h = tt
passed_on-IsInner name ((k, t) ∷ table) d (h, hs) = elim (Bool-cases (k == name)) [
  | inl e ↦ rw e (h, tt)
  | inr e ↦ rw e (passed_on-IsInner name table d hs)
]

passing-IsInner : (d : Value) → All (λ (e : String × EventType). IsInner (chat_event e.1 d)) passing
passing-IsInner d =
    let inner : (whole : Bool) (ts : List EventType) → body whole ts ≡ body whole ts =
      λ whole ts. refl in
    (inner, (inner, (inner, (inner, tt))))

relay-IsInner :
    (messages : List (String × String)) (ev : StreamedEvent) (shown : List ChatEvent)
    → relay messages ev ≡ ok shown
    → All IsInner shown
relay-IsInner messages ev shown h = elim (Bool-cases (ev.event == "on_custom_event")) [
  | inr c ↦ subst (All IsInner) (ok-injective (rw c at h)) tt
  | inl c ↦ elim (Bool-cases (ev.name == "error")) [
    | inl e ↦ relay_error-IsInner messages (or_empty ev.payload) shown (rw (c, e) at h)
    | inr e ↦ subst (All IsInner) (ok-injective (rw (c, e) at h)) (
        passed_on-IsInner ev.name passing (or_empty ev.payload)
          (passing-IsInner (or_empty ev.payload)))
  ]
]

chained-IsInner :
    (r : Outcome (List ChatEvent)) (later : List ChatEvent × StreamEnd)
    → ((shown : List ChatEvent) → r ≡ ok shown → All IsInner shown)
    → All IsInner later.0
    → All IsInner (chained r later).0
chained-IsInner (raised e) later h hs = tt
chained-IsInner (ok shown) (later, ending) h hs = All-append IsInner shown later (h shown refl) hs

relay_all-IsInner :
    (messages : List (String × String)) (evs : List StreamedEvent) (last : StreamEnd)
    → All IsInner (relay_all messages evs last).0
unfolding relay_all
relay_all-IsInner messages [] last = tt
relay_all-IsInner messages (ev ∷ evs) last =
    chained-IsInner (relay messages ev) (relay_all messages evs last) (relay-IsInner messages ev)
      (relay_all-IsInner messages evs last)

abbrev Follows : Reply → Type 0
Follows (evs, r, db) = body (is_ok r) (types evs) ≡ true

finish-Follows :
    (messages : List (String × String)) (req : ChatRequest) (answer_id : String)
    (shown : List ChatEvent) (ending : StreamEnd) (db : Db)
    → All IsInner shown
    → Follows (then_yield shown (finish messages req answer_id ending db))
finish-Follows messages req answer_id shown finished db h =
    body-append true shown (done_event answer_id ∷ []) h
finish-Follows messages req answer_id shown failed db h =
    body-append true shown (internal_error messages req.request_id ∷ done_event answer_id ∷ []) h
finish-Follows messages req answer_id shown cancelled db h = body-append false shown [] h

module _ (f : Formats) (text_of : Exn → String) {Graph : Type 0}
    (compile : StateGraph → Outcome Graph)
    (astream_events : Graph
      → Timestamp
      → GraphState
      → Db
      → (List StreamedEvent × StreamEnd) × Db) where
  run_compiled-Follows :
      (now : Timestamp) (topic : CompiledTopic) (req : ChatRequest) (answer_id : String)
      (r : Outcome Graph) (db : Db)
      → Follows (run_compiled f text_of compile astream_events now topic req answer_id r db)
  run_compiled-Follows now topic req answer_id (raised e) db = refl
  run_compiled-Follows now topic req answer_id (ok graph) db =
      let ((events, last), db') = astream_events graph now (initial_state req answer_id) db in
      let relayed = relay_all topic.error_messages events last in
      finish-Follows topic.error_messages req answer_id relayed.0 relayed.1 db'
        (relay_all-IsInner topic.error_messages events last)

  not_stored-Follows :
      (req : ChatRequest) (e : Exn) (m : Option String) (db : Db) → Follows (not_stored req e m db)
  not_stored-Follows req e none db = refl
  not_stored-Follows req e (some text) db = refl

  after_question-Follows :
      (now : Timestamp) (topic : CompiledTopic) (req : ChatRequest) (answer_id : String)
      (r : Outcome (Unit {0}) × Db)
      → Follows (after_question f text_of compile astream_events now topic req answer_id r)
  after_question-Follows now topic req answer_id (ok u, db) =
      run_compiled-Follows now topic req answer_id (build_graph f topic >>= compile) db
  after_question-Follows now topic req answer_id (raised e, db) =
      not_stored-Follows req e (mismatch_of e) db

  abbrev Keeps : Reply → Type 0
  Keeps (evs, r, db) = protocol (is_ok r) (types evs) ≡ true

  serve-Keeps :
      (now : Timestamp) (answer_id question_id : String) (req : ChatRequest)
      (found : Outcome CompiledTopic) (db : Db)
      → Keeps (serve f text_of compile astream_events now answer_id question_id req found db)
  serve-Keeps now answer_id question_id req (raised e) db = refl
  serve-Keeps now answer_id question_id req (ok topic) db =
      checked (topic.biz_params_model req.biz_params)
    where
      checked :
          (r : Outcome (Unit {0}))
          → Keeps (
              serve_checked f text_of compile astream_events now answer_id question_id topic req r
                db)
      checked (raised e) = elim (Bool-cases (is_exception e)) [
        | inl c ↦ rw c refl
        | inr c ↦ rw c refl
      ]
      checked (ok u) =
          after_question-Follows now topic req answer_id
            (persist_user_message now question_id req db)

  -- Whatever LangGraph and the plugins do, the events of a request keep to the protocol: `meta`
  -- comes first if it comes at all, and never twice; a request that returns has exactly one `done`,
  -- as its last event, and a request that raises has no `done`.
  pub handle-protocol :
      (topics : List (String × CompiledTopic)) (now : Timestamp)
      (answer_ulid question_ulid : String) (req : ChatRequest) (db : Db)
      → let (evs, r, db') =
          handle f text_of compile astream_events topics now answer_ulid question_ulid req db in
        protocol (is_ok r) (types evs) ≡ true
  unfolding handle
  handle-protocol topics now answer_ulid question_ulid req db =
      serve-Keeps now ("msg_" <> answer_ulid) ("msg_" <> question_ulid) req (get req.biz_id topics)
        db
