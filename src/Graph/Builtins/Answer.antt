-- ===== src/Graph/Builtins/Answer.antt =====
-- What `persist` stores of an answer.
use mathlib.Core.Option
use ocm_agent_v.Common.{
  Bool-cases, Exn, type_error, ok, raised, ℕ, suc, String, ◌<>◌, ◌≡◌, refl, ap, ◌∙◌, ◌⊎◌, ◌≢◌, ◌+◌,
  none, Option, inl, inr, Bool, true, false, ◌||◌, some, List, [], ◌∷◌, ◌++◌, map, arith, ◌==◌,
}
use ocm_agent_v.Value.{end, Value, null, str, num, bool, obj, arr}
use ocm_agent_v.Repo.Models.{Timestamp, Session, Message, Db}
use ocm_agent_v.Repo.Sessions.{find_session, touch_row, touch}
use ocm_agent_v.Repo.Messages.{max_seq, numbered, list_recent}
use ocm_agent_v.Repo.Messages.Append.{has_id, append_fresh, append-list_recent}
use ocm_agent_v.Graph.State.{GraphState, no_update}
use ocm_agent_v.Graph.Builtins.{
  join, chunks_of, is_true, is_nil, answer_status, answer_message, persist_steps, persist_node,
}

abbrev pub concat : List String → String
concat [] = ""
concat (s ∷ rest) = s <> concat rest

join_texts : (texts : List String) → join (map str texts) ≡ ok (concat texts)
unfolding join
join_texts [] = refl
join_texts (s ∷ rest) = rw (join_texts rest)

abbrev pub is_text : Value → Bool
is_text (str s) = true
is_text _ = false

abbrev no_text : Exn
no_text = type_error "sequence item: expected str instance"

join-no_text :
    (texts : List String) (v : Value) (rest : List Value)
    → is_text v ≡ false
    → join (map str texts ++ v ∷ rest) ≡ raised no_text
unfolding join
join-no_text [] null rest h = refl
join-no_text [] (bool b) rest h = refl
join-no_text [] (num n) rest h = refl
join-no_text [] (str s) rest h = cc
join-no_text [] (arr vs) rest h = refl
join-no_text [] (obj d) rest h = refl
join-no_text (s ∷ texts) v rest h = rw (join-no_text texts v rest h)

abbrev pub touched : Timestamp → Session → Session
touched now s = record s { updated_at = now; last_message_at = some now }

find_session-touch_row :
    (now : Timestamp) (thread : String) (rows : List Session)
    → find_session thread (map (touch_row now thread) rows)
      ≡ Option.map (touched now) (find_session thread rows)
find_session-touch_row now thread [] = refl
find_session-touch_row now thread (s ∷ rows) =
    ground (arith, find_session-touch_row now thread rows)

answer_status_listed :
    (state : GraphState)
    → (answer_status state == "complete" || answer_status state == "partial") ≡ true
answer_status_listed state =
    elim (Bool-cases (is_true state.stream_cancelled || is_nil (chunks_of state.answer_chunks))) [
      | inl e ↦ rw e refl
      | inr e ↦ rw e refl
    ]

pub persist_node_lem :
    (now : ℕ) (state : GraphState) (id thread : String) (texts : List String) (db : Db)
    → state.assistant_message_id ≡ some id
    → state.thread_id ≡ some thread
    → state.answer_chunks ≡ some (map str texts)
    → has_id id db.messages ≡ false
    → let answer = answer_message state id thread (concat texts) in
      persist_node now state db ≡ (
        ok no_update,
        touch now thread
            (record db { messages = db.messages ++ numbered now answer db.messages ∷ [] }),
      )
unfolding persist_node
persist_node_lem now state id thread texts db named placed chunks fresh =
    let answer : Message = answer_message state id thread (concat texts) in
    ap (λ c. persist_steps now state (chunks_of c) state.assistant_message_id state.thread_id db)
      chunks
    ∙ ap (λ i. persist_steps now state (map str texts) i state.thread_id db) named
    ∙ ap (λ t. persist_steps now state (map str texts) (some id) t db) placed
    ∙ rw (join_texts texts) (rw (append_fresh now answer db refl fresh) refl)

pub persist_node_writes :
    (now limit : ℕ) (state : GraphState) (id thread : String) (texts : List String) (db : Db)
    → state.assistant_message_id ≡ some id
    → state.thread_id ≡ some thread
    → state.answer_chunks ≡ some (map str texts)
    → has_id id db.messages ≡ false
    → let (r, db') = persist_node now state db in
      (r ≡ ok no_update)
      × (list_recent thread (suc limit) db'
          ≡ numbered now (answer_message state id thread (concat texts)) db.messages
            ∷ list_recent thread limit db)
      × (find_session thread db'.sessions
          ≡ Option.map (touched now) (find_session thread db.sessions))
unfolding touch list_recent
persist_node_writes now limit state id thread texts db named placed chunks fresh =
    let answer : Message = answer_message state id thread (concat texts) in
    let (_, first) =
      append-list_recent now limit answer db refl fresh (answer_status_listed state) in
    let stored = append_fresh now answer db refl fresh in
    rw (persist_node_lem now state id thread texts db named placed chunks fresh)
      (refl, (rw stored at first), find_session-touch_row now thread db.sessions)

-- The status that an answer in these texts gets.
abbrev pub IsStatusOf : GraphState → List String → String → Type 0
IsStatusOf state texts status =
    ((status ≡ "partial") × ((state.stream_cancelled ≡ some true) ⊎ (texts ≡ [])))
    ⊎ ((status ≡ "complete") × (state.stream_cancelled ≢ some true) × (texts ≢ []))

cancelled_or_not : (o : Option Bool) → (o ≡ some true) ⊎ ((is_true o ≡ false) × (o ≢ some true))
cancelled_or_not none = inr (refl, λ h. cc)
cancelled_or_not (some true) = inl refl
cancelled_or_not (some false) = inr (refl, λ h. cc)

answer_status-IsStatusOf :
    (state : GraphState) (texts : List String)
    → state.answer_chunks ≡ some (map str texts)
    → IsStatusOf state texts (answer_status state)
answer_status-IsStatusOf state [] chunks = elim (cancelled_or_not state.stream_cancelled) [
  | inl c ↦ rw c (inl (refl, inl refl))
  | inr (e, c) ↦ rw (e, chunks) (inl (refl, inr refl))
]
answer_status-IsStatusOf state (t ∷ texts) chunks = elim (cancelled_or_not state.stream_cancelled) [
  | inl c ↦ rw c (inl (refl, inl refl))
  | inr (e, c) ↦ rw (e, chunks) (inr (refl, c, λ h. cc))
]

-- If the answer's chunks are texts, the state has an id and a thread, and the id is new, then the
-- joined texts are stored under that id and thread, with the next number of the thread, so that the
-- answer is the newest message of the thread; its status is `partial` if the stream was cancelled or
-- gave nothing, and `complete` otherwise. The session's times are set to now, and nothing else of it
-- changes.
pub persist_node_stores :
    (now limit : ℕ) (state : GraphState) (id thread : String) (texts : List String) (db : Db)
    → state.assistant_message_id ≡ some id
    → state.thread_id ≡ some thread
    → state.answer_chunks ≡ some (map str texts)
    → has_id id db.messages ≡ false
    → let (r, db') = persist_node now state db in
      (r ≡ ok no_update)
      × ((status : String) × IsStatusOf state texts status
          × (list_recent thread (suc limit) db'
              ≡ record {
                message_id = id;
                thread_id = thread;
                seq = max_seq thread db.messages + 1;
                role = "assistant";
                content = concat texts;
                content_meta = end;
                status = status;
                route = state.route;
                request_id = state.request_id;
                created_at = some now;
                ext = end;
              }
                ∷ list_recent thread limit db))
      × (find_session thread db'.sessions
          ≡ Option.map (touched now) (find_session thread db.sessions))
persist_node_stores now limit state id thread texts db named placed chunks fresh =
    let (returns, newest, times) =
      persist_node_writes now limit state id thread texts db named placed chunks fresh in
    (returns, (answer_status state, answer_status-IsStatusOf state texts chunks, newest), times)

-- A chunk that is no text, which an adapter may well deliver, makes the node raise, and then
-- nothing of the answer is stored.
pub persist_node_no_text :
    (now : ℕ) (state : GraphState) (texts : List String) (v : Value) (rest : List Value) (db : Db)
    → state.answer_chunks ≡ some (map str texts ++ v ∷ rest)
    → is_text v ≡ false
    → persist_node now state db ≡ (raised (type_error "sequence item: expected str instance"), db)
unfolding persist_node
persist_node_no_text now state texts v rest db chunks h =
    ap (λ c. persist_steps now state (chunks_of c) state.assistant_message_id state.thread_id db)
      chunks
    ∙ rw (join-no_text texts v rest h)
