-- ===== src/Chat/Memory.antt =====
-- What the next question of a thread is asked with.
use ocm_agent_v.Common.{
  ℕ, suc, ◌-◌, ◌*◌, ◌<◌, String, ◌≡◌, refl, ap, ◌∙◌, subst, Bool-cases, inl, inr, ok, some, true,
  false, List, [], ◌∷◌, ◌++◌, arith, ◌==◌,
}
use ocm_agent_v.Repo.Models.{Session, Message, Db}
use ocm_agent_v.Repo.Messages.{numbered, clashes_any, append, list_recent}
use ocm_agent_v.Repo.Sessions.{find_session}
use ocm_agent_v.Repo.Sessions.Table.{found_again}
use ocm_agent_v.Repo.Messages.Append.{has_id, append-list_recent}
use ocm_agent_v.Graph.State.{AuthnIdentity, GraphState, no_update}
use ocm_agent_v.Graph.Builtins.{is_turn, build_history, load_session_node}
use ocm_agent_v.Graph.Builtins.Memory.{build_history-newest}

-- A stored message is the first of what its thread shows.
shown_first :
    (now limit : ℕ) (m : Message) (thread : String) (db : Db)
    → m.seq ≡ 0
    → has_id m.message_id db.messages ≡ false
    → (m.status == "complete") ≡ true
    → m.thread_id ≡ thread
    → list_recent thread (suc limit) (append now m db).1
      ≡ numbered now m db.messages ∷ list_recent thread limit db
shown_first now limit m thread db auto fresh complete same =
    subst
      (λ t.
        list_recent t (suc limit) (append now m db).1
        ≡ numbered now m db.messages ∷ list_recent t limit db)
      same (append-list_recent now limit m db auto fresh (ground arith)).1

append-sessions : (now : ℕ) (m : Message) (db : Db) → (append now m db).1.sessions ≡ db.sessions
append-sessions now m db =
    elim (Bool-cases (clashes_any (numbered now m db.messages) db.messages)) [
      | inl e ↦ unfold append in rw e refl
      | inr e ↦ unfold append in rw e refl
    ]

load_session_node_lem :
    (max_turns : ℕ) (now : ℕ) (state : GraphState) (identity : AuthnIdentity) (thread biz : String)
    (s : Session) (db : Db)
    → state.identity ≡ some identity
    → state.thread_id ≡ some thread
    → state.biz_id ≡ some biz
    → find_session thread db.sessions ≡ some s
    → s.biz_id ≡ biz
    → load_session_node max_turns now state db ≡ (
      ok (record no_update {
        history = some (build_history max_turns (list_recent thread (max_turns * 4) db));
      }),
      db,
    )
unfolding load_session_node
load_session_node_lem max_turns now state identity thread biz s db known placed topic found same =
    rw (known, placed, topic, found_again now thread biz identity.w3_account db s found same) refl

-- The three messages are the newest of the thread when they have been stored.
stored_newest :
    (t1 t2 t3 limit : ℕ) (question answer next : Message) (db : Db)
    → question.seq ≡ 0
    → answer.seq ≡ 0
    → next.seq ≡ 0
    → answer.thread_id ≡ question.thread_id
    → next.thread_id ≡ question.thread_id
    → is_turn question answer ≡ true
    → (next.status == "complete") ≡ true
    → has_id question.message_id db.messages ≡ false
    → has_id answer.message_id (append t1 question db).1.messages ≡ false
    → has_id next.message_id (append t2 answer (append t1 question db).1).1.messages ≡ false
    → let asked = (append t1 question db).1 in
      let answered = (append t2 answer asked).1 in
      list_recent question.thread_id (suc (suc (suc limit))) (append t3 next answered).1
      ≡ numbered t3 next answered.messages
        ∷ numbered t2 answer asked.messages
        ∷ numbered t1 question db.messages
        ∷ list_recent question.thread_id limit db
stored_newest t1 t2 t3 m question answer next db q a n same_a same_n turn complete f1 f2 f3 =
    let asked = (append t1 question db).1 in
    let answered = (append t2 answer asked).1 in
    let thread = question.thread_id in
    let r1 = shown_first t1 m question thread db q f1 (ground arith) refl in
    let r2 = shown_first t2 (suc m) answer thread asked a f2 (ground arith) same_a in
    let r3 = shown_first t3 (suc (suc m)) next thread answered n f3 complete same_n in
    r3
    ∙ ap (λ l. numbered t3 next answered.messages ∷ l)
        (r2 ∙ ap (λ l. numbered t2 answer asked.messages ∷ l) r1)

-- If a complete question and a complete answer were stored one after the other on a thread of any
-- length that is bound to the topic, among the rows of other threads, and then a complete message,
-- the next question of the thread, each with a new id and asking for the next number, then
-- `load_session`, with a `max_turns` above 0 and a state of that thread and topic, leaves the
-- database as it is, and the history that it writes ends with that question and that answer.
pub turn_is_remembered :
    (t1 t2 t3 now max_turns : ℕ) (question answer next : Message) (db : Db) (state : GraphState)
    (identity : AuthnIdentity) (biz : String) (s : Session)
    → state.identity ≡ some identity
    → state.thread_id ≡ some question.thread_id
    → state.biz_id ≡ some biz
    → find_session question.thread_id db.sessions ≡ some s
    → s.biz_id ≡ biz
    → 0 < max_turns
    → question.seq ≡ 0
    → answer.seq ≡ 0
    → next.seq ≡ 0
    → answer.thread_id ≡ question.thread_id
    → next.thread_id ≡ question.thread_id
    → is_turn question answer ≡ true
    → (next.status == "complete") ≡ true
    → has_id question.message_id db.messages ≡ false
    → has_id answer.message_id (append t1 question db).1.messages ≡ false
    → has_id next.message_id (append t2 answer (append t1 question db).1).1.messages ≡ false
    → let asked = (append t1 question db).1 in
      let answered = (append t2 answer asked).1 in
      let later = (append t3 next answered).1 in
      (earlier : List Message) × (load_session_node max_turns now state later ≡ (
        ok (record no_update {
          history = some (
              earlier ++ numbered t1 question db.messages ∷ numbered t2 answer asked.messages ∷ []);
        }),
        later,
      ))
turn_is_remembered t1 t2 t3 now max_turns question answer next db state identity biz s known placed
      topic found same h q a n same_a same_n turn complete f1 f2 f3 =
    let asked = (append t1 question db).1 in
    let answered = (append t2 answer asked).1 in
    let later = (append t3 next answered).1 in
    let m = max_turns * 4 - 3 in
    let thread = question.thread_id in
    let first = numbered t1 question db.messages in
    let second = numbered t2 answer asked.messages in
    let third = numbered t3 next answered.messages in
    let size : max_turns * 4 ≡ suc (suc (suc m)) = omega arith in
    let sessions : later.sessions ≡ db.sessions =
      append-sessions t3 next answered
      ∙ append-sessions t2 answer asked
      ∙ append-sessions t1 question db in
    let (earlier, ends) =
      build_history-newest max_turns first second third (list_recent thread m db) h turn in
    let history : build_history max_turns (list_recent thread (max_turns * 4) later)
        ≡ earlier ++ first ∷ second ∷ [] =
      ap (λ k. build_history max_turns (list_recent thread k later)) size
      ∙ ap (build_history max_turns) (
          stored_newest t1 t2 t3 m question answer next db q a n same_a same_n turn complete f1 f2
            f3)
      ∙ ends in
    (
      earlier,
      load_session_node_lem max_turns now state identity thread biz s later known placed topic
            (ap (find_session thread) sessions ∙ found) same
          ∙ ap (λ (l : List Message). (ok (record no_update { history = some l }), later)) history,
    )
