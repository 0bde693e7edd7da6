-- ===== src/Repo/Sessions/Table.antt =====
-- The table of the sessions as a finite map from threads: an abstract store whose operations forget
-- the rows and their order, and the runs of the two.
use ocm_agent_v.Repo.Sessions.Binding.{find_session-append}
use ocm_agent_v.Common.{
  if◌then◌else◌, Bool-cases, session_biz_mismatch, Outcome, ok, raised, entry_cases, String, ◌≡◌,
  refl, sym, ap, ◌∙◌, fun_ext, inl, inr, Option, true, none, some, List, [], ◌∷◌, ◌++◌, map, arith,
  ◌==◌, eq_iff, eq_refl,
}
use ocm_agent_v.Value.{Fields}
use ocm_agent_v.Repo.Models.{Timestamp, Session, Db}
use ocm_agent_v.Repo.Sessions.{
  find_session, insert_session, new_session, mismatch_text, read_back, get_or_create_amid,
  get_or_create, get_by_thread, touch_row, touch,
}

-- The store that the repository promises.
abbrev pub Table : Type 0
Table = String → Option Session

abbrev pub table_of : Db → Table
table_of db thread = find_session thread db.sessions

abbrev pub insert_at : String → Session → Table → Table
insert_at thread s table k = if thread == k then some s else table k

-- A call of the repository.
pub data Call : Type 0 where
  open_session : Timestamp → String → String → String → Option Fields → Call
  look_up : String → Call
  touch_session : Timestamp → String → Call

-- What a call answers.
abbrev pub Answer : Type 0
Answer = Outcome (Option Session)

abbrev pub answered : Outcome Session → Answer
answered (ok s) = ok (some s)
answered (raised e) = raised e

-- The call as the repository does it.
abbrev pub perform : Call → Db → Answer × Db
perform (open_session now thread biz account ext) db =
    let (r, db') = get_or_create now thread biz account ext db in (answered r, db')
perform (look_up thread) db = (ok (get_by_thread thread db), db)
perform (touch_session now thread) db = (ok none, touch now thread db)

abbrev pub touch_entry : Timestamp → Option Session → Option Session
touch_entry now none = none
touch_entry now (some s) = some (record s { updated_at = now; last_message_at = some now })

-- The call on the abstract store.
abbrev pub specified : Call → Table → Answer × Table
specified (open_session now thread biz account ext) table = elim (table thread) [
  | none ↦ let s = new_session now thread biz account ext in (ok (some s), insert_at thread s table)
  | some s ↦
      if s.biz_id == biz
      then (ok (some s), table)
      else (raised (session_biz_mismatch (mismatch_text thread s.biz_id biz)), table)
]
specified (look_up thread) table = (ok (table thread), table)
specified (touch_session now thread) table =
    (ok none, λ k. if thread == k then touch_entry now (table k) else table k)

-- The answers of a sequence of calls, and what it leaves.
abbrev pub run_calls : {A : Type 0} → (Call → A → Answer × A) → List Call → A → List Answer × A
run_calls act [] a = ([], a)
run_calls act (c ∷ cs) a =
    let (r, a') = act c a in let (rs, a'') = run_calls act cs a' in (r ∷ rs, a'')

find_session-touch :
    (now : Timestamp) (thread k : String) (rows : List Session)
    → find_session k (map (touch_row now thread) rows)
      ≡ (if thread == k then touch_entry now (find_session k rows) else find_session k rows)
find_session-touch now thread k [] = ground arith
find_session-touch now thread k (s ∷ rows) = ground (
  arith,
  find_session-touch now thread k rows,
  eq_iff s.thread_id thread,
  eq_iff s.thread_id k,
  eq_iff thread k,
)

find_session-insert :
    (k : String) (s : Session) (rows : List Session)
    → find_session s.thread_id rows ≡ none
    → find_session k (rows ++ s ∷ []) ≡ (if s.thread_id == k then some s else find_session k rows)
find_session-insert k s [] h = refl
find_session-insert k s (x ∷ rows) h = ground (
  arith,
  find_session-insert k s rows,
  eq_iff x.thread_id s.thread_id,
  eq_iff x.thread_id k,
  eq_iff s.thread_id k,
)

get_or_create-new :
    (now : Timestamp) (thread biz account : String) (ext : Option Fields) (db : Db)
    → find_session thread db.sessions ≡ none
    → let s = new_session now thread biz account ext in
      get_or_create now thread biz account ext db
      ≡ (ok s, record db { sessions = db.sessions ++ s ∷ [] })
unfolding get_or_create get_or_create_amid
get_or_create-new now thread biz account ext db e =
    let s = new_session now thread biz account ext in
    let found : find_session thread (db.sessions ++ s ∷ []) ≡ some s =
      find_session-append thread db.sessions s e ∙ (rw (eq_refl thread) refl) in
    rw
      (get_or_create, get_or_create_amid, e, insert_session, e, read_back, found, insert_session, e)
      refl

pub get_or_create-old :
    (now : Timestamp) (thread biz account : String) (ext : Option Fields) (db : Db) (s : Session)
    → find_session thread db.sessions ≡ some s
    → get_or_create now thread biz account ext db ≡ (
        if s.biz_id == biz
        then (ok s, db)
        else (raised (session_biz_mismatch (mismatch_text thread s.biz_id biz)), db))
unfolding get_or_create get_or_create_amid
get_or_create-old now thread biz account ext db s e = rw (get_or_create, get_or_create_amid, e) refl

-- A call on a thread that is bound to the topic gives its session.
pub found_again :
    (now : Timestamp) (thread biz account : String) (db : Db) (s : Session)
    → find_session thread db.sessions ≡ some s
    → s.biz_id ≡ biz
    → get_or_create now thread biz account none db ≡ (ok s, db)
found_again now thread biz account db s found same =
    let matches : (s.biz_id == biz) ≡ true = (eq_iff s.biz_id biz).1 same in
    get_or_create-old now thread biz account none db s found ∙ rw matches refl

pub perform-specified :
    (c : Call) (db : Db)
    → let (r, db') = perform c db in specified c (table_of db) ≡ (r, table_of db')
unfolding get_by_thread touch
perform-specified (open_session now thread biz account ext) db =
    elim (entry_cases (find_session thread db.sessions)) [
      | inl e ↦
          let new = new_session now thread biz account ext in
          rw (get_or_create-new now thread biz account ext db e, specified, e)
            (ap (λ (t : Table). (ok (some new), t))
              (fun_ext λ k. sym (find_session-insert k new db.sessions e)))
      | inr (s, e) ↦
          rw (get_or_create-old now thread biz account ext db s e, specified, e)
            (elim (Bool-cases (s.biz_id == biz)) [ inl b ↦ rw b refl | inr b ↦ rw b refl ])
    ]
perform-specified (look_up thread) db = refl
perform-specified (touch_session now thread) db =
    ap (λ (t : Table). (ok none, t))
      (fun_ext λ k. sym (find_session-touch now thread k db.sessions))

-- Any sequence of calls is answered as the abstract store answers it, and leaves rows that stand for
-- what the abstract store has become.
pub sessions_refine :
    (cs : List Call) (db : Db)
    → let (rs, db') = run_calls perform cs db in
      run_calls specified cs (table_of db) ≡ (rs, table_of db')
sessions_refine [] db = refl
sessions_refine (c ∷ cs) db = rw (perform-specified c db, sessions_refine cs (perform c db).1) refl
