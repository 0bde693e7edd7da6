-- ===== src/Repo/Sessions/Lasting.antt =====
-- A thread stays bound to the topic that it was created with, whatever is called in between.
use ocm_agent_v.Common.{
  Bool-cases, session_biz_mismatch, ok, raised, String, ◌≡◌, refl, sym, ap, subst, ◌∙◌, ◌≢◌, ◌⊎◌,
  inl, inr, Option, none, some, List, [], ◌∷◌, ◌==◌, eq_iff,
}
use ocm_agent_v.Value.{Fields}
use ocm_agent_v.Repo.Models.{Timestamp, Session, Db}
use ocm_agent_v.Repo.Sessions.{find_session, new_session, mismatch_text, get_or_create}
use ocm_agent_v.Repo.Sessions.Binding.{get_or_create-finds}
use ocm_agent_v.Repo.Sessions.Table.{
  Table, table_of, insert_at, Call, open_session, look_up, touch_session, Answer, perform,
  specified, run_calls, get_or_create-old, perform-specified,
}

-- The thread has a session of this topic and this user.
abbrev pub IsBound : String → String → String → Table → Type 0
IsBound thread biz account table =
    (s : Session) × (table thread ≡ some s) × (s.biz_id ≡ biz) × (s.w3_account ≡ account)

insert_at-IsBound :
    (k : String) (new : Session) (thread biz account : String) (table : Table)
    → table k ≡ none
    → IsBound thread biz account table
    → IsBound thread biz account (insert_at k new table)
insert_at-IsBound k new thread biz account table absent (s, found, same, own) =
    elim (Bool-cases (k == thread)) [
      | inl e ↦
          let gone : table thread ≡ none = ap table (sym ((eq_iff k thread).0 e)) ∙ absent in
          absurd (cc (gone, found))
      | inr e ↦ (s, rw e found, same, own)
    ]

specified-IsBound :
    (c : Call) (thread biz account : String) (table : Table)
    → IsBound thread biz account table
    → IsBound thread biz account (specified c table).1
specified-IsBound (open_session now k b a ext) thread biz account table h = by_entry (table k) refl
  where
    by_entry :
        (o : Option Session)
        → table k ≡ o
        → IsBound thread biz account (specified (open_session now k b a ext) table).1
    by_entry none e =
        rw (specified, e)
          (insert_at-IsBound k (new_session now k b a ext) thread biz account table e h)
    by_entry (some s) e = elim (Bool-cases (s.biz_id == b)) [
      | inl g ↦ rw (specified, e, g) h
      | inr g ↦ rw (specified, e, g) h
    ]
specified-IsBound (look_up k) thread biz account table h = h
specified-IsBound (touch_session now k) thread biz account table (s, found, same, own) =
    elim (Bool-cases (k == thread)) [
      | inl e ↦
          (record s { updated_at = now; last_message_at = some now }, rw (e, found) refl, same, own)
      | inr e ↦ (s, rw e found, same, own)
    ]

run_calls-IsBound :
    (cs : List Call) (thread biz account : String) (db : Db)
    → IsBound thread biz account (table_of db)
    → IsBound thread biz account (table_of (run_calls perform cs db).1)
run_calls-IsBound [] thread biz account db h = h
run_calls-IsBound (c ∷ cs) thread biz account db h =
    run_calls-IsBound cs thread biz account (perform c db).1 (
      subst (IsBound thread biz account) (ap (λ (r : Answer × Table). r.1) (perform-specified c db))
        (specified-IsBound c thread biz account (table_of db) h))

-- After a call that succeeded, and any sequence of opening, looking up and touching sessions, the
-- thread still has a session with the user of the first and the topic that was asked for: a later
-- call on the thread gives it if it names the same topic, and raises the mismatch if it names
-- another; it changes nothing in either case.
pub get_or_create_binds :
    (now now' : Timestamp) (thread biz biz' account account' : String) (ext ext' : Option Fields)
    (db : Db) (first : Session) (after : Db) (cs : List Call)
    → get_or_create now thread biz account ext db ≡ (ok first, after)
    → let later = (run_calls perform cs after).1 in
      (s : Session) × (find_session thread later.sessions ≡ some s)
      × (s.biz_id ≡ biz)
      × (s.w3_account ≡ first.w3_account)
      × (((biz ≡ biz') × (get_or_create now' thread biz' account' ext' later ≡ (ok s, later)))
          ⊎ ((biz ≢ biz')
              × (get_or_create now' thread biz' account' ext' later
                  ≡ (raised (session_biz_mismatch (mismatch_text thread biz biz')), later))))
get_or_create_binds now now' thread biz biz' account account' ext ext' db first after cs h =
    let (found, bound) = get_or_create-finds now thread biz account ext db first after h in
    let later = (run_calls perform cs after).1 in
    let (s, there, same, own) =
      run_calls-IsBound cs thread biz first.w3_account after (first, found, bound, refl) in
    let answer = get_or_create-old now' thread biz' account' ext' later s there in
    (
      s,
      there,
      same,
      own,
      elim (Bool-cases (biz == biz')) [
        | inl e ↦ inl ((eq_iff biz biz').0 e, rw (same, e) at answer)
        | inr e ↦ inr (λ g. cc (e, (eq_iff biz biz').1 g), rw (same, e) at answer)
      ],
    )
