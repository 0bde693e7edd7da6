-- ===== src/Repo/Sessions/Binding.antt =====
-- A thread stays bound to the topic that it was created with.
use ocm_agent_v.Common.{
  if◌then◌else◌, ok, String, ◌≡◌, refl, Option, none, some, List, [], ◌∷◌, ◌++◌, arith, ◌==◌,
  eq_iff, eq_refl,
}
use ocm_agent_v.Value.{Fields}
use ocm_agent_v.Repo.Models.{Timestamp, Session, Db}
use ocm_agent_v.Repo.Sessions.{find_session, new_session, get_or_create_amid, get_or_create}

pub find_session-append :
    (thread : String) (rows : List Session) (s : Session)
    → find_session thread rows ≡ none
    → find_session thread (rows ++ s ∷ []) ≡ (if s.thread_id == thread then some s else none)
find_session-append thread [] s h = refl
find_session-append thread (x ∷ rows) s h = ground (arith, find_session-append thread rows s)

-- What a successful call leaves can be found again, and is bound to the topic that was asked for.
pub get_or_create-finds :
    (now : Timestamp) (thread biz account : String) (ext : Option Fields) (db : Db) (s : Session)
    (after : Db)
    → get_or_create now thread biz account ext db ≡ (ok s, after)
    → (find_session thread after.sessions ≡ some s) × (s.biz_id ≡ biz)
unfolding get_or_create
get_or_create-finds now thread biz account ext db s after h = ground (
  arith,
  find_session-append thread db.sessions (new_session now thread biz account ext),
  eq_refl thread,
  eq_iff s.biz_id biz,
)

-- If another connection inserts the thread's row, for whatever topic, between the first SELECT and
-- the INSERT, the call returns that row: the topic is not compared again.
pub get_or_create_race :
    (now : Timestamp) (thread biz account : String) (ext : Option Fields) (db : Db) (s : Session)
    → find_session thread db.sessions ≡ none
    → s.thread_id ≡ thread
    → get_or_create_amid
        (λ d. record d { sessions = d.sessions ++ s ∷ [] })
        now
        thread
        biz
        account
        ext
        db
      ≡ (ok s, record db { sessions = db.sessions ++ s ∷ [] })
unfolding get_or_create_amid
get_or_create_race now thread biz account ext db s absent e =
    ground (arith, find_session-append thread db.sessions s absent, eq_iff s.thread_id thread)
