-- ===== src/Repo/Sessions.antt =====
-- src/ma/core/repo/session_repository.py: each method is an action on the database.
-- A row's `ext` is held decoded; Repo/Rows says how it is written and read.
pub mod Binding
pub mod Table
pub mod Lasting
use ocm_agent_v.Common.{
  ltb, nat_eq, if◌then◌else◌, take, keep, runtime_error, session_biz_mismatch, Outcome, ok, raised,
  ℕ, String, ◌<>◌, Bool, true, false, ◌&&◌, Option, none, some, List, [], ◌∷◌, ◌++◌, map, ◌==◌,
}
use ocm_agent_v.Value.{Fields, end}
use ocm_agent_v.Repo.Models.{Timestamp, Session, Db}

-- What an action returns or raises, and the database that it leaves.
abbrev pub Action : Type 0 → Type 0
Action A = Db → Outcome A × Db

-- SELECT … WHERE thread_id = $1
abbrev pub find_session : String → List Session → Option Session
find_session thread [] = none
find_session thread (s ∷ rows) = if s.thread_id == thread then some s else find_session thread rows

-- INSERT INTO ma_session … ON CONFLICT (thread_id) DO NOTHING
abbrev pub insert_session : Session → List Session → List Session
insert_session s rows = elim (find_session s.thread_id rows) [
  | none ↦ rows ++ s ∷ []
  | some _ ↦ rows
]

-- The row that `get_or_create` inserts, with the table's defaults.
abbrev pub new_session : Timestamp → String → String → String → Option Fields → Session
new_session now thread biz account ext = record {
  thread_id = thread;
  biz_id = biz;
  w3_account = account;
  title = none;
  status = "active";
  created_at = now;
  updated_at = now;
  last_message_at = none;
  ext = elim ext [ none ↦ end | some d ↦ d ];
}

abbrev pub mismatch_text : String → String → String → String
mismatch_text thread bound biz =
    "thread_id=" <> thread <> " already bound to biz_id=" <> bound <> ", cannot reuse with biz_id="
    <> biz

-- The row that the last SELECT reads; `assert row is not None`.
abbrev pub read_back : String → Action Session
read_back thread db = elim (find_session thread db.sessions) [
  | none ↦ (raised (runtime_error "assert"), db)
  | some s ↦ (ok s, db)
]

-- `others` is what the other connections do between the first SELECT and the INSERT.
unfoldable pub get_or_create_amid :
    (Db → Db) → Timestamp → String → String → String → Option Fields → Action Session
get_or_create_amid others now thread biz account ext db = elim (find_session thread db.sessions) [
  | some s ↦
      if s.biz_id == biz
      then (ok s, db)
      else (raised (session_biz_mismatch (mismatch_text thread s.biz_id biz)), db)
  | none ↦
      let seen = others db in
      read_back thread (record seen {
        sessions = insert_session (new_session now thread biz account ext) seen.sessions;
      })
]

-- With no other connection at work.
unfoldable pub get_or_create : Timestamp → String → String → String → Option Fields → Action Session
unfolding get_or_create_amid
get_or_create = get_or_create_amid (λ db. db)

unfoldable pub get_by_thread : String → Db → Option Session
get_by_thread thread db = find_session thread db.sessions

-- `$2 IS NULL OR column = $2`
abbrev pub matches_biz : Option String → Session → Bool
matches_biz none s = true
matches_biz (some biz) s = s.biz_id == biz

abbrev pub later_than : Timestamp → Option Timestamp → Bool
later_than t none = false
later_than t (some u) = ltb u t

-- `$3 IS NULL OR last_message_at < $3`; a NULL is below nothing.
abbrev pub matches_before : Option Timestamp → Session → Bool
matches_before none s = true
matches_before (some t) s = later_than t s.last_message_at

-- ORDER BY last_message_at DESC NULLS LAST, created_at DESC: whether `a` stands before `b`.
abbrev first_by_time : Option Timestamp → Option Timestamp → Bool → Bool
first_by_time none none tie = tie
first_by_time none (some u) tie = false
first_by_time (some t) none tie = true
first_by_time (some t) (some u) tie = if nat_eq t u then tie else ltb u t

abbrev pub stands_before : Session → Session → Bool
stands_before a b =
    first_by_time a.last_message_at b.last_message_at (ltb b.created_at a.created_at)

abbrev pub insert_by_time : Session → List Session → List Session
insert_by_time s [] = s ∷ []
insert_by_time s (x ∷ xs) = if stands_before x s then x ∷ insert_by_time s xs else s ∷ x ∷ xs

abbrev pub sort_by_time : List Session → List Session
sort_by_time [] = []
sort_by_time (s ∷ rows) = insert_by_time s (sort_by_time rows)

-- WHERE w3_account = $1 AND …
abbrev pub selects : String → Option String → Option Timestamp → Session → Bool
selects account biz before s =
    s.w3_account == account && matches_biz biz s && matches_before before s

unfoldable pub list_by_user : String → Option String → ℕ → Option Timestamp → Db → List Session
list_by_user account biz limit before db =
    take limit (sort_by_time (keep (selects account biz before) db.sessions))

abbrev pub touch_row : Timestamp → String → Session → Session
touch_row now thread s =
    if s.thread_id == thread then record s { updated_at = now; last_message_at = some now } else s

unfoldable pub touch : Timestamp → String → Db → Db
touch now thread db = record db { sessions = map (touch_row now thread) db.sessions }
