-- ===== src/Repo/Messages.antt =====
-- src/ma/core/repo/message_repository.py: each method is an action on the database.
-- JSON columns are held decoded; Repo/Rows says how they are written and read.
pub mod Order
pub mod Append
pub mod Keys
use ocm_agent_v.Common.{
  ltb, nat_eq, if◌then◌else◌, take, keep, unique_violation, ok, raised, ℕ, zero, suc, ◌+◌, max,
  String, Bool, false, ◌&&◌, ◌||◌, some, List, [], ◌∷◌, ◌++◌, map, ◌==◌,
}
use ocm_agent_v.Value
use ocm_agent_v.Value.{Fields, field, end, Value}
use ocm_agent_v.Repo.Models.{Timestamp, Message, Db}
use ocm_agent_v.Repo.Sessions.{Action}

-- SELECT COALESCE(MAX(seq), 0) … WHERE thread_id = $1
abbrev pub max_seq : String → List Message → ℕ
max_seq thread [] = 0
max_seq thread (m ∷ rows) =
    let rest = max_seq thread rows in if m.thread_id == thread then max m.seq rest else rest

-- PRIMARY KEY (message_id), UNIQUE (thread_id, seq)
abbrev pub clashes : Message → Message → Bool
clashes a b = a.message_id == b.message_id || (a.thread_id == b.thread_id && nat_eq a.seq b.seq)

abbrev pub clashes_any : Message → List Message → Bool
clashes_any m [] = false
clashes_any m (x ∷ rows) = clashes m x || clashes_any m rows

-- The row that `append` inserts: `seq` 0 takes the next number of the thread.
abbrev pub numbered : Timestamp → Message → List Message → Message
numbered now m rows = record m {
  seq = elim m.seq [ zero ↦ max_seq m.thread_id rows + 1 | suc n ↦ suc n ];
  created_at = some now;
}

unfoldable pub append : Timestamp → Message → Action (Unit {0})
append now m db =
    let row = numbered now m db.messages in
    if clashes_any row db.messages
    then (raised (unique_violation "ma_message"), db)
    else (ok tt, record db { messages = db.messages ++ row ∷ [] })

-- WHERE thread_id = $1 AND status IN ('complete', 'partial')
abbrev pub is_listed : String → Message → Bool
is_listed thread m = m.thread_id == thread && (m.status == "complete" || m.status == "partial")

abbrev pub insert_desc : Message → List Message → List Message
insert_desc m [] = m ∷ []
insert_desc m (x ∷ xs) = if ltb m.seq x.seq then x ∷ insert_desc m xs else m ∷ x ∷ xs

-- ORDER BY seq DESC
abbrev pub sort_desc : List Message → List Message
sort_desc [] = []
sort_desc (m ∷ rows) = insert_desc m (sort_desc rows)

unfoldable pub list_recent : String → ℕ → Db → List Message
list_recent thread limit db = take limit (sort_desc (keep (is_listed thread) db.messages))

abbrev mark_row : String → (Message → Message) → Message → Message
mark_row id mark m = if m.message_id == id then mark m else m

unfoldable pub mark_partial : String → Db → Db
mark_partial id db = record db {
  messages = map (mark_row id (λ m. record m { status = "partial" })) db.messages;
}

-- `a || b` of jsonb: the keys of `b` replace those of `a`.
abbrev pub set_field : String → Value.Value → Fields → Fields
set_field k v end = field k v end
set_field k v (field j w d) = if j == k then field k v d else field j w (set_field k v d)

abbrev pub merge_json : Fields → Fields → Fields
merge_json a end = a
merge_json a (field k v b) = merge_json (set_field k v a) b

unfoldable pub mark_failed : String → Fields → Db → Db
mark_failed id err db = record db {
  messages =
      map (mark_row id (λ m. record m { status = "failed"; ext = merge_json m.ext err }))
        db.messages;
}
