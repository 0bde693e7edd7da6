-- ===== src/App/Replay.antt =====
-- src/ma/cli/replay.py. `json.dumps` and `datetime.isoformat` are parameters, and the arguments are
-- taken to be parsed. Rows of one number, which only different threads can have, may come in
-- another order.
pub mod Requests
use ocm_agent_v.Common.{
  ltb, if◌then◌else◌, keep, ℕ, String, ◌<>◌, Bool, false, Option, none, some, List, [], ◌∷◌, map,
  ◌==◌,
}
use ocm_agent_v.Value.{pos, Value, null, str, num, dict}
use ocm_agent_v.Repo.Models.{Timestamp, Message, Db}

-- WHERE request_id = $1
abbrev pub has_request : String → Message → Bool
has_request id m = elim m.request_id [ none ↦ false | some r ↦ r == id ]

abbrev pub insert_asc : Message → List Message → List Message
insert_asc m [] = m ∷ []
insert_asc m (x ∷ xs) = if ltb x.seq m.seq then x ∷ insert_asc m xs else m ∷ x ∷ xs

-- ORDER BY seq
abbrev pub sort_asc : List Message → List Message
sort_asc [] = []
sort_asc (m ∷ rows) = insert_asc m (sort_asc rows)

unfoldable pub rows_of : String → Db → List Message
rows_of id db = sort_asc (keep (has_request id) db.messages)

module _ (isoformat : Timestamp → String) where
  abbrev pub time_value : Option Timestamp → Value
  time_value none = null
  time_value (some t) = str (isoformat t)

  abbrev pub replayed : Message → Value
  replayed m = dict (
      ("role", str m.role)
      ∷ ("content", str m.content)
      ∷ ("status", str m.status)
      ∷ ("thread_id", str m.thread_id)
      ∷ ("seq", num (pos m.seq))
      ∷ ("created_at", time_value m.created_at)
      ∷ [])

  -- `_replay`
  unfoldable pub replay : String → Db → List Value
  unfolding rows_of
  replay id db = map replayed (rows_of id db)

  -- What `main` prints to the two outputs, and the code with which it exits.
  abbrev pub Printed : Type 0
  Printed = List String × List String × ℕ

  abbrev pub print_rows : (Value → String) → String → List Value → Printed
  print_rows dumps id [] = ([], ("no messages found for request_id=" <> id) ∷ [], 1)
  print_rows dumps id (row ∷ rows) = (map dumps (row ∷ rows), [], 0)

  unfoldable pub main : (Value → String) → String → Db → Printed
  unfolding replay
  main dumps id db = print_rows dumps id (replay id db)
