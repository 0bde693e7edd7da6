-- ===== src/Api/History.antt =====
-- src/ma/api/rest.py: the two endpoints that show what is stored. FastAPI has checked that a limit
-- is between 1 and 200. `iso` is `isoformat` and `from_iso` is `fromisoformat`, which gives the text
-- of its ValueError on a left.
pub mod Ownership
use ocm_agent_v.Common.{
  if◌then◌else◌, ℕ, String, ◌<>◌, ◌⊎◌, inl, inr, Bool, true, false, Option, none, some, List, [],
  ◌∷◌, map, ◌==◌,
}
use ocm_agent_v.Value.{pos, Value, null, str, num, dict}
use ocm_agent_v.Repo.Models.{Timestamp, Session, Message, Db}
use ocm_agent_v.Repo.Sessions.{get_by_thread, list_by_user}
use ocm_agent_v.Repo.Messages.{list_recent}

-- An answer, or an `HTTPException` with its status and its detail.
pub data Response {ℓ} (A : Type ℓ) : Type ℓ where
  answers : A → Response A
  http_error : ℕ → String → Response A

-- `_require_w3_account`; an empty header is none.
abbrev pub with_account {ℓ} : {A : Type ℓ} → Option String → (String → Response A) → Response A
with_account none next = http_error 401 "X-User-Account header required"
with_account (some account) next =
    if account == "" then http_error 401 "X-User-Account header required" else next account

abbrev optional_text : Option String → Value
optional_text none = null
optional_text (some s) = str s

abbrev optional_time : (Timestamp → String) → Option Timestamp → Value
optional_time iso none = null
optional_time iso (some t) = str (iso t)

abbrev pub serialize_session : (Timestamp → String) → Session → Value
serialize_session iso s = dict (
    ("thread_id", str s.thread_id)
    ∷ ("biz_id", str s.biz_id)
    ∷ ("w3_account", str s.w3_account)
    ∷ ("title", optional_text s.title)
    ∷ ("status", str s.status)
    ∷ ("created_at", str (iso s.created_at))
    ∷ ("updated_at", str (iso s.updated_at))
    ∷ ("last_message_at", optional_time iso s.last_message_at)
    ∷ [])

abbrev pub serialize_message : (Timestamp → String) → Message → Value
serialize_message iso m = dict (
    ("message_id", str m.message_id)
    ∷ ("thread_id", str m.thread_id)
    ∷ ("seq", num (pos m.seq))
    ∷ ("role", str m.role)
    ∷ ("content", str m.content)
    ∷ ("status", str m.status)
    ∷ ("route", optional_text m.route)
    ∷ ("created_at", optional_time iso m.created_at)
    ∷ [])

abbrev pub no_cursor : Option String → Bool
no_cursor none = true
no_cursor (some s) = s == ""

abbrev pub cursor_text : Option String → String
cursor_text none = ""
cursor_text (some s) = s

abbrev pub read_cursor {ℓ} :
    {A : Type ℓ} → String ⊎ Timestamp → (Option Timestamp → Response A) → Response A
read_cursor (inl e) next = http_error 400 ("invalid 'before' (must be ISO 8601): " <> e)
read_cursor (inr t) next = next (some t)

-- The cursor, if one is given.
abbrev pub with_cursor {ℓ} :
    {A : Type ℓ}
    → (String → String ⊎ Timestamp)
    → Option String
    → (Option Timestamp → Response A)
    → Response A
with_cursor from_iso before next =
    if no_cursor before then next none else read_cursor (from_iso (cursor_text before)) next

-- A database that is not configured is none.
unfoldable pub list_sessions :
    (Timestamp → String)
    → (String → String ⊎ Timestamp)
    → Option String
    → ℕ
    → Option String
    → Option String
    → Option Db
    → Response (List Value)
list_sessions iso from_iso biz limit before account none =
    with_account account λ w3. http_error 503 "DB not configured"
list_sessions iso from_iso biz limit before account (some db) = with_account account λ w3.
    with_cursor from_iso before
      λ cursor. answers (map (serialize_session iso) (list_by_user w3 biz limit cursor db))

-- Whether the session is there and is the account's.
abbrev pub owns : String → Option Session → Bool
owns w3 none = false
owns w3 (some s) = s.w3_account == w3

unfoldable pub list_messages :
    (Timestamp → String) → String → ℕ → Option String → Option Db → Response (String × List Value)
list_messages iso thread limit account none =
    with_account account λ w3. http_error 503 "DB not configured"
list_messages iso thread limit account (some db) = with_account account λ w3.
    if owns w3 (get_by_thread thread db)
    then answers (thread, map (serialize_message iso) (list_recent thread limit db))
    else http_error 404 ("unknown thread_id: " <> thread)
