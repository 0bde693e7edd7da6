-- ===== src/Repo/Rows.antt =====
-- src/ma/core/repo: `_row_to_session` and `_row_to_message`, with what the INSERT statements write
-- into the JSON columns. A JSON column comes back as a text or decoded.
use ocm_agent_v.Common.{
  if◌then◌else◌, value_error, Outcome, ok, raised, ◌>>=◌, ℕ, String, ◌≡◌, refl, Option, none, some,
}
use ocm_agent_v.Value.{Fields, end, Value, obj, truthy}
use ocm_agent_v.Repo.Models.{Timestamp, Session, Message}
use ocm_agent_v.Graph.Events.{Parsed, parsed, not_json}

pub data Column : Type 0 where
  as_text : String → Column
  decoded : Value → Column

pub record SessionRow : Type 0 where
  pub thread_id : String
  pub biz_id : String
  pub w3_account : String
  pub title : Option String
  pub status : String
  pub created_at : Timestamp
  pub updated_at : Timestamp
  pub last_message_at : Option Timestamp
  pub ext : Column

pub record MessageRow : Type 0 where
  pub message_id : String
  pub thread_id : String
  pub seq : ℕ
  pub role : String
  pub content : String
  pub content_meta : Column
  pub status : String
  pub route : Option String
  pub request_id : Option String
  pub created_at : Option Timestamp
  pub ext : Column

abbrev loaded : Parsed → Outcome Value
loaded (parsed v) = ok v
loaded (not_json text) = raised (value_error text)

module _ (loads : String → Parsed) where
  -- `if isinstance(v, str): v = json.loads(v)`
  abbrev pub column_value : Column → Outcome Value
  column_value (as_text s) = loaded (loads s)
  column_value (decoded v) = ok v

  -- `v or {}`, if that is a dict. Python keeps what is none; such a row is not followed here.
  abbrev pub dict_of : Value → Option Fields
  dict_of (obj d) = some d
  dict_of v = if truthy v then none else some end

  abbrev session_with : SessionRow → Option Fields → Option Session
  session_with row none = none
  session_with row (some ext) = some (record {
    thread_id = row.thread_id;
    biz_id = row.biz_id;
    w3_account = row.w3_account;
    title = row.title;
    status = row.status;
    created_at = row.created_at;
    updated_at = row.updated_at;
    last_message_at = row.last_message_at;
    ext = ext;
  })

  unfoldable pub row_to_session : SessionRow → Outcome (Option Session)
  row_to_session row = do ext ← column_value row.ext; ok (session_with row (dict_of ext))

  abbrev message_with : MessageRow → Option Fields → Option Fields → Option Message
  message_with row (some content_meta) (some ext) = some (record {
    message_id = row.message_id;
    thread_id = row.thread_id;
    seq = row.seq;
    role = row.role;
    content = row.content;
    content_meta = content_meta;
    status = row.status;
    route = row.route;
    request_id = row.request_id;
    created_at = row.created_at;
    ext = ext;
  })
  message_with row content_meta ext = none

  unfoldable pub row_to_message : MessageRow → Outcome (Option Message)
  row_to_message row = do
    content_meta ← column_value row.content_meta
    ext ← column_value row.ext
    ok (message_with row (dict_of content_meta) (dict_of ext))

-- The rows of a session and of a message, with `json.dumps` of their dicts in the JSON columns.
abbrev pub row_of_session : (Value → String) → Session → SessionRow
row_of_session dumps s = record {
  thread_id = s.thread_id;
  biz_id = s.biz_id;
  w3_account = s.w3_account;
  title = s.title;
  status = s.status;
  created_at = s.created_at;
  updated_at = s.updated_at;
  last_message_at = s.last_message_at;
  ext = as_text (dumps (obj s.ext));
}

abbrev pub row_of_message : (Value → String) → Message → MessageRow
row_of_message dumps m = record {
  message_id = m.message_id;
  thread_id = m.thread_id;
  seq = m.seq;
  role = m.role;
  content = m.content;
  content_meta = as_text (dumps (obj m.content_meta));
  status = m.status;
  route = m.route;
  request_id = m.request_id;
  created_at = m.created_at;
  ext = as_text (dumps (obj m.ext));
}

-- If `loads` reads back what `dumps` wrote of the dicts, then the rows are read as the session and the
-- message that they were written from: so the tables may be held with their dicts decoded.
pub rows_are_read :
    (loads : String → Parsed) (dumps : Value → String) (s : Session) (m : Message)
    → loads (dumps (obj s.ext)) ≡ parsed (obj s.ext)
    → loads (dumps (obj m.content_meta)) ≡ parsed (obj m.content_meta)
    → loads (dumps (obj m.ext)) ≡ parsed (obj m.ext)
    → (row_to_session loads (row_of_session dumps s) ≡ ok (some s))
      × (row_to_message loads (row_of_message dumps m) ≡ ok (some m))
unfolding row_to_session row_to_message
rows_are_read loads dumps s m h1 h2 h3 = (rw h1 refl, rw (h2, h3) refl)
