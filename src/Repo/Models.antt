-- ===== src/Repo/Models.antt =====
-- src/ma/core/repo/models.py, and the rows of the tables that db/versions/0001 creates.
-- A timestamp is a number that grows with time.
use ocm_agent_v.Common.{ℕ, String, Option, List, []}
use ocm_agent_v.Value.{Fields}

abbrev pub Timestamp : Type 0
Timestamp = ℕ

pub record Session : Type 0 where
  pub thread_id : String
  pub biz_id : String
  pub w3_account : String
  pub title : Option String
  pub status : String
  pub created_at : Timestamp
  pub updated_at : Timestamp
  pub last_message_at : Option Timestamp
  pub ext : Fields

pub record Message : Type 0 where
  pub message_id : String
  pub thread_id : String
  pub seq : ℕ
  pub role : String
  pub content : String
  pub content_meta : Fields
  pub status : String
  pub route : Option String
  pub request_id : Option String
  pub created_at : Option Timestamp
  pub ext : Fields

-- The database: the rows of `ma_session` and `ma_message`, in the order of insertion.
pub record Db : Type 0 where
  pub sessions : List Session
  pub messages : List Message

abbrev pub empty_db : Db
empty_db = record { sessions = []; messages = [] }
