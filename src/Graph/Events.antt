-- ===== src/Graph/Events.antt =====
-- src/ma/core/graph/events.py. `json` is a parameter; a frame is held as the value that is encoded.
use ocm_agent_v.Common.{
  if◌then◌else◌, type_error, ws_frame_error, Outcome, ok, raised, String, ◌<>◌, Bool, true, false,
  ◌||◌, Option, none, some, [], ◌∷◌, ◌==◌,
}
use ocm_agent_v.Value.{pos, Fields, Value, null, str, num, obj, lookup_or, dict, is_hashable}
use ocm_agent_v.Plugin.Formats.{Formats}

pub data EventType : Type 0 where
  meta thinking progress delta tool error done : EventType

pub record ChatEvent : Type 0 where
  pub type : EventType
  pub payload : Value
  pub event_id : Option String

abbrev pub type_text : EventType → String
type_text meta = "meta"
type_text thinking = "thinking"
type_text progress = "progress"
type_text delta = "delta"
type_text tool = "tool"
type_text error = "error"
type_text done = "done"

abbrev pub id_line : Option String → String
id_line none = ""
id_line (some id) = "id: " <> id <> "\n"

-- `dumps` is `json.dumps`; it raises on what it cannot encode, which no JSON value is.
abbrev pub encode_sse : (Value → String) → ChatEvent → String
encode_sse dumps ev =
    "event: "
    <> type_text ev.type
    <> "\n"
    <> id_line ev.event_id
    <> "data: "
    <> dumps ev.payload
    <> "\n\n"

-- A comment line, which an EventSource passes over.
abbrev pub encode_keepalive : String
encode_keepalive = ": keep-alive\n\n"

abbrev pub encode_ws : ChatEvent → Value → Value
encode_ws ev request_id = dict (
    ("op", str "event")
    ∷ ("request_id", request_id)
    ∷ ("event", str (type_text ev.type))
    ∷ ("data", ev.payload)
    ∷ [])

abbrev pub encode_ws_ready : Value
encode_ws_ready = dict (
    ("op", str "ready")
    ∷ ("server_version", str "0.2.0")
    ∷ ("heartbeat_interval_s", num (pos 20))
    ∷ [])

abbrev pub encode_ws_pong : Value
encode_ws_pong = dict (("op", str "pong") ∷ [])

abbrev pub encode_ws_closed : String → Value
encode_ws_closed reason = dict (("op", str "closed") ∷ ("reason", str reason) ∷ [])

-- What `json.loads` gives: a value, or a `JSONDecodeError` with its text.
pub data Parsed : Type 0 where
  parsed : Value → Parsed
  not_json : String → Parsed

-- `repr(v)`; of all but a text it is `str(v)`.
abbrev pub repr_value : Formats → Value → String
repr_value f (str s) = f.repr s
repr_value f v = f.show_other v

abbrev pub is_client_op : String → Bool
is_client_op op = op == "ask" || (op == "cancel" || op == "ping")

-- `op not in _WS_CLIENT_OPS`, a frozen set of texts, raises on what has no hash.
abbrev pub known_op : Value → Outcome Bool
known_op (str op) = ok (is_client_op op)
known_op v = if is_hashable v then ok false else raised (type_error "unhashable type")

abbrev pub checked_frame : Formats → Value → Fields → Outcome Bool → Outcome Fields
checked_frame f op frame (raised e) = raised e
checked_frame f op frame (ok true) = ok frame
checked_frame f op frame (ok false) =
    raised (ws_frame_error ("unknown or missing op: " <> repr_value f op))

unfoldable pub decode_ws_frame : Formats → Parsed → Outcome Fields
decode_ws_frame f (not_json text) = raised (ws_frame_error ("invalid JSON: " <> text))
decode_ws_frame f (parsed (obj frame)) =
    checked_frame f (lookup_or "op" null frame) frame (known_op (lookup_or "op" null frame))
decode_ws_frame f (parsed v) = raised (ws_frame_error "frame must be a JSON object")
