-- ===== src/Api/Socket.antt =====
-- src/ma/api/ws.py: a connection after its `ready` frame, as a state and the inputs that it gets.
-- A frame is held as the JSON value that is sent. The tasks run elsewhere: an input says that one
-- has ended. A task is named by the number of its creation, and is taken to have begun before it is
-- cancelled.
pub mod Bound
pub mod Shared
pub mod Handshake
pub mod Opening
use ocm_agent_v.Common.{
  ltb, nat_eq, if◌then◌else◌, length, Exn, type_error, ws_frame_error, Outcome, ok, raised, ℕ, suc,
  String, ◌<>◌, Bool, Option, none, some, List, [], ◌∷◌, ◌++◌, ◌==◌, ◌>>=◌,
}
use ocm_agent_v.Value.{Fields, Value, null, str, lookup_or, truthy, dict, py_eq, is_hashable}
use ocm_agent_v.Plugin.Formats.{Formats}
use ocm_agent_v.Graph.Events.{encode_ws_pong, encode_ws_closed, Parsed, decode_ws_frame}

-- `active` is `ConnectionManager._active_tasks`; `tasks` holds what was created and has not ended,
-- with the id that the task itself goes by; `cancels` are the tasks that `cancel()` was called on.
pub record Connection : Type 0 where
  pub active : List (Value × ℕ)
  pub tasks : List (ℕ × Value)
  pub cancels : List ℕ
  pub created : ℕ

abbrev pub new_connection : Connection
new_connection = record { active = []; tasks = []; cancels = []; created = 0 }

abbrev pub max_concurrent : ℕ
max_concurrent = 5

abbrev pub can_accept : Connection → Bool
can_accept c = ltb (length c.active) max_concurrent

-- `d[key] = task`: an entry of the key is replaced in its place.
unfoldable pub add : Value → ℕ → List (Value × ℕ) → List (Value × ℕ)
unfolding py_eq
add key task [] = (key, task) ∷ []
add key task ((k, t) ∷ d) =
    let rest = add key task d in if py_eq k key then (k, task) ∷ d else (k, t) ∷ rest

-- `d.pop(key, None)`
unfoldable pub remove : Value → List (Value × ℕ) → List (Value × ℕ)
unfolding py_eq
remove key [] = []
remove key ((k, t) ∷ d) = let rest = remove key d in if py_eq k key then d else (k, t) ∷ rest

abbrev pub find_task : Value → List (Value × ℕ) → Option ℕ
find_task key [] = none
find_task key ((k, t) ∷ d) = if py_eq k key then some t else find_task key d

abbrev pub all_tasks : List (Value × ℕ) → List ℕ
all_tasks [] = []
all_tasks ((k, t) ∷ d) = t ∷ all_tasks d

-- `_cancel_all`
abbrev pub cancel_all : Connection → Connection
cancel_all c = record c { active = []; cancels = all_tasks c.active ++ c.cancels }

-- A text that arrives, the 45 seconds without one, the end of the connection, and the end of a task.
pub data Input : Type 0 where
  received : Parsed → Input
  timed_out disconnected : Input
  task_ended : ℕ → Input

-- How the loop goes on: it reads again, is left by `break` or by an exception.
pub data Next : Type 0 where
  goes_on broke : Next
  crashed : Exn → Next

pub record Step : Type 0 where
  pub sent : List Value
  pub next : Next
  pub connection : Connection

abbrev pub stays : List Value → Connection → Step
stays sent c = record { sent = sent; next = goes_on; connection = c }

abbrev pub error_frame : String → Value
error_frame reason = dict (("op", str "error") ∷ ("reason", str reason) ∷ [])

abbrev pub busy_frame : Value → Value
busy_frame request_id = dict (
    ("op", str "error")
    ∷ ("reason", str "too many concurrent requests (max 5)")
    ∷ ("request_id", request_id)
    ∷ [])

-- An exception that leaves the loop: `finally` cancels the tasks.
abbrev pub crash : Exn → Connection → Step
crash e c = record { sent = []; next = crashed e; connection = cancel_all c }

-- `frame.get("request_id") or _new_request_id()`
abbrev pub own_id : String → Value → Value
own_id ulid v = if truthy v then v else str ("req_" <> ulid)

-- The task is created and then kept under the frame's id, which must have a hash.
abbrev pub ask : String → Fields → Connection → Step
ask ulid frame c =
    let key = lookup_or "request_id" (str "") frame in
    let started = record c {
      tasks = (c.created, own_id ulid (lookup_or "request_id" null frame)) ∷ c.tasks;
      created = suc c.created;
    } in
    if can_accept c
    then (if is_hashable key
        then stays [] (record started { active = add key c.created c.active })
        else crash (type_error "unhashable type") started)
    else stays (busy_frame key ∷ []) c

abbrev pub cancel_found : Value → Option ℕ → Connection → Step
cancel_found key none c = stays [] c
cancel_found key (some task) c =
    stays [] (record c { active = remove key c.active; cancels = task ∷ c.cancels })

abbrev pub cancel : Fields → Connection → Step
cancel frame c =
    let key = lookup_or "request_id" (str "") frame in
    if is_hashable key
    then cancel_found key (find_task key c.active) c
    else crash (type_error "unhashable type") c

-- The frame's `op` is one of the three.
abbrev pub dispatch : String → Fields → Value → Connection → Step
dispatch ulid frame (str op) c =
    if op == "ping"
    then stays (encode_ws_pong ∷ []) c
    else if op == "ask"
    then ask ulid frame c
    else if op == "cancel"
    then cancel frame c
    else stays [] c
dispatch ulid frame op c = stays [] c

-- The text of a `WSFrameError`.
abbrev pub frame_error_of : Exn → Option String
frame_error_of (ws_frame_error text) = some text
frame_error_of _ = none

abbrev pub on_bad_frame : Exn → Option String → Connection → Step
on_bad_frame e none c = crash e c
on_bad_frame e (some text) c = stays (error_frame text ∷ []) c

abbrev pub on_frame : String → Outcome Fields → Connection → Step
on_frame ulid (ok frame) c = dispatch ulid frame (lookup_or "op" null frame) c
on_frame ulid (raised e) c = on_bad_frame e (frame_error_of e) c

-- The task's own id, once it has ended.
abbrev pub own_id_of : ℕ → List (ℕ × Value) → Option Value
own_id_of n [] = none
own_id_of n ((t, v) ∷ rest) = if nat_eq t n then some v else own_id_of n rest

abbrev pub without_task : ℕ → List (ℕ × Value) → List (ℕ × Value)
without_task n [] = []
without_task n ((t, v) ∷ rest) = if nat_eq t n then rest else (t, v) ∷ without_task n rest

-- The task's `finally`: its own id is removed.
abbrev pub end_task : ℕ → Option Value → Connection → Connection
end_task n none c = c
end_task n (some id) c = record c { active = remove id c.active; tasks = without_task n c.tasks }

-- One input; `ulid` is the next ULID.
unfoldable pub step : Formats → String → Input → Connection → Step
unfolding add remove decode_ws_frame
step f ulid (received raw) c = on_frame ulid (decode_ws_frame f raw) c
step f ulid timed_out c = record {
  sent = encode_ws_closed "heartbeat timeout" ∷ [];
  next = broke;
  connection = cancel_all c;
}
step f ulid disconnected c = record { sent = []; next = broke; connection = cancel_all c }
step f ulid (task_ended n) c = stays [] (end_task n (own_id_of n c.tasks) c)

-- A run over inputs, each with the ULID that it may use; what follows the end is not read.
abbrev pub followed : Step → List Value × (Next × Connection) → List Value × (Next × Connection)
followed s (later, final) = (s.sent ++ later, final)

abbrev pub by_next :
    Step → Next → List Value × (Next × Connection) → List Value × (Next × Connection)
by_next s goes_on rest = followed s rest
by_next s ending rest = (s.sent, (ending, s.connection))

unfoldable pub run : Formats → List (String × Input) → Connection → List Value × (Next × Connection)
unfolding step
run f [] c = ([], (goes_on, c))
run f ((ulid, input) ∷ inputs) c =
    let s = step f ulid input c in by_next s s.next (run f inputs s.connection)
