-- ===== src/Graph/Builtins.antt =====
-- src/ma/core/graph/builtins.py: the nodes that are no plugins.
pub mod History
pub mod Answer
pub mod Memory
use ocm_agent_v.Common.{
  nat_eq, if◌then◌else◌, length, drop, key_error, type_error, Outcome, ok, raised, ℕ, ◌-◌, ◌*◌,
  String, ◌<>◌, Bool, true, false, ◌&&◌, ◌||◌, Option, none, some, List, [], ◌∷◌, reverse, ◌==◌,
}
use ocm_agent_v.Value.{end, Value, str, dict}
use ocm_agent_v.Repo.Models.{Timestamp, Message, Db}
use ocm_agent_v.Repo.Sessions.{Action, get_or_create, touch}
use ocm_agent_v.Repo.Messages.{append, list_recent}
use ocm_agent_v.Graph.State.{AuthResult, GraphState, no_update}
use ocm_agent_v.Graph.Trace.{Run, pure, emitted, ◌>>◌}

-- `state[key]`
abbrev pub require {ℓ} : {A : Type ℓ} → String → Option A → Outcome A
require key none = raised (key_error key)
require key (some a) = ok a

abbrev pub is_turn : Message → Message → Bool
is_turn user_msg assistant_msg =
    user_msg.role == "user"
    && (user_msg.status == "complete"
        && (assistant_msg.role == "assistant" && assistant_msg.status == "complete"))

-- The `while` loop over the messages, oldest first: a pair that is a turn is taken whole, and
-- otherwise one message is skipped.
unfoldable pub pair_turns : List Message → List (Message × Message)
pair_turns [] = []
pair_turns (m ∷ []) = []
pair_turns (m ∷ n ∷ rest) =
    let taken = pair_turns rest in
    let skipped = pair_turns (n ∷ rest) in if is_turn m n then (m, n) ∷ taken else skipped

-- `xs[-n:]`; `xs[-0:]` is the whole list.
abbrev pub last_of {ℓ} : {A : Type ℓ} → ℕ → List A → List A
last_of n xs = if nat_eq n 0 then xs else drop (length xs - n) xs

-- `history.extend((user_msg, assistant_msg))` for each turn
abbrev pub flatten_turns : List (Message × Message) → List Message
flatten_turns [] = []
flatten_turns ((u, a) ∷ turns) = u ∷ a ∷ flatten_turns turns

unfoldable pub build_history : ℕ → List Message → List Message
unfolding pair_turns
build_history max_turns recent = flatten_turns (last_of max_turns (pair_turns (reverse recent)))

-- Actions on the database in sequence; what was written before an exception stays written.
abbrev pub bind : {A B : Type 0} → Outcome A × Db → (A → Action B) → Outcome B × Db
bind (ok a, db) f = f a db
bind (raised e, db) f = (raised e, db)

unfoldable pub load_session_node : ℕ → Timestamp → GraphState → Action GraphState
unfolding build_history
load_session_node max_turns now state db =
    bind (require "identity" state.identity, db)
      λ identity db.
        bind (require "thread_id" state.thread_id, db)
          λ thread db.
            bind (require "biz_id" state.biz_id, db)
              λ biz db. bind (get_or_create now thread biz identity.w3_account none db) λ _ db. (
                ok (record no_update {
                  history = some (build_history max_turns (list_recent thread (max_turns * 4) db));
                }),
                db,
              )

-- `error_messages.get(code, error_messages.get("INTERNAL", "服务异常"))`
abbrev text_get : String → List (String × String) → Option String
text_get k [] = none
text_get k ((j, v) ∷ d) = if j == k then some v else text_get k d

abbrev pub text_or : Option String → String → String
text_or none default = default
text_or (some s) default = s

abbrev pub fallback_text : List (String × String) → String → String
fallback_text messages code =
    text_or (text_get code messages) (text_or (text_get "INTERNAL" messages) "服务异常")

-- `x or default` of a text that may be `None`
abbrev pub non_empty : Option String → String → String
non_empty none default = default
non_empty (some s) default = if s == "" then default else s

abbrev reject_code_of : Option AuthResult → String
reject_code_of none = "INTERNAL"
reject_code_of (some auth) = non_empty auth.reject_code "INTERNAL"

abbrev reject_message_of : Option AuthResult → Option String
reject_message_of none = none
reject_message_of (some auth) = auth.reject_message

abbrev pub reject_text : List (String × String) → Option AuthResult → String
reject_text messages auth =
    non_empty (reject_message_of auth) (fallback_text messages (reject_code_of auth))

unfoldable pub reject_node : List (String × String) → GraphState → Run GraphState
reject_node messages state = do
  emitted "delta" (dict (("content", str (reject_text messages state.auth)) ∷ []))
  pure (record no_update { answer_chunks = some (str (reject_text messages state.auth) ∷ []) })

-- `"".join(chunks)`, which raises on a chunk that is no text
unfoldable pub join : List Value → Outcome String
join [] = ok ""
join (str s ∷ rest) = elim (join rest) [ ok t ↦ ok (s <> t) | raised e ↦ raised e ]
join (_ ∷ rest) = raised (type_error "sequence item: expected str instance")

abbrev pub chunks_of : Option (List Value) → List Value
chunks_of none = []
chunks_of (some chunks) = chunks

abbrev pub is_true : Option Bool → Bool
is_true none = false
is_true (some b) = b

abbrev pub is_nil {ℓ} : {A : Type ℓ} → List A → Bool
is_nil [] = true
is_nil (x ∷ xs) = false

abbrev pub answer_status : GraphState → String
answer_status state =
    if is_true state.stream_cancelled || is_nil (chunks_of state.answer_chunks)
    then "partial"
    else "complete"

-- The message that `persist` appends; `seq` 0 asks for the next number.
abbrev pub answer_message : GraphState → String → String → String → Message
answer_message state id thread content = record {
  message_id = id;
  thread_id = thread;
  seq = 0;
  role = "assistant";
  content = content;
  content_meta = end;
  status = answer_status state;
  route = state.route;
  request_id = state.request_id;
  created_at = none;
  ext = end;
}

abbrev pub persist_steps :
    Timestamp → GraphState → List Value → Option String → Option String → Action GraphState
persist_steps now state chunks message_id thread_id db =
    bind (join chunks, db)
      λ content db.
        bind (require "assistant_message_id" message_id, db)
          λ id db.
            bind (require "thread_id" thread_id, db)
              λ thread db.
                bind (append now (answer_message state id thread content) db)
                  λ _ db. (ok no_update, touch now thread db)

unfoldable pub persist_node : Timestamp → GraphState → Action GraphState
unfolding join
persist_node now state =
    persist_steps now state (chunks_of state.answer_chunks) state.assistant_message_id
      state.thread_id
