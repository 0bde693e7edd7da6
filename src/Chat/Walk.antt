-- ===== src/Chat/Walk.antt =====
-- What LangGraph documents of a run of a graph in which every node has one way on: from the start it
-- calls the nodes one after the other, merges what each returns into the state, and takes the edge
-- that leaves the node; it ends at the end, or when a node or a branch raises. The events that a node
-- dispatches are streamed in their order.
pub mod Places
pub mod Relay
pub mod Asked
pub mod Reject
pub mod Steps
pub mod Ahead
pub mod Answer
pub mod Broken
pub mod Report
use ocm_agent_v.Common.{
  if◌then◌else◌, Exn, value_error, key_error, is_exception, Outcome, ok, raised, ◌>>=◌, find_entry,
  ℕ, zero, suc, ◌<◌, String, ◌≡◌, Bool, true, false, Option, none, some, List, [], ◌∷◌, ◌++◌, ◌==◌,
}
use ocm_agent_v.Value.{Value}
use ocm_agent_v.Repo.Models.{Timestamp, Db}
use ocm_agent_v.Graph.State.{GraphState, merge}
use ocm_agent_v.Graph.Trace.{Effect, emit, sleep, attempt}
use ocm_agent_v.Graph.Nodes.{StreamEnd, finished, failed}
use ocm_agent_v.Chat.Flow.{Node, graph_start, graph_end, Edge, edge, conditional, StateGraph}
use ocm_agent_v.Chat.{StreamedEvent}

-- The edges that leave a node.
abbrev pub outgoing : String → List Edge → List Edge
outgoing x [] = []
outgoing x (edge a b ∷ es) = let rest = outgoing x es in if a == x then edge a b ∷ rest else rest
outgoing x (conditional a choose mapping ∷ es) =
    let rest = outgoing x es in if a == x then conditional a choose mapping ∷ rest else rest

abbrev pub target_of : Option String → Outcome String
target_of none = raised (key_error "label")
target_of (some y) = ok y

-- Where the only edge leads.
abbrev pub taken : GraphState → List Edge → Outcome String
taken s (edge a b ∷ []) = ok b
taken s (conditional a choose mapping ∷ []) = do
  label ← choose s
  target_of (find_entry label mapping)
taken s _ = raised (value_error "not one edge")

abbrev pub leads : StateGraph → String → GraphState → Outcome String
leads g x s = taken s (outgoing x g.edges)

-- A run from behind a node: the number of the nodes that it calls, the effects, how it ends, and the
-- database that it leaves.
pub data Walk (g : StateGraph) (now : Timestamp)
    : ℕ → String → GraphState → Db → List Effect → StreamEnd → Db → Type 0 where
  arrives :
      {x : String} {s : GraphState} {db : Db}
      → leads g x s ≡ ok graph_end
      → Walk g now zero x s db [] finished db
  visits :
      {n : ℕ} {x : String} {s : GraphState} {db : Db} {later : List Effect} {last : StreamEnd}
      {final : Db} (y : String) (node : Node) (es : List Effect) (u : GraphState) (after : Db)
      → leads g x s ≡ ok y
      → (y == graph_end) ≡ false
      → find_entry y g.nodes ≡ some node
      → node now s db ≡ ((es, ok u), after)
      → Walk g now n y (merge s u) after later last final
      → Walk g now (suc n) x s db (es ++ later) last final
  breaks :
      {x : String} {s : GraphState} {db : Db} {es : List Effect} {after : Db} (y : String)
      (node : Node) (e : Exn)
      → leads g x s ≡ ok y
      → (y == graph_end) ≡ false
      → find_entry y g.nodes ≡ some node
      → node now s db ≡ ((es, raised e), after)
      → is_exception e ≡ true
      → Walk g now (suc zero) x s db es failed after
  strays :
      {x : String} {s : GraphState} {db : Db} (e : Exn)
      → leads g x s ≡ raised e
      → is_exception e ≡ true
      → Walk g now zero x s db [] failed db

-- The custom events of a stream, and the events of a trace: names with their data.
abbrev pub customs : List StreamedEvent → List (String × Value)
customs [] = []
customs (ev ∷ evs) =
    let rest = customs evs in
    if ev.event == "on_custom_event" then (ev.name, ev.payload) ∷ rest else rest

abbrev pub dispatched : List Effect → List (String × Value)
dispatched [] = []
dispatched (emit name v ∷ es) = (name, v) ∷ dispatched es
dispatched (sleep ms ∷ es) = dispatched es
dispatched (attempt n ∷ es) = dispatched es

-- LangGraph runs the walks that are shorter than its default limit of 25 steps.
abbrev pub FollowsWalks :
    {Graph : Type 0}
    → (StateGraph → Outcome Graph)
    → (Graph → Timestamp → GraphState → Db → (List StreamedEvent × StreamEnd) × Db)
    → Type 0
FollowsWalks {Graph} compile astream_events =
    (g : StateGraph) (graph : Graph) (now : Timestamp) (s : GraphState) (db : Db) (n : ℕ)
    (es : List Effect) (last : StreamEnd) (final : Db)
    → compile g ≡ ok graph
    → n < 25
    → Walk g now n graph_start s db es last final
    → let r = astream_events graph now s db in
      (customs r.0.0 ≡ dispatched es) × (r.0.1 ≡ last) × (r.1 ≡ final)
