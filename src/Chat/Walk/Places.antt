-- ===== src/Chat/Walk/Places.antt =====
-- Where the edges of a topic's graph lead, and which nodes stand there.
use ocm_agent_v.Common.{
  if◌then◌else◌, Bool-cases, All, is_entry, find_entry, ok, ℕ, String, ◌≡◌, refl, sym, ap, ◌∙◌,
  subst, inl, inr, Bool, true, false, none, some, List, [], ◌∷◌, ◌++◌, ◌==◌, eq_iff,
}
use ocm_agent_v.Plugin.Formats.{Formats}
use ocm_agent_v.Graph.State.{AuthResult, GraphState}
use ocm_agent_v.Graph.Builtins.{persist_node}
use ocm_agent_v.Graph.Nodes.{RetryPolicy, contains, Stream, adapter_node}
use ocm_agent_v.Chat.Flow.{
  CompiledTopic, Node, StateGraph, Edge, edge, conditional, graph_start, graph_end, pure_node,
  db_node, adapter_nodes, adapter_edges, described,
}
use ocm_agent_v.Chat.Walk.{outgoing, target_of, leads}

abbrev pub Adapters : Type 0
Adapters = List (String × (GraphState → Bool → ℕ → Stream))

-- The keys of a dict.
abbrev pub HasDistinctKeys {ℓ} : {A : Type ℓ} → List (String × A) → Type ℓ
HasDistinctKeys [] = Unit
HasDistinctKeys ((k, a) ∷ d) = (find_entry k d ≡ none) × HasDistinctKeys d

-- The names of the nodes that are no adapters, which LangGraph gives to no second node, and those of
-- the start and the end.
abbrev pub reserved : List String
reserved =
    "load_session" ∷ "auth_node" ∷ "reject_node" ∷ "enrich_node" ∷ "intent_node" ∷ "persist_node"
    ∷ "__start__" ∷ "__end__" ∷ []

-- The names of a topic's adapters are names for new nodes.
abbrev pub HasOwnNames : Adapters → Type 0
HasOwnNames adapters =
    All (λ name. find_entry name adapters ≡ none) reserved × HasDistinctKeys adapters

outgoing-append :
    (x : String) (es fs : List Edge) → outgoing x (es ++ fs) ≡ outgoing x es ++ outgoing x fs
outgoing-append x [] fs = refl
outgoing-append x (edge a b ∷ es) fs = elim (Bool-cases (a == x)) [
  | inl e ↦ rw e (ap (λ l. edge a b ∷ l) (outgoing-append x es fs))
  | inr e ↦ rw e (outgoing-append x es fs)
]
outgoing-append x (conditional a c m ∷ es) fs = elim (Bool-cases (a == x)) [
  | inl e ↦ rw e (ap (λ l. conditional a c m ∷ l) (outgoing-append x es fs))
  | inr e ↦ rw e (outgoing-append x es fs)
]

outgoing-other :
    (x : String) (adapters : Adapters)
    → find_entry x adapters ≡ none
    → outgoing x (adapter_edges adapters) ≡ []
outgoing-other x [] h = refl
outgoing-other x ((k, run) ∷ d) h = elim (Bool-cases (k == x)) [
  | inl e ↦ absurd (cc (rw e at h))
  | inr e ↦ rw e (outgoing-other x d (rw e at h))
]

outgoing-adapter :
    (x : String) (adapters : Adapters)
    → is_entry (find_entry x adapters) ≡ true
    → HasDistinctKeys adapters
    → outgoing x (adapter_edges adapters) ≡ edge x "persist_node" ∷ []
outgoing-adapter x [] h distinct = cc
outgoing-adapter x ((k, run) ∷ d) h (new, distinct) = elim (Bool-cases (k == x)) [
  | inl e ↦
      let same : k ≡ x = (eq_iff k x).0 e in
      rw (e, outgoing-other x d (subst (λ n. find_entry n d ≡ none) same new))
        (ap (λ n. edge n "persist_node" ∷ []) same)
  | inr e ↦ rw e (outgoing-adapter x d (rw e at h) distinct)
]

find-adapter_nodes :
    (f : Formats) (retries : List (String × RetryPolicy)) (x : String) (adapters : Adapters)
    (rest : List (String × Node))
    → find_entry x adapters ≡ none
    → find_entry x (adapter_nodes f retries adapters ++ rest) ≡ find_entry x rest
find-adapter_nodes f retries x [] rest h = refl
find-adapter_nodes f retries x ((k, run) ∷ d) rest h = elim (Bool-cases (k == x)) [
  | inl e ↦ absurd (cc (rw e at h))
  | inr e ↦ rw e (find-adapter_nodes f retries x d rest (rw e at h))
]

find-adapter_node :
    (f : Formats) (retries : List (String × RetryPolicy)) (x : String) (adapters : Adapters)
    (rest : List (String × Node)) (run : GraphState → Bool → ℕ → Stream)
    → find_entry x adapters ≡ some run
    → find_entry x (adapter_nodes f retries adapters ++ rest)
      ≡ some (pure_node (adapter_node f run true (find_entry x retries)))
find-adapter_node f retries x [] rest run h = cc
find-adapter_node f retries x ((k, r) ∷ d) rest run h = elim (Bool-cases (k == x)) [
  | inl e ↦
      let same : k ≡ x = (eq_iff k x).0 e in
      let its : r ≡ run = cc (rw e at h) in
      rw e
        (rw its (ap (λ n. some (pure_node (adapter_node f run true (find_entry n retries)))) same))
  | inr e ↦ rw e (find-adapter_node f retries x d rest run (rw e at h))
]

-- A name that an adapter has is not one that no adapter has.
apart :
    (a x : String) (adapters : Adapters)
    → find_entry a adapters ≡ none
    → is_entry (find_entry x adapters) ≡ true
    → (a == x) ≡ false
apart a x adapters h g = elim (Bool-cases (a == x)) [
  | inr e ↦ e
  | inl e ↦
      let missing : find_entry x adapters ≡ none =
        subst (λ n. find_entry n adapters ≡ none) ((eq_iff a x).0 e) h in
      absurd (cc (rw missing at g))
]

module _ (f : Formats) (topic : CompiledTopic) (mapping : List (String × String))
    (own : HasOwnNames topic.adapters) where
  abbrev its_graph : StateGraph
  its_graph = described f topic mapping

  unnamed :
      (x : String) (names : List String)
      → contains x names ≡ true
      → All (λ name. find_entry name topic.adapters ≡ none) names
      → find_entry x topic.adapters ≡ none
  unnamed x [] h free = cc
  unnamed x (name ∷ names) h (first, free) = elim (Bool-cases (x == name)) [
    | inl e ↦ subst (λ n. find_entry n topic.adapters ≡ none) (sym ((eq_iff x name).0 e)) first
    | inr e ↦ unnamed x names (rw e at h) free
  ]

  -- The edges of a node that is no adapter, without those of the adapters.
  edges_rest :
      (x : String)
      → contains x reserved ≡ true
      → (fs : List Edge) → outgoing x (adapter_edges topic.adapters ++ fs) ≡ outgoing x fs
  edges_rest x h fs =
      outgoing-append x (adapter_edges topic.adapters) fs
      ∙ ap (λ l. l ++ outgoing x fs) (outgoing-other x topic.adapters (unnamed x reserved h own.0))

  pub start_leads : (s : GraphState) → leads its_graph graph_start s ≡ ok "load_session"
  start_leads s = rw (edges_rest graph_start refl) refl

  pub load_leads : (s : GraphState) → leads its_graph "load_session" s ≡ ok "auth_node"
  load_leads s = rw (edges_rest "load_session" refl) refl

  pub auth_leads :
      (s : GraphState) (a : AuthResult)
      → s.auth ≡ some a
      → leads its_graph "auth_node" s ≡ ok (if a.passed then "enrich_node" else "reject_node")
  auth_leads s a h = elim (Bool-cases a.passed) [
    | inl e ↦ rw (edges_rest "auth_node" refl, h, e) refl
    | inr e ↦ rw (edges_rest "auth_node" refl, h, e) refl
  ]

  pub reject_leads : (s : GraphState) → leads its_graph "reject_node" s ≡ ok "persist_node"
  reject_leads s = rw (edges_rest "reject_node" refl) refl

  pub enrich_leads : (s : GraphState) → leads its_graph "enrich_node" s ≡ ok "intent_node"
  enrich_leads s = rw (edges_rest "enrich_node" refl) refl

  pub intent_leads :
      (s : GraphState) (route : String)
      → s.route ≡ some route
      → leads its_graph "intent_node" s ≡ target_of (find_entry route mapping)
  intent_leads s route h = rw (edges_rest "intent_node" refl, h) refl

  pub persist_leads : (s : GraphState) → leads its_graph "persist_node" s ≡ ok graph_end
  persist_leads s = rw (edges_rest "persist_node" refl) refl

  module _ (x : String) (run : GraphState → Bool → ℕ → Stream)
      (found : find_entry x topic.adapters ≡ some run) where
    pub differs : (name : String) → contains name reserved ≡ true → (name == x) ≡ false
    differs name h = apart name x topic.adapters (unnamed name reserved h own.0) (rw found refl)

    pub adapter_leads : (s : GraphState) → leads its_graph x s ≡ ok "persist_node"
    adapter_leads s =
        rw
          (
            differs graph_start refl,
            differs "load_session" refl,
            differs "auth_node" refl,
            differs "enrich_node" refl,
            differs "intent_node" refl,
            outgoing-append x (adapter_edges topic.adapters),
            outgoing-adapter x topic.adapters (rw found refl) own.1,
            differs "reject_node" refl,
            differs "persist_node" refl,
          )
          refl

    pub adapter_stands :
        find_entry x its_graph.nodes
        ≡ some (pure_node (adapter_node f run true (find_entry x topic.adapter_retries)))
    adapter_stands =
        rw
          (
            differs "load_session" refl,
            differs "auth_node" refl,
            differs "reject_node" refl,
            differs "enrich_node" refl,
            differs "intent_node" refl,
          )
          (find-adapter_node f topic.adapter_retries x topic.adapters _ run found)

  pub persist_stands : find_entry "persist_node" its_graph.nodes ≡ some (db_node persist_node)
  persist_stands =
      find-adapter_nodes f topic.adapter_retries "persist_node" topic.adapters _
        (unnamed "persist_node" reserved refl own.0)
