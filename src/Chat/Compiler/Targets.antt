-- ===== src/Chat/Compiler/Targets.antt =====
-- The graph of a topic that was validated and compiled leads to adapters only.
use ocm_agent_v.Graph.State.{GraphState}
use ocm_agent_v.Graph.Nodes.{Stream}
use ocm_agent_v.Topic.Config.Consistency.{TargetsExist, EdgesExist, validate_consistency_iff}
use ocm_agent_v.Chat.Flow.{CompiledTopic, first_mapping}
use ocm_agent_v.Common.{
  Bool-cases, All, Outcome, ok, ok-injective, >>=-eq-ok, find_entry, put, is_entry, find_entry-put,
  ℕ, String, ◌≡◌, refl, sym, ap, ◌∙◌, subst, inl, inr, Bool, true, ◌||◌, List, [], ◌∷◌, arith, ◌==◌,
  eq_iff,
}
use ocm_agent_v.Value.{Fields}
use ocm_agent_v.Plugin.Registry.{Registry, create}
use ocm_agent_v.Plugin.Auth.{mem_text}
use ocm_agent_v.Topic.Config.{
  GraphNode, ConditionalEdge, TopicConfig, node_ids, is_cons, validate_consistency,
}
use ocm_agent_v.Topic.Environment.{resolve_fields}
use ocm_agent_v.Chat.Compiler.{compile_schema, Methods, adapters_of, with_runs, compile}

first_exists :
    (es : List ConditionalEdge) (ids : List String)
    → is_cons es ≡ true
    → EdgesExist ids es
    → (mapping : List (String × String)) × (first_mapping es ≡ ok mapping)
      × TargetsExist ids mapping
first_exists [] ids some_edge h = cc
first_exists (e ∷ es) ids some_edge (h, later) = (e.mapping, refl, h)

module _ {Class Instance : Type 0} (methods : Methods Instance)
    (build : Class → Fields → Outcome Instance) (registry : Registry Class) where
  find_entry-with_runs :
      (k : String) (d : List (String × Instance))
      → is_entry (find_entry k (with_runs methods build registry d)) ≡ is_entry (find_entry k d)
  find_entry-with_runs k [] = refl
  find_entry-with_runs k ((j, a) ∷ d) = elim (Bool-cases (j == k)) [
    | inl e ↦ rw e refl
    | inr e ↦ rw e (find_entry-with_runs k d)
  ]

  adapters_of-entry :
      (env : List (String × String)) (k : String) (ns : List GraphNode)
      (d made : List (String × Instance))
      → adapters_of methods build registry env ns d ≡ ok made
      → (is_entry (find_entry k d) || mem_text k (node_ids ns)) ≡ true
      → is_entry (find_entry k made) ≡ true
  unfolding adapters_of
  adapters_of-entry env k [] d made h there =
      subst (λ l. is_entry (find_entry k l) ≡ true) (ok-injective h) (ground arith)
  adapters_of-entry env k (n ∷ ns) d made h there =
      let (params, _, h1) = >>=-eq-ok (resolve_fields env n.params) _ h in
      let (adapter, _, h2) = >>=-eq-ok (create build "adapter" n.adapter params registry) _ h1 in
      adapters_of-entry env k ns (put n.id adapter d) made h2
        (rw find_entry-put (ground (arith, eq_iff n.id k, eq_iff k n.id)))

  targets_found :
      (ids : List String) (d : List (String × String))
      (adapters : List (String × (GraphState → Bool → ℕ → Stream)))
      → ((k : String) → mem_text k ids ≡ true → is_entry (find_entry k adapters) ≡ true)
      → TargetsExist ids d
      → All (λ (t : String × String). is_entry (find_entry t.1 adapters) ≡ true) d
  targets_found ids [] adapters found h = tt
  targets_found ids (t ∷ d) adapters found (e, h) =
      (found t.1 e, targets_found ids d adapters found h)

  compile-adapters :
      (env : List (String × String)) (cfg : TopicConfig) (topic : CompiledTopic) (k : String)
      → compile methods build registry env cfg ≡ ok topic
      → (topic.config ≡ cfg)
        × (mem_text k (node_ids cfg.nodes) ≡ true → is_entry (find_entry k topic.adapters) ≡ true)
  unfolding compile
  compile-adapters env cfg topic k h =
      let (_, _, h1) = >>=-eq-ok (resolve_fields env cfg.auth.params) _ h in
      let (_, _, h2) = >>=-eq-ok (resolve_fields env cfg.enrich.params) _ h1 in
      let (_, _, h3) = >>=-eq-ok (resolve_fields env cfg.intent.params) _ h2 in
      let (_, _, h4) = >>=-eq-ok (create build "auth" cfg.auth.plugin _ registry) _ h3 in
      let (_, _, h5) = >>=-eq-ok (create build "enrich" cfg.enrich.plugin _ registry) _ h4 in
      let (_, _, h6) = >>=-eq-ok (create build "intent" cfg.intent.plugin _ registry) _ h5 in
      let (made, how, h7) = >>=-eq-ok (adapters_of methods build registry env cfg.nodes []) _ h6 in
      let (_, _, h8) = >>=-eq-ok (compile_schema cfg.biz_params_schema) _ h7 in
      let same = ok-injective h8 in
      (
        ap (λ (t : CompiledTopic). t.config) (sym same),
        λ there.
            ap (λ (t : CompiledTopic). is_entry (find_entry k t.adapters)) (sym same)
            ∙ find_entry-with_runs k made
            ∙ adapters_of-entry env k cfg.nodes [] made how there,
      )

  -- Of a configuration that the validator accepts, and that was compiled, the branch behind the
  -- intent node has a mapping, and each of its labels leads to the node of an adapter.
  pub compile-targets :
      (env : List (String × String)) (cfg : TopicConfig) (topic : CompiledTopic)
      → validate_consistency cfg ≡ ok tt
      → compile methods build registry env cfg ≡ ok topic
      → (mapping : List (String × String)) × (first_mapping topic.config.edges ≡ ok mapping)
        × All (λ (t : String × String). is_entry (find_entry t.1 topic.adapters) ≡ true) mapping
  compile-targets env cfg topic valid h =
      let consistent = (validate_consistency_iff cfg).0 valid in
      let (mapping, first, exist) =
        first_exists cfg.edges (node_ids cfg.nodes) consistent.has_edge consistent.targets in
      (
        mapping,
        ap (λ (c : TopicConfig). first_mapping c.edges) (compile-adapters env cfg topic "" h).0
            ∙ first,
        targets_found (node_ids cfg.nodes) mapping topic.adapters
            (λ k. (compile-adapters env cfg topic k h).1) exist,
      )
