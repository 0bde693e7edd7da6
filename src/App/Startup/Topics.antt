-- ===== src/App/Startup/Topics.antt =====
-- The loop over the files of the topics: what the registry holds after it.
use ocm_agent_v.Common.{
  All, Outcome, ok, ◌>>=◌, >>=-eq-ok, find_entry, find_entry-append, String, ◌≡◌, refl, ◌≢◌, inl,
  inr, none, List, [], ◌∷◌, ◌++◌, append_assoc, append-nil, arith, eq_iff, eq_refl,
}
use ocm_agent_v.Value.{Fields}
use ocm_agent_v.Topic.Config.{TopicConfig}
use ocm_agent_v.Topic.Registry.{register, get}
use ocm_agent_v.Topic.Registry.Laws.{register-get}
use ocm_agent_v.Chat.Flow.{CompiledTopic}
use ocm_agent_v.Chat.Compiler.{Methods}
use ocm_agent_v.App.{PluginClass, Plugins, compile_document, load_topics}

-- A registration that succeeds gives the topic, and leaves what was found.
register-finds :
    (topic : CompiledTopic) (topics topics' : List (String × CompiledTopic))
    → register topic.topic_id topic topics ≡ ok topics'
    → get topic.topic_id topics' ≡ ok topic
register-finds topic topics topics' h =
    elim (register-get topic.topic_id topic.topic_id topic topics) [
      | inl (free, (after, e, found)) ↦ ground (arith, eq_refl topic.topic_id)
      | inr (old, e, failure) ↦ absurd cc
    ]

register-keeps :
    (id k : String) (topic t : CompiledTopic) (topics topics' : List (String × CompiledTopic))
    → register id topic topics ≡ ok topics'
    → get k topics ≡ ok t
    → get k topics' ≡ ok t
register-keeps id k topic t topics topics' h g = elim (register-get id k topic topics) [
  | inl (free, (after, e, found)) ↦ ground (arith, eq_iff id k)
  | inr (old, e, failure) ↦ absurd cc
]

-- No two topics have the same id.
abbrev pub HasDistinctIds : List CompiledTopic → Type 0
HasDistinctIds [] = Unit
HasDistinctIds (t ∷ ts) =
    All (λ (u : CompiledTopic). t.topic_id ≢ u.topic_id) ts × HasDistinctIds ts

-- The topics by their ids.
abbrev pub by_id : List CompiledTopic → List (String × CompiledTopic)
by_id [] = []
by_id (t ∷ ts) = (t.topic_id, t) ∷ by_id ts

-- What has no entry still has none after another one is added.
still_new :
    (t : CompiledTopic) (topics : List (String × CompiledTopic)) (ts : List CompiledTopic)
    → find_entry t.topic_id topics ≡ none
    → All (λ (u : CompiledTopic). t.topic_id ≢ u.topic_id) ts
    → All (λ (u : CompiledTopic). find_entry u.topic_id topics ≡ none) ts
    → All (λ (u : CompiledTopic). find_entry u.topic_id (topics ++ (t.topic_id, t) ∷ []) ≡ none) ts
still_new t topics [] h differ new = tt
still_new t topics (u ∷ ts) h (d, differ) (n, new) = (
  ground (arith, find_entry-append u.topic_id t.topic_id t topics h, eq_iff t.topic_id u.topic_id),
  still_new t topics ts h differ new,
)

module _ {Document Instance : Type 0} (parse : Document → Outcome TopicConfig)
    (methods : Methods Instance) (build : PluginClass → Fields → Outcome Instance)
    (env : List (String × String)) (plugins : Plugins) where
  -- The topic of a file is found by its id.
  abbrev pub IsServed : List (String × CompiledTopic) → Document → Type 0
  IsServed topics doc =
      (topic : CompiledTopic) × (compile_document parse methods build env plugins doc ≡ ok topic)
      × (get topic.topic_id topics ≡ ok topic)

  -- A loop that returned got through its first file.
  load_topics-cons :
      (doc : Document) (docs : List Document) (topics topics' : List (String × CompiledTopic))
      → load_topics parse methods build env plugins (doc ∷ docs) topics ≡ ok topics'
      → (topic : CompiledTopic) × (compile_document parse methods build env plugins doc ≡ ok topic)
        × ((next : List (String × CompiledTopic)) × (register topic.topic_id topic topics ≡ ok next)
            × (load_topics parse methods build env plugins docs next ≡ ok topics'))
  unfolding load_topics
  load_topics-cons doc docs topics topics' h =
      let (topic, e, h1) =
        >>=-eq-ok (compile_document parse methods build env plugins doc)
          (λ topic. register topic.topic_id topic topics >>= λ next.
            load_topics parse methods build env plugins docs next)
          h in
      (
        topic,
        e,
        >>=-eq-ok (register topic.topic_id topic topics)
            (λ next. load_topics parse methods build env plugins docs next) h1,
      )

  load_topics-keeps :
      (docs : List Document) (k : String) (t : CompiledTopic)
      (topics topics' : List (String × CompiledTopic))
      → load_topics parse methods build env plugins docs topics ≡ ok topics'
      → get k topics ≡ ok t
      → get k topics' ≡ ok t
  load_topics-keeps [] k t topics topics' h g = unfold load_topics in cc
  load_topics-keeps (doc ∷ docs) k t topics topics' h g =
      let (topic, e, (next, r, rest)) = load_topics-cons doc docs topics topics' h in
      load_topics-keeps docs k t next topics' rest
        (register-keeps topic.topic_id k topic t topics next r g)

  pub load_topics_serves :
      (docs : List Document) (topics topics' : List (String × CompiledTopic))
      → load_topics parse methods build env plugins docs topics ≡ ok topics'
      → All (IsServed topics') docs
  load_topics_serves [] topics topics' h = tt
  load_topics_serves (doc ∷ docs) topics topics' h =
      let (topic, e, (next, r, rest)) = load_topics-cons doc docs topics topics' h in
      (
        (
          topic,
          e,
          load_topics-keeps docs topic.topic_id topic next topics' rest
              (register-finds topic topics next r),
        ),
        load_topics_serves docs next topics' rest,
      )

  -- The files give these topics, one by one.
  abbrev pub CompileTo : List Document → List CompiledTopic → Type 0
  CompileTo [] [] = Unit
  CompileTo (doc ∷ docs) (t ∷ ts) =
      (compile_document parse methods build env plugins doc ≡ ok t) × CompileTo docs ts
  CompileTo _ _ = ⊥

  -- Topics with new and distinct ids are all registered, in their order.
  pub load_topics_registers :
      (docs : List Document) (loaded : List CompiledTopic) (topics : List (String × CompiledTopic))
      → CompileTo docs loaded
      → All (λ (u : CompiledTopic). find_entry u.topic_id topics ≡ none) loaded
      → HasDistinctIds loaded
      → load_topics parse methods build env plugins docs topics ≡ ok (topics ++ by_id loaded)
  unfolding load_topics
  load_topics_registers [] [] topics h new distinct = rw append-nil refl
  load_topics_registers [] (t ∷ ts) topics h new distinct = absurd h
  load_topics_registers (doc ∷ docs) [] topics h new distinct = absurd h
  load_topics_registers (doc ∷ docs) (t ∷ ts) topics (e, h) (n, new) (differ, distinct) =
      let registered : register t.topic_id t topics ≡ ok (topics ++ (t.topic_id, t) ∷ []) =
        unfold register in rw (register, n) refl in
      let rest =
        load_topics_registers docs ts (topics ++ (t.topic_id, t) ∷ []) h
          (still_new t topics ts n differ new) distinct in
      rw (load_topics, e, registered, rest, append_assoc) refl
