-- ===== src/Plugin/Registry/Laws.antt =====
-- The registry finds what was registered, once.
use ocm_agent_v.Value.{Fields, str}
use ocm_agent_v.Common.{
  if◌then◌else◌, Bool-cases, plugin_conflict, Outcome, ok, raised, ok-injective, String, ◌≡◌, refl,
  sym, inl, inr, ◌&&◌, Option, none, some, [], ◌∷◌, ◌++◌, arith, ◌==◌, eq_iff, eq_refl,
}
use ocm_agent_v.Plugin.Registry.{Registry, find_class, register, create}

module _ {ℓ} {Class : Type ℓ} where
  find_class-append :
      (kind name k n : String) (c : Class) (registry : Registry Class)
      → find_class k n registry ≡ none
      → find_class kind name (registry ++ (k, n, c) ∷ [])
        ≡ (if k == kind && n == name then some c else find_class kind name registry)
  find_class-append kind name k n c [] h = refl
  find_class-append kind name k n c ((k', n', c') ∷ registry) h = ground (
    arith,
    find_class-append kind name k n c registry,
    eq_iff k' k,
    eq_iff n' n,
    eq_iff k kind,
    eq_iff n name,
    eq_iff k' kind,
    eq_iff n' name,
  )

  registered :
      (k n : String) (c : Class) (registry registry' : Registry Class)
      → register (some (str k)) (some (str n)) c registry ≡ ok registry'
      → (find_class k n registry ≡ none) × (registry' ≡ registry ++ (k, n, c) ∷ [])
  unfolding register
  registered k n c registry registry' h = by_class (find_class k n registry) refl
    where
      by_class :
          (o : Option Class)
          → find_class k n registry ≡ o
          → (find_class k n registry ≡ none) × (registry' ≡ registry ++ (k, n, c) ∷ [])
      by_class none e = (e, sym (ok-injective (rw e at h)))
      by_class (some c') e =
          let stuck : raised (plugin_conflict k n) ≡ ok registry' = rw e at h in absurd (cc stuck)

  -- After a registration that succeeded, `create` builds the new class for its kind and name and does
  -- what it did before for any other, and a second registration of the same kind and name conflicts.
  pub register-create :
      (Instance : Type 0) (build : Class → Fields → Outcome Instance) (k n kind name : String)
      (c c' : Class) (params : Fields) (registry registry' : Registry Class)
      → register (some (str k)) (some (str n)) c registry ≡ ok registry'
      → (create build kind name params registry' ≡ (
          if k == kind && n == name
          then build c params
          else create build kind name params registry))
        × (register (some (str k)) (some (str n)) c' registry' ≡ raised (plugin_conflict k n))
  unfolding create register
  register-create Instance build k n kind name c c' params registry registry' h =
      let (fresh, grown) = registered k n c registry registry' h in
      let found = find_class-append kind name k n c registry fresh in
      let again = find_class-append k n k n c registry fresh in
      rw grown (
        elim (Bool-cases (k == kind && n == name)) [
          | inl e ↦ rw (found, e) refl
          | inr e ↦ rw (found, e) refl
        ],
        rw (again, eq_refl k, eq_refl n) refl,
      )
