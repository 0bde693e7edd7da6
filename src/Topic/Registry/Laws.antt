-- ===== src/Topic/Registry/Laws.antt =====
-- What the registry of topics answers after a registration.
use ocm_agent_v.Common.{
  if◌then◌else◌, Bool-cases, topic_conflict, topic_not_found, ok, raised, find_entry,
  find_entry-append, entry_cases, String, ◌≡◌, refl, ◌⊎◌, inl, inr, none, List, [], ◌∷◌, ◌++◌, ◌==◌,
}
use ocm_agent_v.Topic.Registry.{register, get}

get-append {ℓ} :
    {A : Type ℓ} (id k : String) (a : A) (d : List (String × A))
    → find_entry id d ≡ none
    → get k (d ++ (id, a) ∷ []) ≡ (if id == k then ok a else get k d)
unfolding get
get-append id k a d h = elim (Bool-cases (id == k)) [
  | inl f ↦ rw (get, find_entry-append k id a d h, f) refl
  | inr f ↦ rw (get, find_entry-append k id a d h, f) refl
]

-- Either the id is new: then the topic is registered, the id gives it, and every other id gives
-- what it gave before. Or the id has a topic: then nothing is registered, and the call raises.
pub register-get :
    {A : Type 0} (id k : String) (topic : A) (topics : List (String × A))
    → ((get id topics ≡ raised (topic_not_found id))
        × ((topics' : List (String × A)) × (register id topic topics ≡ ok topics')
            × (get k topics' ≡ (if id == k then ok topic else get k topics))))
      ⊎ ((found : A) × (get id topics ≡ ok found)
          × (register id topic topics ≡ raised (topic_conflict id)))
unfolding register get
register-get id k topic topics = elim (entry_cases (find_entry id topics)) [
  | inl e ↦ inl (
    rw (get, e) refl,
    (topics ++ (id, topic) ∷ [], rw (register, e) refl, get-append id k topic topics e),
  )
  | inr (found, e) ↦ inr (found, rw (get, e) refl, rw (register, e) refl)
]
