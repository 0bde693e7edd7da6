-- ===== src/Topic/Config/Consistency.antt =====
-- When a topic's configuration is accepted.
use ocm_agent_v.Common.{
  Bool-cases, All, Outcome, ok, raised, ok-injective, >>=-eq-ok, String, ◌≡◌, refl, sym, ap, ◌∙◌,
  ◌↔◌, ◌⊎◌, inl, inr, Bool, true, false, ◌||◌, Option, none, some, List, [], ◌∷◌, ◌++◌, arith, ◌==◌,
  eq_iff, eq_refl,
}
use ocm_agent_v.Value.{null, lookup_or}
use ocm_agent_v.Plugin.Auth.{mem_text}
use ocm_agent_v.Topic.Config.{
  ConditionalEdge, TopicConfig, required_error_codes, keys, has_all, node_ids, targets_exist,
  mapping_keys, check, is_cons, label_set, same_set, checks, validate_consistency,
}

abbrev pub all_labels : List ConditionalEdge → List String
all_labels [] = []
all_labels (e ∷ es) = keys e.mapping ++ all_labels es

-- Every target of a mapping is a node.
abbrev pub TargetsExist : List String → List (String × String) → Type 0
TargetsExist ids = All (λ (t : String × String). mem_text t.1 ids ≡ true)

abbrev pub EdgesExist : List String → List ConditionalEdge → Type 0
EdgesExist ids = All (λ (e : ConditionalEdge). TargetsExist ids e.mapping)

-- What the comments of the validator ask for.
pub record IsConsistent (cfg : TopicConfig) : Type 0 where
  pub codes : All (λ c. mem_text c (keys cfg.error_messages) ≡ true) required_error_codes
  pub has_edge : is_cons cfg.edges ≡ true
  pub targets : EdgesExist (node_ids cfg.nodes) cfg.edges
  pub default :
      (mem_text cfg.default_route (all_labels cfg.edges) ≡ true)
      ⊎ ((cfg.default_route ≡ "default") ⊎ (cfg.default_route ≡ "reject"))
  pub labels : List String
  pub given : label_set (lookup_or "labels" null cfg.intent.params) ≡ ok (some labels)
  pub same : (s : String) → mem_text s labels ≡ mem_text s (all_labels cfg.edges)

has_all_sound : (xs ys : List String) → has_all xs ys ≡ true → All (λ x. mem_text x ys ≡ true) xs
has_all_sound [] ys h = tt
has_all_sound (x ∷ xs) ys h = (ground arith, has_all_sound xs ys (ground arith))

has_all_complete : (xs ys : List String) → All (λ x. mem_text x ys ≡ true) xs → has_all xs ys ≡ true
has_all_complete [] ys h = refl
has_all_complete (x ∷ xs) ys (p, h) = rw p (has_all_complete xs ys h)

mem_text_self :
    (xs ys : List String)
    → ((s : String) → mem_text s xs ≡ true → mem_text s ys ≡ true)
    → has_all xs ys ≡ true
mem_text_self [] ys h = refl
mem_text_self (x ∷ xs) ys h =
    rw (h x (rw eq_refl)) (mem_text_self xs ys (λ s m. h s (ground arith)))

mem_text-has_all :
    (s : String) (xs ys : List String)
    → has_all xs ys ≡ true
    → mem_text s xs ≡ true
    → mem_text s ys ≡ true
mem_text-has_all s [] ys h m = cc
mem_text-has_all s (x ∷ xs) ys h m = ground (arith, mem_text-has_all s xs ys, eq_iff s x)

targets_exist→TargetsExist :
    (ids : List String) (d : List (String × String))
    → targets_exist ids d ≡ true
    → TargetsExist ids d
targets_exist→TargetsExist ids [] h = tt
targets_exist→TargetsExist ids ((label, id) ∷ d) h =
    (ground arith, targets_exist→TargetsExist ids d (ground arith))

TargetsExist→targets_exist :
    (ids : List String) (d : List (String × String))
    → TargetsExist ids d
    → targets_exist ids d ≡ true
TargetsExist→targets_exist ids [] h = refl
TargetsExist→targets_exist ids ((label, id) ∷ d) (p, h) = rw p (TargetsExist→targets_exist ids d h)

mapping_keys_sound :
    (ids : List String) (es : List ConditionalEdge) (labels : List String)
    → mapping_keys ids es ≡ ok labels
    → EdgesExist ids es × (labels ≡ all_labels es)
mapping_keys_sound ids [] labels h = (tt, sym (ok-injective h))
mapping_keys_sound ids (e ∷ es) labels h = elim (Bool-cases (targets_exist ids e.mapping)) [
  | inl exist ↦
      let (later, rest, out) = >>=-eq-ok (mapping_keys ids es) _ (rw exist at h) in
      let (exist_later, same) = mapping_keys_sound ids es later rest in
      (
        (targets_exist→TargetsExist ids e.mapping exist, exist_later),
        sym (ok-injective out) ∙ ap (λ l. keys e.mapping ++ l) same,
      )
  | inr missing ↦ absurd (cc (rw missing at h))
]

mapping_keys_complete :
    (ids : List String) (es : List ConditionalEdge)
    → EdgesExist ids es
    → mapping_keys ids es ≡ ok (all_labels es)
mapping_keys_complete ids [] h = refl
mapping_keys_complete ids (e ∷ es) (exist, later) =
    rw (TargetsExist→targets_exist ids e.mapping exist)
      (rw (mapping_keys_complete ids es later) refl)

check-eq-ok : (b : Bool) (text : String) {u : Unit {0}} → check b text ≡ ok u → b ≡ true
check-eq-ok true text h = refl
check-eq-ok false text h = cc

same_set_sound :
    (given : Option (List String)) (ys : List String)
    → same_set given ys ≡ true
    → (xs : List String) × (given ≡ some xs) × ((s : String) → mem_text s xs ≡ mem_text s ys)
same_set_sound none ys h = cc
same_set_sound (some xs) ys h =
    (xs, refl, λ s. ground (arith, mem_text-has_all s xs ys, mem_text-has_all s ys xs))

same_set_complete :
    (xs ys : List String)
    → ((s : String) → mem_text s xs ≡ mem_text s ys)
    → same_set (some xs) ys ≡ true
same_set_complete xs ys h =
    rw (mem_text_self xs ys (λ s m. sym (h s) ∙ m)) (mem_text_self ys xs (λ s m. h s ∙ m))

default_cases :
    (route : String) (labels : List String)
    → (mem_text route labels || (route == "default" || route == "reject")) ≡ true
    → (mem_text route labels ≡ true) ⊎ ((route ≡ "default") ⊎ (route ≡ "reject"))
default_cases route labels h = ground (arith, eq_iff route "default", eq_iff route "reject")

cases_default :
    (route : String) (labels : List String)
    → (mem_text route labels ≡ true) ⊎ ((route ≡ "default") ⊎ (route ≡ "reject"))
    → (mem_text route labels || (route == "default" || route == "reject")) ≡ true
cases_default route labels h = ground (arith, eq_iff route "default", eq_iff route "reject")

checks-eq-ok :
    (a b : Bool) (m : Outcome (List String)) (c : List String → Bool)
    (g : Outcome (Option (List String))) (s : Option (List String) → List String → Bool)
    → checks a b m c g s ≡ ok tt
    → (a ≡ true)
      × (b ≡ true)
      × ((labels : List String) × (m ≡ ok labels)
          × (c labels ≡ true)
          × ((chosen : Option (List String)) × (g ≡ ok chosen) × (s chosen labels ≡ true)))
checks-eq-ok false b m c g s h = cc
checks-eq-ok true false m c g s h = cc
checks-eq-ok true true (raised e) c g s h = cc
checks-eq-ok true true (ok labels) c g s h = elim (Bool-cases (c labels)) [
  | inr e ↦ absurd (cc (rw e at h))
  | inl e ↦
      let (chosen, asked, out) = >>=-eq-ok g _ (rw e at h) in
      (refl, refl, (labels, refl, e, (chosen, asked, check-eq-ok (s chosen labels) _ out)))
]

-- A configuration passes the validator exactly if it is consistent: every required error code has a
-- message, there is an edge, every target of an edge is a node, the default route is a label or one
-- of the two reserved words, and the labels of the intent plugin are the labels of the edges.
pub validate_consistency_iff :
    (cfg : TopicConfig) → (validate_consistency cfg ≡ ok tt) ↔ IsConsistent cfg
unfolding validate_consistency
validate_consistency_iff cfg = (sound, complete)
  where
    sound : validate_consistency cfg ≡ ok tt → IsConsistent cfg
    sound h =
        let (codes, edge, (labels, mapped, default, (chosen, asked, same))) =
          checks-eq-ok (has_all required_error_codes (keys cfg.error_messages)) (is_cons cfg.edges)
            (mapping_keys (node_ids cfg.nodes) cfg.edges)
            (λ labels.
              mem_text cfg.default_route labels
              || (cfg.default_route == "default" || cfg.default_route == "reject"))
            (label_set (lookup_or "labels" null cfg.intent.params)) same_set h in
        let (exist, all) = mapping_keys_sound (node_ids cfg.nodes) cfg.edges labels mapped in
        let (given, is_given, alike) = same_set_sound chosen labels same in
        record {
          codes = has_all_sound required_error_codes (keys cfg.error_messages) codes;
          has_edge = edge;
          targets = exist;
          default = rw all at (default_cases cfg.default_route labels default);
          labels = given;
          given = asked ∙ ap ok is_given;
          same = rw all at alike;
        }

    complete : IsConsistent cfg → validate_consistency cfg ≡ ok tt
    complete c =
        rw
          (
            has_all_complete required_error_codes (keys cfg.error_messages) c.codes,
            c.has_edge,
            mapping_keys_complete (node_ids cfg.nodes) cfg.edges c.targets,
          )
          (rw (cases_default cfg.default_route (all_labels cfg.edges) c.default)
            (rw (c.given, same_set_complete c.labels (all_labels cfg.edges) c.same) refl))
