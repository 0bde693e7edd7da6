-- ===== src/Topic/Environment/Plain.antt =====
-- What `_resolve_env` leaves alone, and that its fuel is enough.
use ocm_agent_v.Value.{Fields, field, end, Value, null, str, num, bool, obj, arr, Items, cons, nil}
use Prim.Native.Char.{Char}
use ocm_agent_v.Common.{
  Bool-cases, ok, ◌>>=◌, single, size_of, strip_prefix, some-injective, ℕ, zero, suc, ◌≤◌, ◌<◌,
  String, ◌≡◌, refl, ap, subst, inl, inr, Bool, true, false, not, ◌&&◌, ◌||◌, Option, none, some,
  List, arith, ◌==◌,
}
use ocm_agent_v.Topic.Environment.{
  starts_name, in_name, more_name, name_tail, whole_name, placeholder, env_value, join_to,
  at_position, substitute, resolve_env, resolve_fields, resolve_items,
}

strip_prefix-size : (p s rest : String) → strip_prefix p s ≡ some rest → size_of rest ≤ size_of s
strip_prefix-size String.[] s rest h =
    subst (λ r. size_of r ≤ size_of s) (some-injective h) (omega arith)
strip_prefix-size (String.◌∷◌ c p) String.[] rest h = cc
strip_prefix-size (String.◌∷◌ c p) (String.◌∷◌ d s) rest h =
    elim (Bool-cases (single c == single d)) [
      | inl e ↦ let shorter = strip_prefix-size p s rest (rw e at h) in omega (arith, shorter)
      | inr e ↦ absurd (cc (rw e at h))
    ]

more_name-eq-some :
    (c : Char) (o : Option (String × String)) (name rest : String)
    → more_name c o ≡ some (name, rest)
    → (tail : String) × (o ≡ some (tail, rest))
more_name-eq-some c none name rest h = cc
more_name-eq-some c (some (tail, later)) name rest h =
    (tail, ap (λ r. some (tail, r)) (ap (λ (x : String × String). x.1) (some-injective h)))

name_tail-size : (s name rest : String) → name_tail s ≡ some (name, rest) → size_of rest < size_of s
name_tail-size String.[] name rest h = cc
name_tail-size (String.◌∷◌ c s) name rest h = elim (Bool-cases (single c == "}")) [
  | inl e ↦
      subst (λ r. size_of r < suc (size_of s))
        (ap (λ (x : String × String). x.1) (some-injective (rw e at h))) (omega arith)
  | inr e ↦ elim (Bool-cases (in_name c)) [
    | inl g ↦
        let (tail, k) = more_name-eq-some c (name_tail s) name rest (rw (e, g) at h) in
        let shorter = name_tail-size s tail rest k in omega (arith, shorter)
    | inr g ↦ absurd (cc (rw (e, g) at h))
  ]
]

whole_name-size :
    (s name rest : String) → whole_name s ≡ some (name, rest) → size_of rest < size_of s
whole_name-size String.[] name rest h = cc
whole_name-size (String.◌∷◌ c s) name rest h = elim (Bool-cases (starts_name c)) [
  | inl g ↦
      let (tail, k) = more_name-eq-some c (name_tail s) name rest (rw g at h) in
      let shorter = name_tail-size s tail rest k in omega (arith, shorter)
  | inr g ↦ absurd (cc (rw g at h))
]

pub placeholder-size :
    (s name rest : String) → placeholder s ≡ some (name, rest) → size_of rest < size_of s
unfolding placeholder
placeholder-size s name rest h = from (strip_prefix "${env:" s) refl
  where
    from : (o : Option String) → strip_prefix "${env:" s ≡ o → size_of rest < size_of s
    from none e = absurd (cc (rw e at h))
    from (some t) e =
        let inner = whole_name-size t name rest (rw e at h) in
        let outer = strip_prefix-size "${env:" s t e in omega (arith, inner, outer)

-- Any two amounts of fuel that are not below the length of the text give the same.
pub substitute-fuel :
    (env : List (String × String)) (k l : ℕ) (s : String)
    → size_of s ≤ k
    → size_of s ≤ l
    → substitute env k s ≡ substitute env l s
unfolding substitute
substitute-fuel env zero zero s hk hl = refl
substitute-fuel env zero (suc l) String.[] hk hl = refl
substitute-fuel env zero (suc l) (String.◌∷◌ c s) hk hl = absurd (omega arith)
substitute-fuel env (suc k) zero String.[] hk hl = refl
substitute-fuel env (suc k) zero (String.◌∷◌ c s) hk hl = absurd (omega arith)
substitute-fuel env (suc k) (suc l) String.[] hk hl = refl
substitute-fuel env (suc k) (suc l) (String.◌∷◌ c s) hk hl =
    by_placeholder (λ r hr. substitute-fuel env k l r (omega arith) (omega arith))
      (placeholder (String.◌∷◌ c s)) refl
  where
    by_placeholder :
        ((r : String) → size_of r ≤ size_of s → substitute env k r ≡ substitute env l r)
        → (o : Option (String × String)) → placeholder (String.◌∷◌ c s) ≡ o
        → at_position env o c (substitute env k s) (λ rest. substitute env k rest)
          ≡ at_position env o c (substitute env l s) (λ rest. substitute env l rest)
    by_placeholder ih none e =
        ap (λ r. at_position env none c r (λ rest. substitute env k rest)) (ih s (omega arith))
    by_placeholder ih (some (name, rest)) e =
        let shorter = placeholder-size (String.◌∷◌ c s) name rest e in
        ap (λ r. env_value env name >>= λ v. join_to v r) (ih rest (omega (arith, shorter)))

abbrev pub is_placed : Option (String × String) → Bool
is_placed none = false
is_placed (some p) = true

-- Whether a placeholder starts somewhere in the text.
abbrev pub has_placeholder : String → Bool
has_placeholder String.[] = false
has_placeholder (String.◌∷◌ c s) = is_placed (placeholder (String.◌∷◌ c s)) || has_placeholder s

unfoldable mutual
  pub is_plain : Value → Bool
  is_plain (str s) = not (has_placeholder s)
  is_plain (obj d) = fields_plain d
  is_plain (arr vs) = items_plain vs
  is_plain null = true
  is_plain (bool b) = true
  is_plain (num n) = true

  fields_plain : Fields → Bool
  fields_plain end = true
  fields_plain (field k v d) = is_plain v && fields_plain d

  items_plain : Items → Bool
  items_plain nil = true
  items_plain (cons v vs) = is_plain v && items_plain vs

substitute-plain :
    (env : List (String × String)) (s : String)
    → has_placeholder s ≡ false
    → substitute env (size_of s) s ≡ ok s
unfolding substitute
substitute-plain env String.[] h = refl
substitute-plain env (String.◌∷◌ c s) h =
    at_none (placeholder (String.◌∷◌ c s)) (ground arith) (substitute-plain env s (ground arith))
  where
    at_none :
        (o : Option (String × String))
        → is_placed o ≡ false
        → substitute env (size_of s) s ≡ ok s
        → at_position env o c
            (substitute env (size_of s) s)
            (λ rest. substitute env (size_of s) rest)
          ≡ ok (String.◌∷◌ c s)
    at_none none e ih = rw ih refl
    at_none (some p) e ih = cc

mutual
  unfolding is_plain resolve_env

  value_kept :
      (env : List (String × String)) (v : Value) → is_plain v ≡ true → resolve_env env v ≡ ok v
  value_kept env (str s) h = rw (substitute-plain env s (ground arith)) refl
  value_kept env (obj d) h = rw (fields_kept env d h) refl
  value_kept env (arr vs) h = rw (items_kept env vs h) refl
  value_kept env null h = refl
  value_kept env (bool b) h = refl
  value_kept env (num n) h = refl

  fields_kept :
      (env : List (String × String)) (d : Fields)
      → fields_plain d ≡ true
      → resolve_fields env d ≡ ok d
  fields_kept env end h = refl
  fields_kept env (field k v d) h =
      rw (value_kept env v (ground arith), fields_kept env d (ground arith)) refl

  items_kept :
      (env : List (String × String)) (vs : Items)
      → items_plain vs ≡ true
      → resolve_items env vs ≡ ok vs
  items_kept env nil h = refl
  items_kept env (cons v vs) h =
      rw (value_kept env v (ground arith), items_kept env vs (ground arith)) refl

-- A value in which no text has a placeholder is resolved to itself, whatever the environment.
pub resolve_env-plain :
    (env : List (String × String)) (v : Value) → is_plain v ≡ true → resolve_env env v ≡ ok v
resolve_env-plain = value_kept
