-- ===== src/Topic/Environment/Placed.antt =====
-- What `_resolve_env` makes of a text that is described by its parts.
use Prim.Native.Char.{Char}
use text.Mathlib.TextLemmas.{nil-append, cons-append}
use ocm_agent_v.Value.{in_text, str}
use ocm_agent_v.Common.{
  Bool-cases, key_error, Outcome, ok, raised, ◌>>=◌, single, size_of, all_chars,
  strip_prefix-append, find_entry, String, ◌<>◌, ◌≡◌, refl, ap, ◌∙◌, inl, inr, Bool, true, false,
  not, ◌&&◌, Option, none, some, List, [], ◌∷◌, arith, ◌==◌, eq_iff,
}
use ocm_agent_v.Topic.Environment.{
  starts_name, in_name, name_tail, placeholder, env_value, join_to, cons_to, substitute,
  resolve_env,
}
use ocm_agent_v.Topic.Environment.Plain.{placeholder-size, substitute-fuel}

-- A part of a text: characters, or the placeholder of a variable.
pub data Part : Type 0 where
  words : String → Part
  variable : String → Part

unfoldable pub text_of : List Part → String
text_of [] = ""
text_of (words t ∷ parts) = t <> text_of parts
text_of (variable name ∷ parts) = "${env:" <> (name <> ("}" <> text_of parts))

abbrev not_dollar : Char → Bool
not_dollar c = not (single c == "$")

-- `[A-Z_][A-Z0-9_]*`
abbrev is_name : String → Bool
is_name String.[] = false
is_name (String.◌∷◌ c s) = starts_name c && all_chars in_name s

-- Names are names, and no dollar stands outside of a placeholder.
abbrev pub AreParts : List Part → Type 0
AreParts [] = Unit
AreParts (words t ∷ parts) = (all_chars not_dollar t ≡ true) × AreParts parts
AreParts (variable name ∷ parts) = (is_name name ≡ true) × AreParts parts

abbrev then_text : String → Outcome String → Outcome String
then_text t (raised e) = raised e
then_text t (ok s) = ok (t <> s)

abbrev value_then : Option String → Outcome String → Outcome String
value_then none rest = raised (key_error "env var required by topic config but unset")
value_then (some v) rest = then_text v rest

-- The text with the values in the places of the variables; the first variable that is not set raises.
abbrev pub filled : List (String × String) → List Part → Outcome String
filled env [] = ok ""
filled env (words t ∷ parts) = then_text t (filled env parts)
filled env (variable name ∷ parts) = value_then (find_entry name env) (filled env parts)

then_text-join_to : (t : String) (r : Outcome String) → join_to t r ≡ then_text t r
then_text-join_to t (raised e) = refl
then_text-join_to t (ok s) = refl

abbrev whole : List (String × String) → String → Outcome String
whole env s = substitute env (size_of s) s

-- A character at which no placeholder starts stays.
whole-cons :
    (env : List (String × String)) (c : Char) (s : String)
    → placeholder (String.◌∷◌ c s) ≡ none
    → whole env (String.◌∷◌ c s) ≡ cons_to c (whole env s)
unfolding substitute
whole-cons env c s h = rw h refl

-- A placeholder gives its value, and what follows it is read on its own.
whole-placeholder :
    (env : List (String × String)) (s name rest : String)
    → placeholder s ≡ some (name, rest)
    → whole env s ≡ (env_value env name >>= λ v. join_to v (whole env rest))
unfolding substitute placeholder
whole-placeholder env String.[] name rest h = cc
whole-placeholder env (String.◌∷◌ c s) name rest h =
    let shorter = placeholder-size (String.◌∷◌ c s) name rest h in
    rw h (
      ap (λ r. env_value env name >>= λ v. join_to v r)
        (substitute-fuel env (size_of s) (size_of rest) rest (omega (arith, shorter))
          (omega arith)))

not_dollar-placeholder :
    (c : Char) (s : String) → not_dollar c ≡ true → placeholder (String.◌∷◌ c s) ≡ none
unfolding placeholder
not_dollar-placeholder c s h =
    let off : ("$" == single c) ≡ false =
      ground (arith, eq_iff "$" (single c), eq_iff (single c) "$") in
    rw off refl

cons_to-then_text :
    (c : Char) (t : String) (r : Outcome String)
    → cons_to c (then_text t r) ≡ then_text (String.◌∷◌ c t) r
cons_to-then_text c t (raised e) = refl
cons_to-then_text c t (ok s) = rw cons-append refl

nothing-then_text : (r : Outcome String) → r ≡ then_text "" r
nothing-then_text (raised e) = refl
nothing-then_text (ok s) = rw nil-append refl

whole-words :
    (env : List (String × String)) (t s : String)
    → all_chars not_dollar t ≡ true
    → whole env (t <> s) ≡ then_text t (whole env s)
whole-words env String.[] s h = rw nil-append (nothing-then_text (whole env s))
whole-words env (String.◌∷◌ c t) s h =
    ap (whole env) (cons-append c t s)
    ∙ whole-cons env c (t <> s) (not_dollar-placeholder c (t <> s) (ground arith))
    ∙ ap (cons_to c) (whole-words env t s (ground arith))
    ∙ cons_to-then_text c t (whole env s)

not_brace : (c : Char) → single c ≡ "}" → in_name c ≡ true → ⊥
unfolding in_text
not_brace c e g = cc (rw e at g)

name_tail-append :
    (name s : String)
    → all_chars in_name name ≡ true
    → name_tail (name <> ("}" <> s)) ≡ some (name, s)
name_tail-append String.[] s h = rw (nil-append, cons-append, nil-append) refl
name_tail-append (String.◌∷◌ c name) s h = elim (Bool-cases (single c == "}")) [
  | inl e ↦ absurd (not_brace c ((eq_iff (single c) "}").0 e) (ground arith))
  | inr e ↦
      let inside : in_name c ≡ true = ground arith in
      rw (cons-append, e, inside, name_tail-append name s (ground arith)) refl
]

placeholder-append :
    (name s : String)
    → is_name name ≡ true
    → placeholder ("${env:" <> (name <> ("}" <> s))) ≡ some (name, s)
unfolding placeholder
placeholder-append String.[] s h = cc
placeholder-append (String.◌∷◌ c name) s h =
    let first : starts_name c ≡ true = ground arith in
    rw (strip_prefix-append "${env:" (String.◌∷◌ c name <> ("}" <> s)))
      (rw (cons-append, first, name_tail-append name s (ground arith)) refl)

value_then-env_value :
    (env : List (String × String)) (name : String) (r : Outcome String)
    → (env_value env name >>= λ v. join_to v r) ≡ value_then (find_entry name env) r
value_then-env_value env name r = from (find_entry name env) refl
  where
    from :
        (o : Option String)
        → find_entry name env ≡ o
        → (env_value env name >>= λ v. join_to v r) ≡ value_then (find_entry name env) r
    from none e = rw (env_value, e) refl
    from (some v) e = rw (env_value, e) (then_text-join_to v r)

whole-filled :
    (env : List (String × String)) (parts : List Part)
    → AreParts parts
    → whole env (text_of parts) ≡ filled env parts
unfolding text_of
whole-filled env [] h = unfold substitute in refl
whole-filled env (words t ∷ parts) (h, hs) =
    whole-words env t (text_of parts) h ∙ ap (then_text t) (whole-filled env parts hs)
whole-filled env (variable name ∷ parts) (h, hs) =
    whole-placeholder env _ name (text_of parts) (placeholder-append name (text_of parts) h)
    ∙ value_then-env_value env name (whole env (text_of parts))
    ∙ ap (value_then (find_entry name env)) (whole-filled env parts hs)

-- In a text of characters other than the dollar and of placeholders `${env:NAME}`, where the names
-- are of capital letters, digits and `_` and begin with no digit, every placeholder is replaced by
-- the variable's value, which is not read again, and the rest stays; if a variable is not set, the
-- call raises the error that says so.
pub resolve_env_fills :
    (env : List (String × String)) (parts : List Part)
    → AreParts parts
    → resolve_env env (str (text_of parts)) ≡ (filled env parts >>= λ t. ok (str t))
unfolding resolve_env
resolve_env_fills env parts h = rw (whole-filled env parts h) refl
