-- ===== src/Topic/Environment.antt =====
-- src/ma/core/topic/compiler.py: `_resolve_env`, which puts the environment's values in the place of
-- `${env:NAME}`. A regular expression is a scan from the left; it never overlaps.
pub mod Plain
pub mod Placed
use Prim.Native.String
use Prim.Native.Char.{Char}
use ocm_agent_v.Common.{
  if◌then◌else◌, key_error, Outcome, ok, raised, single, size_of, strip_prefix, find_entry, ℕ, zero,
  suc, String, ◌<>◌, Bool, Option, none, some, List, [], ◌∷◌, ◌==◌, ◌>>=◌,
}
use ocm_agent_v.Value.{
  Fields, field, end, Value, null, str, num, bool, obj, arr, Items, cons, nil, in_text,
}

-- `[A-Z_]` and `[A-Z0-9_]`
abbrev pub starts_name : Char → Bool
starts_name c = in_text (single c) "ABCDEFGHIJKLMNOPQRSTUVWXYZ_"

abbrev pub in_name : Char → Bool
in_name c = in_text (single c) "ABCDEFGHIJKLMNOPQRSTUVWXYZ0123456789_"

abbrev pub more_name : Char → Option (String × String) → Option (String × String)
more_name c none = none
more_name c (some (name, rest)) = some (String.◌∷◌ c name, rest)

-- The rest of a name up to the brace, and what follows the brace.
abbrev pub name_tail : String → Option (String × String)
name_tail String.[] = none
name_tail (String.◌∷◌ c s) =
    let rest = name_tail s in
    if single c == "}" then some ("", s) else if in_name c then more_name c rest else none

abbrev pub whole_name : String → Option (String × String)
whole_name String.[] = none
whole_name (String.◌∷◌ c s) =
    let rest = name_tail s in if starts_name c then more_name c rest else none

abbrev pub name_after : Option String → Option (String × String)
name_after none = none
name_after (some s) = whole_name s

-- A placeholder at the start of the text: its name, and what follows it.
unfoldable pub placeholder : String → Option (String × String)
placeholder s = name_after (strip_prefix "${env:" s)

abbrev pub env_value : List (String × String) → String → Outcome String
env_value env name = elim (find_entry name env) [
  | none ↦ raised (key_error "env var required by topic config but unset")
  | some v ↦ ok v
]

abbrev pub join_to : String → Outcome String → Outcome String
join_to v (raised e) = raised e
join_to v (ok t) = ok (v <> t)

abbrev pub cons_to : Char → Outcome String → Outcome String
cons_to c (raised e) = raised e
cons_to c (ok t) = ok (String.◌∷◌ c t)

-- One position: a placeholder is replaced and left behind, and otherwise one character is.
abbrev pub at_position :
    List (String × String)
    → Option (String × String)
    → Char
    → Outcome String
    → (String → Outcome String)
    → Outcome String
at_position env none c skipped later = cons_to c skipped
at_position env (some (name, rest)) c skipped later = do
  v ← env_value env name
  join_to v (later rest)

-- `_ENV_PLACEHOLDER.sub`; each position takes one unit of fuel at most.
unfoldable pub substitute : List (String × String) → ℕ → String → Outcome String
unfolding placeholder
substitute env zero s = ok s
substitute env (suc fuel) String.[] = ok ""
substitute env (suc fuel) (String.◌∷◌ c s) =
    at_position env (placeholder (String.◌∷◌ c s)) c (substitute env fuel s)
      (λ rest. substitute env fuel rest)

unfoldable mutual
  unfolding substitute

  pub resolve_env : List (String × String) → Value → Outcome Value
  resolve_env env (str s) = do t ← substitute env (size_of s) s; ok (str t)
  resolve_env env (obj d) = do e ← resolve_fields env d; ok (obj e)
  resolve_env env (arr vs) = do ws ← resolve_items env vs; ok (arr ws)
  resolve_env env null = ok null
  resolve_env env (bool b) = ok (bool b)
  resolve_env env (num n) = ok (num n)

  pub resolve_fields : List (String × String) → Fields → Outcome Fields
  resolve_fields env end = ok end
  resolve_fields env (field k v d) = do
    w ← resolve_env env v
    e ← resolve_fields env d
    ok (field k w e)

  resolve_items : List (String × String) → Items → Outcome Items
  resolve_items env nil = ok nil
  resolve_items env (cons v vs) = do
    w ← resolve_env env v
    ws ← resolve_items env vs
    ok (cons w ws)
