-- ===== src/Plugin/Registry.antt =====
-- src/ma/core/plugin/registry.py: `PluginRegistry`. `Class` stands for the plugin classes; `build`
-- stands for `cls()` followed by `configure(params)`, which may raise.
pub mod Laws
use ocm_agent_v.Common.{
  if◌then◌else◌, type_error, plugin_not_found, plugin_conflict, Outcome, ok, raised, String, ◌&&◌,
  Option, none, some, List, [], ◌∷◌, ◌++◌, ◌==◌, ◌>>=◌,
}
use ocm_agent_v.Value.{Fields, Value, str}

-- `_by_kind_name`, in the order of registration.
abbrev pub Registry {ℓ} : Type ℓ → Type ℓ
Registry Class = List (String × String × Class)

-- A class attribute that must be a text.
abbrev pub text_attribute : Option Value → Outcome String
text_attribute (some (str s)) = ok s
text_attribute _ = raised (type_error "must declare class attrs name and plugin_kind")

module _ {ℓ} {Class : Type ℓ} where
  abbrev pub find_class : String → String → Registry Class → Option Class
  find_class kind name [] = none
  find_class kind name ((k, n, c) ∷ rest) =
      if k == kind && n == name then some c else find_class kind name rest

  -- The key must be free.
  abbrev pub add_class :
      Option Class → String → String → Class → Registry Class → Outcome (Registry Class)
  add_class none kind name c registry = ok (registry ++ (kind, name, c) ∷ [])
  add_class (some _) kind name c registry = raised (plugin_conflict kind name)

  -- `getattr(cls, "plugin_kind", None)` and `getattr(cls, "name", None)` are given.
  unfoldable pub register :
      Option Value → Option Value → Class → Registry Class → Outcome (Registry Class)
  register plugin_kind name_attr c registry = do
    kind ← text_attribute plugin_kind
    name ← text_attribute name_attr
    add_class (find_class kind name registry) kind name c registry

  module _ {κ} {Instance : Type κ} (build : Class → Fields → Outcome Instance) where
    abbrev pub configured : Option Class → String → String → Fields → Outcome Instance
    configured none kind name params = raised (plugin_not_found kind name)
    configured (some c) kind name params = build c params

    unfoldable pub create : String → String → Fields → Registry Class → Outcome Instance
    create kind name params registry = configured (find_class kind name registry) kind name params
