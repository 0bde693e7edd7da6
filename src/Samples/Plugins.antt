-- ===== src/Samples/Plugins.antt =====
-- Tests of the plugins and of their registry.
use ocm_agent_v.Plugin.Registry.{Registry}
use ocm_agent_v.Common.{ok, String, ◌≡◌, refl, ◌↔◌, true, some, [], ◌∷◌}
use ocm_agent_v.Value.{str, arr, fields, py_eq, in_items, contained}
use ocm_agent_v.Graph.State.{AuthResult, GraphState}
use ocm_agent_v.Plugin.Auth.{granted_to, authorize}
use ocm_agent_v.Plugin.Auth.Permission.{IsPermitted, IsWellFormed, authorize_permits}
use ocm_agent_v.Plugin.Enrich.{text_items, enrich}
use ocm_agent_v.Plugin.Enrich.Whitelist.{enrich_whitelist}
use ocm_agent_v.Samples.Data.{plain, asking, policy}

abbrev granted : AuthResult
granted = granted_to policy (str "REP") (arr (text_items ("huadong" ∷ []))) (str "huadong")

granted_now : authorize plain policy asking ≡ ok granted
unfolding authorize contained in_items py_eq
granted_now = refl

authorize_permits_example :
    IsWellFormed granted × ((granted.passed ≡ true) ↔ IsPermitted policy asking)
authorize_permits_example = authorize_permits plain policy asking granted granted_now

abbrev other_user : GraphState
other_user = record asking { user_ctx = some (fields (("secret", str "x") ∷ [])) }

enrich_whitelist_example :
    enrich plain ("region" ∷ []) asking ≡ enrich plain ("region" ∷ []) other_user
enrich_whitelist_example =
    enrich_whitelist plain ("region" ∷ []) asking other_user refl (refl, tt) (refl, tt)

abbrev one_class : Registry String
one_class = ("auth", "representative_auth", "A") ∷ []
