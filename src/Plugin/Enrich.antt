-- ===== src/Plugin/Enrich.antt =====
-- src/ma/plugins/enrich/generic_enrich.py
pub mod Whitelist
use ocm_agent_v.Common.{String, ◌<>◌, Option, none, some, List, [], ◌∷◌}
use ocm_agent_v.Value.{Fields, Value, str, arr, Items, cons, nil, lookup, fields}
use ocm_agent_v.Plugin.Formats.{Formats, show}
use ocm_agent_v.Plugin.Auth.{join_with}
use ocm_agent_v.Graph.State.{EnrichResult, GraphState, text_or_empty, dict_or_empty}

-- `biz_params[field]` if it is there, else `user_ctx[field]`
abbrev pub prefer : Option Value → Option Value → Option Value
prefer (some v) other = some v
prefer none other = other

-- One field of the white list, before the later ones.
abbrev pub add_field :
    Formats → String → Option Value → List String × List String → List String × List String
add_field f k none later = later
add_field f k (some v) (parts, injected) = ((k <> "=" <> show f v) ∷ parts, k ∷ injected)

-- The loop over the white list: the parts of the prefix and the fields that were injected.
unfoldable pub inject : Formats → Fields → Fields → List String → List String × List String
inject f biz_params user_ctx [] = ([], [])
inject f biz_params user_ctx (k ∷ ks) =
    add_field f k (prefer (lookup k biz_params) (lookup k user_ctx))
      (inject f biz_params user_ctx ks)

abbrev pub prefix_of : List String → String
prefix_of [] = ""
prefix_of (p ∷ ps) = "[" <> join_with " " (p ∷ ps) <> "] "

abbrev pub text_items : List String → Items
text_items [] = nil
text_items (s ∷ ss) = cons (str s) (text_items ss)

unfoldable pub enrich : Formats → List String → GraphState → EnrichResult
unfolding inject
enrich f whitelist state =
    let (parts, injected) =
      inject f (dict_or_empty state.biz_params) (dict_or_empty state.user_ctx) whitelist in
    record {
      enriched_question = prefix_of parts <> text_or_empty state.question;
      enrich_meta = fields (("injected", arr (text_items injected)) ∷ []);
    }
