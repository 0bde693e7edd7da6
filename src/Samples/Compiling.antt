-- ===== src/Samples/Compiling.antt =====
-- Tests of the compiler of topics.
use ocm_agent_v.Common.{
  ◌>>=◌, [], ◌∷◌, List, All, key_error, Outcome, ok, raised, find_entry, put, is_entry, String, ◌≡◌,
  refl, true, List, [], ◌∷◌,
}
use ocm_agent_v.Value.{Fields, str, in_text}
use ocm_agent_v.Plugin.Registry.{Registry, create}
use ocm_agent_v.Topic.Config.{validate_consistency}
use ocm_agent_v.Topic.Environment.{placeholder, resolve_env}
use ocm_agent_v.Topic.Environment.Placed.{Part, words, variable, text_of, filled, resolve_env_fills}
use ocm_agent_v.Chat.Flow.{CompiledTopic, first_mapping}
use ocm_agent_v.Chat.Compiler.{Methods, compiled, compile}
use ocm_agent_v.Chat.Compiler.Targets.{compile-targets}
use ocm_agent_v.Samples.Data.{streams, classify, config, topic}

abbrev env : List (String × String)
env = ("HOST", "h1") ∷ []

test_resolve_env :
    resolve_env env (str "http://${env:HOST}/a${env:x}") ≡ ok (str "http://h1/a${env:x}")
unfolding resolve_env placeholder in_text
test_resolve_env = refl

test_unset :
    resolve_env env (str "${env:PORT}")
    ≡ raised (key_error "env var required by topic config but unset")
unfolding resolve_env placeholder in_text
test_unset = refl

abbrev parts : List Part
parts = words "http://" ∷ variable "HOST" ∷ words "/a" ∷ []

resolve_env_fills_example :
    resolve_env env (str (text_of parts)) ≡ (filled env parts >>= λ t. ok (str t))
unfolding in_text
resolve_env_fills_example = resolve_env_fills env parts (refl, (refl, (refl, tt)))

test_filled : filled env parts ≡ ok "http://h1/a"
test_filled = refl

-- An instance is a text too.
abbrev methods : Methods String
methods = record {
  authorizes = λ i. topic.auth;
  enriches = λ i. topic.enrich;
  classifies = λ i. classify;
  runs = λ i. streams;
  model = λ model d. ok tt;
}

abbrev instance_of : String → Fields → Outcome String
instance_of c params = ok c

abbrev classes : Registry String
classes =
    ("auth", "representative_auth", "A")
    ∷ ("enrich", "generic_enrich", "E")
    ∷ ("intent", "llm_classifier", "I")
    ∷ ("adapter", "echo", "D")
    ∷ []

abbrev made : CompiledTopic
made =
    compiled methods instance_of classes config "A" "E" "I" (("ask_data", "D") ∷ [])
      (("region", true) ∷ [])

valid : validate_consistency config ≡ ok tt
unfolding validate_consistency
valid = refl

compiled_now : compile methods instance_of classes env config ≡ ok made
unfolding compile resolve_env create put placeholder in_text
compiled_now = refl

compile-targets_example :
    (mapping : List (String × String)) × (first_mapping made.config.edges ≡ ok mapping)
    × All (λ (t : String × String). is_entry (find_entry t.1 made.adapters) ≡ true) mapping
compile-targets_example =
    compile-targets methods instance_of classes env config made valid compiled_now
