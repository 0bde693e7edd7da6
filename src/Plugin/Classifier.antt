-- ===== src/Plugin/Classifier.antt =====
-- src/ma/plugins/intent/llm_classifier.py. The chat models are langchain's: `ask` sends a prompt to
-- one and gives the content of its answer.
pub mod Answers
use Prim.Native.Char.{Char, code}
use ocm_agent_v.Common.{
  leb, nat_eq, if◌then◌else◌, value_error, not_implemented, intent_failed, Outcome, ok, raised,
  strip_prefix, is_space, is_newline, find_entry, String, ◌<>◌, Bool, true, not, ◌&&◌, ◌||◌, Option,
  none, some, List, [], ◌∷◌, ◌==◌, ◌>>=◌,
}
use ocm_agent_v.Value.{Value}
use ocm_agent_v.Plugin.Formats.{Formats, show}
use ocm_agent_v.Plugin.Auth.{sorted_set, join_with}
use ocm_agent_v.Graph.State.{IntentResult, GraphState, text_or_empty}
use ocm_agent_v.Graph.Builtins.{text_or, non_empty}
use ocm_agent_v.Plugin.Adapter.{question_of}

pub data Provider : Type 0 where
  fake openai_compatible internal : Provider

-- `prompt_template` is required and read by nothing.
pub record ClassifierParams : Type 0 where
  pub provider : Provider
  pub model : String
  pub labels : List String
  pub prompt_template : String
  pub fake_responses : Option (List String)
  pub base_url : Option String
  pub api_key : Option String

-- FakeListChatModel, and ChatOpenAI with its model, its URL and its key.
pub data ChatModel : Type 0 where
  fake_list : List String → ChatModel
  chat_openai : String → Option String → String → ChatModel

abbrev fake_model : Option (List String) → Outcome ChatModel
fake_model (some (r ∷ responses)) = ok (fake_list (r ∷ responses))
fake_model _ = raised (value_error "provider='fake' requires non-empty fake_responses")

-- `_build_chat_model`
unfoldable pub build_chat_model : List (String × String) → ClassifierParams → Outcome ChatModel
build_chat_model env p = elim p.provider [
  | fake ↦ fake_model p.fake_responses
  | openai_compatible ↦ ok (
      chat_openai p.model p.base_url
        (non_empty p.api_key (text_or (find_entry "OPENAI_API_KEY" env) "not-set")))
  | internal ↦
      raised
        (not_implemented "provider='internal' not implemented (use 'fake' or 'openai-compatible')")
]

-- A classifier that is configured; its set of labels is held as a list.
pub record LlmClassifier : Type 0 where
  pub labels : List String
  pub llm : ChatModel

-- `LLMClassifier.configure`, of params that pydantic has read
unfoldable pub configure : List (String × String) → ClassifierParams → Outcome LlmClassifier
unfolding build_chat_model
configure env p = do llm ← build_chat_model env p; ok (record { labels = p.labels; llm = llm })

-- `\s*`
abbrev pub skip_spaces : String → String
skip_spaces String.[] = ""
skip_spaces (String.◌∷◌ c s) =
    let rest = skip_spaces s in if is_space c then rest else String.◌∷◌ c s

-- `[a-zA-Z0-9_-]`
abbrev pub in_label : Char → Bool
in_label c =
    let n = code c in
    leb 97 n && leb n 122
    || (leb 65 n && leb n 90 || (leb 48 n && leb n 57 || (nat_eq n 95 || nat_eq n 45)))

abbrev cons_first : Char → String × String → String × String
cons_first c (label, rest) = (String.◌∷◌ c label, rest)

-- `([a-zA-Z0-9_-]+)` takes all the characters it can: a shorter match would be followed by one more.
abbrev pub take_label : String → String × String
take_label String.[] = ("", "")
take_label (String.◌∷◌ c s) =
    let rest = take_label s in if in_label c then cons_first c rest else ("", String.◌∷◌ c s)

-- `\s*$`: white space up to a line's end, or up to the end of the text.
unfoldable pub ends_line : String → Bool
ends_line String.[] = true
ends_line (String.◌∷◌ c s) = let rest = ends_line s in is_newline c || (is_space c && rest)

abbrev and_then : Option String → (String → Option String) → Option String
and_then none next = none
and_then (some s) next = next s

abbrev route_found : String × String → Option String
route_found (label, rest) = if not (label == "") && ends_line rest then some label else none

-- What stands behind `^\s*word\s*:\s*` at the start of a text.
abbrev pub after_word : String → String → Option String
after_word word s =
    and_then (strip_prefix word (skip_spaces s))
      λ r. and_then (strip_prefix ":" (skip_spaces r)) λ v. some (skip_spaces v)

-- `_ROUTE_RE` at the start of a line.
unfoldable pub route_at : String → Option String
route_at s = and_then (after_word "route" s) λ v. route_found (take_label v)

-- `.+`, up to the end of the line
unfoldable pub line_of : String → String
line_of String.[] = ""
line_of (String.◌∷◌ c s) = let rest = line_of s in if is_newline c then "" else String.◌∷◌ c rest

abbrev strip_last : Char → String → String
strip_last c rest = if is_space c && rest == "" then "" else String.◌∷◌ c rest

-- `s.strip()` of a text that does not begin with white space
unfoldable pub strip_end : String → String
strip_end String.[] = ""
strip_end (String.◌∷◌ c s) = strip_last c (strip_end s)

-- `_REASON_RE` at the start of a line, with the `strip` of its group. If only white space is left
-- of the text, the group is white space or there is none: the reason is empty either way, and no
-- later line has another.
unfoldable pub reason_at : String → Option String
reason_at s = and_then (after_word "reason" s) λ v. some (strip_end (line_of v))

abbrev pub first_of {ℓ} : {A : Type ℓ} → Option A → Option A → Option A
first_of none later = later
first_of (some a) later = some a

-- `re.search` of a pattern that begins with `^`, with re.MULTILINE: at the later lines, and at all.
unfoldable pub later_lines : (String → Option String) → String → Option String
later_lines m String.[] = none
later_lines m (String.◌∷◌ c s) =
    let rest = later_lines m s in if is_newline c then first_of (m s) rest else rest

unfoldable pub search_lines : (String → Option String) → String → Option String
unfolding later_lines
search_lines m s = first_of (m s) (later_lines m s)

abbrev pub result_of : Formats → String → Option String → Option String → Outcome IntentResult
result_of f text none reason =
    raised (intent_failed ("cannot parse route from LLM response: " <> f.repr text))
result_of f text (some route) reason =
    ok (record { route = route; confidence = 100; reason = text_or_empty reason })

-- The reading of an answer.
unfoldable pub read_answer : Formats → String → Outcome IntentResult
read_answer f text = result_of f text (search_lines route_at text) (search_lines reason_at text)

abbrev pub prompt_of : List String → GraphState → String
prompt_of labels state =
    "你是路由分类器。返回纯文本，第一行 'route: <label>'，第二行可选 'reason: ...'\n可选 label: "
    <> join_with ", " (sorted_set labels)
    <> "\n\n用户问题："
    <> question_of state

-- `LLMClassifier.classify`; `ask` is `ainvoke` of a chat model.
unfoldable pub classify :
    Formats
    → (ChatModel → String → Outcome Value)
    → LlmClassifier
    → GraphState
    → Outcome IntentResult
unfolding read_answer
classify f ask c state = do
  content ← ask c.llm (prompt_of c.labels state)
  read_answer f (show f content)
