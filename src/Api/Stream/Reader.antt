-- ===== src/Api/Stream/Reader.antt =====
-- A client reads the stream of the SSE endpoint, as the HTML standard says for an EventSource: fields
-- are lines, one space behind the colon is left out, an empty line ends an event, an event without
-- data is none, and unknown fields and comments are passed over. The lines of this endpoint end with
-- line feeds alone; the ids are not looked at.
use Prim.Native.Char.{Char}
use ocm_agent_v.Common.{
  if◌then◌else◌, strip_prefix, is_newline, String, ◌<>◌, Option, none, some, List, [], ◌∷◌, ◌++◌,
  map, ◌==◌,
}
use ocm_agent_v.Graph.Events.{Parsed}

abbrev pub in_first_line : Char → String × List String → String × List String
in_first_line c (line, later) = (String.◌∷◌ c line, later)

-- The first line, and the others.
abbrev pub split : String → String × List String
split String.[] = ("", [])
split (String.◌∷◌ c s) =
    let rest = split s in if is_newline c then ("", rest.0 ∷ rest.1) else in_first_line c rest

abbrev pub lines_of : String → List String
lines_of s = (split s).0 ∷ (split s).1

-- An event that is being read: its type and its data.
pub record Pending : Type 0 where
  pub type : String
  pub text : String

abbrev pub nothing : Pending
nothing = record { type = ""; text = "" }

abbrev pub without_space : String → String
without_space String.[] = ""
without_space (String.◌∷◌ c s) = if String.◌∷◌ c "" == " " then s else String.◌∷◌ c s

abbrev pub add_line : String → String → String
add_line old new = if old == "" then new else old <> "\n" <> new

abbrev pub on_data : Pending → Option String → Pending
on_data p none = p
on_data p (some v) = record p { text = add_line p.text (without_space v) }

abbrev pub on_field : Pending → String → Option String → Pending
on_field p line (some v) = record p { type = without_space v }
on_field p line none = on_data p (strip_prefix "data:" line)

abbrev pub dispatched : Pending → List (String × String)
dispatched p = if p.text == "" then [] else (p.type, p.text) ∷ []

abbrev pub read_lines : Pending → List String → List (String × String)
read_lines p [] = []
read_lines p (line ∷ lines) =
    if line == ""
    then dispatched p ++ read_lines nothing lines
    else read_lines (on_field p line (strip_prefix "event:" line)) lines

abbrev pub decode : (String → Parsed) → String × String → String × Parsed
decode loads (type, text) = (type, loads text)

-- The events of a stream: their types, and their data decoded.
abbrev pub read_events : (String → Parsed) → String → List (String × Parsed)
read_events loads s = map (decode loads) (read_lines nothing (lines_of s))
