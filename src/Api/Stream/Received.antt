-- ===== src/Api/Stream/Received.antt =====
-- What a client reads of the frames that are sent.
use Prim.Native.Char.{Char, code}
use text.Mathlib.TextLemmas.{nil-append, cons-append, append_assoc, cons-ne-nil}
use ocm_agent_v.Common.{
  all_chars, Bool-cases, eq_iff, inl, inr, leb, All, strip_prefix, strip_prefix-append, is_newline,
  String, ◌<>◌, ◌≡◌, refl, ap, ◌∙◌, Bool, true, false, Option, none, some, List, [], ◌∷◌, ◌++◌, map,
  arith, ◌==◌,
}
use ocm_agent_v.Value.{Value}
use ocm_agent_v.Graph.Events.{
  EventType, meta, thinking, progress, delta, tool, error, done, ChatEvent, type_text, id_line,
  encode_sse, Parsed, parsed,
}
use ocm_agent_v.Graph.Builtins.Answer.{concat}
use ocm_agent_v.Api.Stream.{frames}
use ocm_agent_v.Api.Stream.Reader.{
  split, lines_of, Pending, nothing, without_space, read_lines, decode, read_events,
}

-- A text without control characters.
abbrev pub plain_char : Char → Bool
plain_char c = leb 32 (code c)

plain_not_newline : (c : Char) → plain_char c ≡ true → is_newline c ≡ false
plain_not_newline c h = ground arith

all_chars-append :
    (p : Char → Bool) (s t : String)
    → all_chars p s ≡ true
    → all_chars p t ≡ true
    → all_chars p (s <> t) ≡ true
all_chars-append p String.[] t h k = rw nil-append k
all_chars-append p (String.◌∷◌ c s) t h k =
    let here : p c ≡ true = ground arith in
    rw (cons-append, here) (all_chars-append p s t (ground arith) k)

split-line :
    (p s : String)
    → all_chars plain_char p ≡ true
    → split (p <> ("\n" <> s)) ≡ (p, (split s).0 ∷ (split s).1)
split-line String.[] s h = rw (nil-append, cons-append, nil-append) refl
split-line (String.◌∷◌ c p) s h =
    let here : is_newline c ≡ false = plain_not_newline c (ground arith) in
    rw (cons-append, here, split-line p s (ground arith)) refl

lines_of-line :
    (p s : String) → all_chars plain_char p ≡ true → lines_of (p <> ("\n" <> s)) ≡ p ∷ lines_of s
lines_of-line p s h = ap (λ (r : String × List String). r.0 ∷ r.1) (split-line p s h)

type_text-plain : (t : EventType) → all_chars plain_char (type_text t) ≡ true
type_text-plain meta = refl
type_text-plain thinking = refl
type_text-plain progress = refl
type_text-plain delta = refl
type_text-plain tool = refl
type_text-plain error = refl
type_text-plain done = refl

abbrev pub IsPlainId : Option String → Type 0
IsPlainId none = Unit
IsPlainId (some id) = all_chars plain_char id ≡ true

abbrev id_lines : Option String → List String
id_lines none = []
id_lines (some id) = ("id: " <> id) ∷ []

id_end : (id s : String) → ("id: " <> id <> "\n") <> s ≡ ("id: " <> id) <> ("\n" <> s)
id_end id s = simp (append_assoc)

lines_of-id :
    (id : Option String) (s : String)
    → IsPlainId id
    → lines_of (id_line id <> s) ≡ id_lines id ++ lines_of s
lines_of-id none s h = rw nil-append refl
lines_of-id (some id) s h =
    ap lines_of (id_end id s)
    ∙ lines_of-line ("id: " <> id) s (all_chars-append plain_char "id: " id refl h)

two_ends : (s : String) → "\n\n" <> s ≡ "\n" <> ("" <> ("\n" <> s))
two_ends s =
    rw (cons-append, cons-append, nil-append, nil-append) (rw (cons-append, nil-append) refl)

without_space-space : (s : String) → without_space (" " <> s) ≡ s
without_space-space s = rw (cons-append, nil-append) refl

event_field : (t : String) → strip_prefix "event:" ("event: " <> t) ≡ some (" " <> t)
event_field t =
    ap (strip_prefix "event:") (append_assoc "event:" " " t)
    ∙ strip_prefix-append "event:" (" " <> t)

data_field : (t : String) → strip_prefix "data:" ("data: " <> t) ≡ some (" " <> t)
data_field t =
    ap (strip_prefix "data:") (append_assoc "data:" " " t) ∙ strip_prefix-append "data:" (" " <> t)

some_char : (c : Char) (s : String) → (String.◌∷◌ c s == "") ≡ false
some_char c s = elim (Bool-cases (String.◌∷◌ c s == "")) [
  | inl e ↦ absurd (cons-ne-nil c s ((eq_iff (String.◌∷◌ c s) "").0 e))
  | inr e ↦ e
]

event_some : (t : String) → ("event: " <> t == "") ≡ false
event_some t = rw cons-append (some_char _ _)

id_some : (t : String) → ("id: " <> t == "") ≡ false
id_some t = rw cons-append (some_char _ _)

data_some : (t : String) → ("data: " <> t == "") ≡ false
data_some t = rw cons-append (some_char _ _)

id_unknown :
    (t : String)
    → (strip_prefix "event:" ("id: " <> t) ≡ none) × (strip_prefix "data:" ("id: " <> t) ≡ none)
id_unknown t = (rw cons-append refl, rw cons-append refl)

data_no_event : (t : String) → strip_prefix "event:" ("data: " <> t) ≡ none
data_no_event t = rw cons-append refl

read_event-line :
    (p : Pending) (t : String) (lines : List String)
    → read_lines p (("event: " <> t) ∷ lines) ≡ read_lines (record p { type = t }) lines
read_event-line p t lines = rw (event_some, event_field, without_space-space) refl

read_id-lines :
    (p : Pending) (id : Option String) (lines : List String)
    → read_lines p (id_lines id ++ lines) ≡ read_lines p lines
read_id-lines p none lines = refl
read_id-lines p (some id) lines = rw (id_some, (id_unknown id).0, (id_unknown id).1) refl

read_data-line :
    (t d : String) (lines : List String)
    → read_lines (record { type = t; text = "" }) (("data: " <> d) ∷ lines)
      ≡ read_lines (record { type = t; text = d }) lines
read_data-line t d lines = rw (data_some, data_no_event, data_field, without_space-space) refl

-- The event's id has no control characters, and its data are written as a text that is not empty,
-- has none either, and is read back.
pub record IsWritten (loads : String → Parsed) (dumps : Value → String) (ev : ChatEvent)
    : Type 0 where
  pub plain_id : IsPlainId ev.event_id
  pub plain_data : all_chars plain_char (dumps ev.payload) ≡ true
  pub some_data : (dumps ev.payload == "") ≡ false
  pub reads : loads (dumps ev.payload) ≡ parsed ev.payload

module _ (loads : String → Parsed) (dumps : Value → String) where
  frame_parts :
      (ev : ChatEvent) (rest : String)
      → encode_sse dumps ev <> rest
        ≡ ("event: " <> type_text ev.type)
          <> ("\n"
              <> (id_line ev.event_id
                  <> (("data: " <> dumps ev.payload) <> ("\n" <> ("" <> ("\n" <> rest))))))
  frame_parts ev rest = simp (append_assoc, two_ends)

  lines_of-frame :
      (ev : ChatEvent) (rest : String)
      → IsWritten loads dumps ev
      → lines_of (encode_sse dumps ev <> rest)
        ≡ ("event: " <> type_text ev.type) ∷ id_lines ev.event_id
          ++ ("data: " <> dumps ev.payload) ∷ "" ∷ lines_of rest
  lines_of-frame ev rest h =
      ap lines_of (frame_parts ev rest)
      ∙ lines_of-line ("event: " <> type_text ev.type) _
          (all_chars-append plain_char "event: " (type_text ev.type) refl (type_text-plain ev.type))
      ∙ ap (λ l. ("event: " <> type_text ev.type) ∷ l)
          (lines_of-id ev.event_id _ h.plain_id
            ∙ ap (λ l. id_lines ev.event_id ++ l)
                (lines_of-line ("data: " <> dumps ev.payload) _
                    (all_chars-append plain_char "data: " (dumps ev.payload) refl h.plain_data)
                  ∙ ap (λ l. ("data: " <> dumps ev.payload) ∷ l) (lines_of-line "" rest refl)))

  read_lines-frame :
      (ev : ChatEvent) (lines : List String)
      → (dumps ev.payload == "") ≡ false
      → read_lines nothing (
          ("event: " <> type_text ev.type) ∷ id_lines ev.event_id
          ++ ("data: " <> dumps ev.payload) ∷ "" ∷ lines)
        ≡ (type_text ev.type, dumps ev.payload) ∷ read_lines nothing lines
  read_lines-frame ev lines h =
      let data_lines = ("data: " <> dumps ev.payload) ∷ "" ∷ lines in
      read_event-line nothing (type_text ev.type) (id_lines ev.event_id ++ data_lines)
      ∙ read_id-lines (record { type = type_text ev.type; text = "" }) ev.event_id data_lines
      ∙ read_data-line (type_text ev.type) (dumps ev.payload) ("" ∷ lines)
      ∙ rw h refl

  read_lines-frames :
      (evs : List ChatEvent)
      → All (IsWritten loads dumps) evs
      → read_lines nothing (lines_of (concat (frames dumps evs)))
        ≡ map (λ ev. (type_text ev.type, dumps ev.payload)) evs
  read_lines-frames [] h = refl
  read_lines-frames (ev ∷ evs) (h, hs) =
      ap (read_lines nothing) (lines_of-frame ev (concat (frames dumps evs)) h)
      ∙ read_lines-frame ev (lines_of (concat (frames dumps evs))) h.some_data
      ∙ ap (λ l. (type_text ev.type, dumps ev.payload) ∷ l) (read_lines-frames evs hs)

  decode-written :
      (evs : List ChatEvent)
      → All (IsWritten loads dumps) evs
      → map (decode loads) (map (λ ev. (type_text ev.type, dumps ev.payload)) evs)
        ≡ map (λ ev. (type_text ev.type, parsed ev.payload)) evs
  decode-written [] h = refl
  decode-written (ev ∷ evs) (h, hs) = rw (h.reads, decode-written evs hs) refl

  -- If the data of every event are written as a text that is not empty, has no control characters,
  -- and is read back, and no event's id has control characters, then a client that reads the frames
  -- of the stream, one after the other, gets the events, with their types and their data.
  pub read_events-frames :
      (evs : List ChatEvent)
      → All (IsWritten loads dumps) evs
      → read_events loads (concat (frames dumps evs))
        ≡ map (λ ev. (type_text ev.type, parsed ev.payload)) evs
  read_events-frames evs h =
      ap (map (decode loads)) (read_lines-frames evs h) ∙ decode-written evs h
