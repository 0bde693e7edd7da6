-- ===== src/Repo/Sql.antt =====
-- src/ma/core/repo/sql_executor.py: templates with `:name` become statements with `$1`, `$2`, …
pub mod Binding
pub mod Described
pub mod Loader
pub mod Templates
use Prim.Native.Char.{Char, code}
use ocm_agent_v.Common.{
  leb, nat_eq, if◌then◌else◌, length, missing_sql_param, Outcome, ok, raised, find_entry, ℕ, ◌+◌,
  String, ◌<>◌, Bool, ◌&&◌, ◌||◌, Option, none, some, List, [], ◌∷◌, ◌++◌, ◌>>=◌,
}
use ocm_agent_v.Value.{Fields, Value, lookup}
use ocm_agent_v.Plugin.Formats.{Formats}

-- `[a-zA-Z_]` and `[a-zA-Z0-9_]`
abbrev pub starts_param : Char → Bool
starts_param c = let n = code c in leb 97 n && leb n 122 || (leb 65 n && leb n 90 || nat_eq n 95)

abbrev pub in_param : Char → Bool
in_param c = starts_param c || (let n = code c in leb 48 n && leb n 57)

abbrev is_colon : Char → Bool
is_colon c = nat_eq (code c) 58

-- A piece of a template: a character that stays, or a named parameter.
pub data Token : Type 0 where
  plain_char : Char → Token
  param : String → Token

-- Where the scan stands: in the text, with whether a colon came last; behind a colon that no colon
-- came before; in a name.
pub data Mode : Type 0 where
  in_text after_colon_text after_colon : Mode
  in_name : String → Mode

abbrev in_plain : List Token → Char → List Token × Mode
in_plain before c =
    if is_colon c then (before, after_colon) else (before ++ plain_char c ∷ [], in_text)

abbrev colon : Token
colon = plain_char ":"

-- One character: what it decides, and where the scan stands then. The second of two colons is not
-- followed by a name.
abbrev pub scan : Mode → Char → List Token × Mode
scan in_text c = in_plain [] c
scan after_colon_text c =
    if is_colon c then (plain_char c ∷ [], after_colon_text) else (plain_char c ∷ [], in_text)
scan after_colon c =
    if starts_param c
    then ([], in_name (String.◌∷◌ c ""))
    else if is_colon c
    then (colon ∷ plain_char c ∷ [], after_colon_text)
    else (colon ∷ plain_char c ∷ [], in_text)
scan (in_name name) c =
    if in_param c then ([], in_name (name <> String.◌∷◌ c "")) else in_plain (param name ∷ []) c

abbrev at_end : Mode → List Token
at_end in_text = []
at_end after_colon_text = []
at_end after_colon = colon ∷ []
at_end (in_name name) = param name ∷ []

unfoldable pub scan_all : Mode → String → List Token
scan_all mode String.[] = at_end mode
scan_all mode (String.◌∷◌ c s) = let (tokens, next) = scan mode c in tokens ++ scan_all next s

-- The matches of `_NAMED_PARAM_RE`, and the text between them.
unfoldable pub tokens_of : String → List Token
unfolding scan_all
tokens_of sql = scan_all in_text sql

-- A piece of a statement: a character, or the number of an argument.
pub data Piece : Type 0 where
  kept_char : Char → Piece
  hole : ℕ → Piece

abbrev pub add_piece : Piece → Outcome (List Piece × List Value) → Outcome (List Piece × List Value)
add_piece p (raised e) = raised e
add_piece p (ok (ps, args)) = ok (p ∷ ps, args)

-- A name that has a number keeps it, and one that has none must be among the parameters.
abbrev pub number_param :
    String
    → Option ℕ
    → Option Value
    → Outcome (List Piece × List Value)
    → (Value → Outcome (List Piece × List Value))
    → Outcome (List Piece × List Value)
number_param name (some i) v rest fresh = add_piece (hole i) rest
number_param name none none rest fresh = raised (missing_sql_param name)
number_param name none (some v) rest fresh = fresh v

-- `_replace` over the pieces, with `name_to_idx` and `args`.
unfoldable pub assign :
    Fields → List Token → List (String × ℕ) → List Value → Outcome (List Piece × List Value)
assign params [] indices args = ok ([], args)
assign params (plain_char c ∷ tokens) indices args =
    add_piece (kept_char c) (assign params tokens indices args)
assign params (param name ∷ tokens) indices args =
    let i = length args + 1 in
    number_param name (find_entry name indices) (lookup name params)
      (assign params tokens indices args)
      (λ v. add_piece (hole i) (assign params tokens ((name, i) ∷ indices) (args ++ v ∷ [])))

abbrev pub render : Formats → List Piece → String
render f [] = ""
render f (kept_char c ∷ ps) = String.◌∷◌ c (render f ps)
render f (hole i ∷ ps) = "$" <> f.show_int i <> render f ps

unfoldable pub translate_named_params : Formats → String → Fields → Outcome (String × List Value)
unfolding assign tokens_of
translate_named_params f sql params = do
  translated ← assign params (tokens_of sql) [] []
  ok (render f translated.0, translated.1)

-- `SqlExecutor`, over the pools of asyncpg: with no pool of its own, reading uses the other.
pub record SqlExecutor (Pool : Type 0) : Type 0 where
  pub templates : List (String × String)
  pub rw_pool : Pool
  pub ro_pool : Pool

abbrev pub new_executor :
    {Pool : Type 0} → List (String × String) → Pool → Option Pool → SqlExecutor Pool
new_executor templates rw_ none = record { templates = templates; rw_pool = rw_; ro_pool = rw_ }
new_executor templates rw_ (some ro) = record { templates = templates; rw_pool = rw_; ro_pool = ro }
