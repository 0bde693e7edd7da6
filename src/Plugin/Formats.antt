-- ===== src/Plugin/Formats.antt =====
-- Python's own conversions to text, which the f-strings use.
use ocm_agent_v.Common.{ℕ, String}
use ocm_agent_v.Value.{Value, str}

pub record Formats : Type 0 where
  -- `repr(s)`
  pub repr : String → String
  -- `str(n)` of a non-negative integer
  pub show_int : ℕ → String
  -- `str(v)` of a value that is no text; a text is its own `str`
  pub show_other : Value → String

abbrev pub show : Formats → Value → String
show f (str s) = s
show f v = f.show_other v
