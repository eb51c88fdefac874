-- ===== src/Js/Env.antt =====
-- The environment of a process, and what the sources do with its texts. `trim` and `Number` of a text
-- are the two functions of `Texts`.
use Prim.Native.Char.{code}
use nebula_clone.Prelude.{
  ℕ, ◌+◌, Bool, true, false, ◌&&◌, Option, none, some, String, ltb, ◌==◌, if◌then◌else◌,
}
use nebula_clone.Js.Number.{Number}

abbrev pub Env : Type 0
Env = String → Option String

pub record Texts : Type 0 where
  pub trim : String → String
  pub to_number : String → Number

-- `text.length`: a character outside the basic plane counts twice.
abbrev pub text_length : String → ℕ
text_length String.[] = 0
text_length (String.◌∷◌ c s) = (if ltb (code c) 65_536 then 1 else 2) + text_length s

-- `text.startsWith(prefix)`.
abbrev pub starts_with : String → String → Bool
starts_with s String.[] = true
starts_with String.[] (String.◌∷◌ d p) = false
starts_with (String.◌∷◌ c s) (String.◌∷◌ d p) = (code c == code d) && starts_with s p

abbrev pub is_empty : String → Bool
is_empty String.[] = true
is_empty (String.◌∷◌ c s) = false

-- The value, unless it is missing or "".
abbrev pub given : Option String → Option String
given none = none
given (some s) = if is_empty s then none else some s
