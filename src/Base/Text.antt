-- ===== src/Base/Text.antt =====
-- Text that the program walks, as the list of its code points, and the parts of Python's `str`
-- that are used on it. The case mapping and the white space are those of ASCII.
pub mod Laws
use Prim.Native.Nat.{ℕ, suc, ◌-◌}
use Prim.Native.Char.{code}
use Prim.Native.String.{String}
use mathlib.Core.Path.{◌≡◌, refl}
use mathlib.Core.Bool.{Bool, true, false, not, ◌&&◌, ◌||◌}
use mathlib.Core.List.{List, [], ◌∷◌, ◌++◌, reverse}
use tcd_oran_testbed_integra.Base.Tests.{leb, ◌==◌, if◌then◌else◌}

abbrev pub Text : Type 0
Text = List ℕ

-- The code points of a literal.
abbrev pub codes : String → Text
codes String.[] = []
codes (String.◌∷◌ c s) = code c ∷ codes s

abbrev pub text_eq : Text → Text → Bool
text_eq [] [] = true
text_eq [] (_ ∷ _) = false
text_eq (_ ∷ _) [] = false
text_eq (a ∷ s) (b ∷ t) = a == b && text_eq s t

-- `s.isspace()` of a character: tab to carriage return, the separators 28 to 31, and blank.
unfoldable pub is_space : ℕ → Bool
is_space c = (leb 9 c && leb c 13) || (leb 28 c && leb c 32)

unfoldable pub upper_char : ℕ → ℕ
upper_char c = if leb 97 c && leb c 122 then c - 32 else c

-- `s.upper()`
unfoldable pub upper : Text → Text
unfolding upper_char
upper [] = []
upper (c ∷ s) = upper_char c ∷ upper s

-- `s.lstrip()`
unfoldable pub lstrip : Text → Text
unfolding is_space
lstrip [] = []
lstrip (c ∷ s) = if is_space c then lstrip s else c ∷ s

-- `s.strip()`
unfoldable pub strip : Text → Text
unfolding lstrip
strip s = reverse (lstrip (reverse (lstrip s)))

-- Adds a character to the first of the parts.
abbrev pub onto_first : ℕ → List Text → List Text
onto_first c [] = (c ∷ []) ∷ []
onto_first c (p ∷ ps) = (c ∷ p) ∷ ps

-- `s.split(separator)`
unfoldable pub split : ℕ → Text → List Text
split separator [] = [] ∷ []
split separator (c ∷ s) =
    let rest = split separator s in if c == separator then [] ∷ rest else onto_first c rest

-- `re.fullmatch` of a pattern that is a sequence of character classes.
unfoldable pub full_match : List (ℕ → Bool) → Text → Bool
full_match [] [] = true
full_match [] (_ ∷ _) = false
full_match (_ ∷ _) [] = false
full_match (p ∷ ps) (c ∷ s) = p c && full_match ps s

-- `[0-9]`
abbrev pub digit : ℕ → Bool
digit c = leb 48 c && leb c 57

-- A literal piece of a pattern.
abbrev pub literal : Text → List (ℕ → Bool)
literal [] = []
literal (c ∷ s) = (λ x. x == c) ∷ literal s

abbrev pub is_line_end : ℕ → Bool
is_line_end c = (leb 10 c && leb c 13) || (leb 28 c && leb c 30)

-- The lines of a text, with the characters of the current line in reverse, and whether a carriage
-- return stands just before: a line feed behind it ends no further line, and neither does the end
-- of the text.
unfoldable pub lines_from : Bool → Text → Text → List Text
lines_from after_return line [] = if text_eq line [] then [] else reverse line ∷ []
lines_from after_return line (c ∷ s) =
    let paired = after_return && c == 10 in
    let ends = is_line_end c in
    let rest = lines_from (c == 13) (if ends then [] else c ∷ line) s in
    if ends && not paired then reverse line ∷ rest else rest

-- `s.splitlines()`
unfoldable pub splitlines : Text → List Text
unfolding lines_from
splitlines = lines_from false []
