-- ===== src/Base/Paths.antt =====
-- `pathlib.PurePosixPath`, for paths that do not start with exactly two slashes.
pub mod Laws
use Prim.Native.Nat.{ℕ}
use Prim.Native.String.{String}
use mathlib.Core.Bool.{Bool, true, false, not, ◌&&◌, ◌||◌}
use mathlib.Core.List.{List, [], ◌∷◌, ◌++◌}
use tcd_oran_testbed_integra.Base.Tests.{◌==◌, if◌then◌else◌}
use tcd_oran_testbed_integra.Base.Text.{Text, codes, text_eq, split}

pub record FilePath : Type 0 where
  pub is_absolute : Bool
  pub parts : List Text

abbrev pub texts_eq : List Text → List Text → Bool
texts_eq [] [] = true
texts_eq [] (_ ∷ _) = false
texts_eq (_ ∷ _) [] = false
texts_eq (a ∷ s) (b ∷ t) = text_eq a b && texts_eq s t

abbrev pub bool_eq : Bool → Bool → Bool
bool_eq true b = b
bool_eq false b = not b

unfoldable pub path_eq : FilePath → FilePath → Bool
path_eq p q = bool_eq p.is_absolute q.is_absolute && texts_eq p.parts q.parts

-- The parts of a path that are neither empty nor a single dot.
abbrev keep : List Text → List Text
keep [] = []
keep (part ∷ parts) =
    let rest = keep parts in
    if text_eq part [] || text_eq part (codes ".") then rest else part ∷ rest

abbrev starts_with_slash : Text → Bool
starts_with_slash [] = false
starts_with_slash (c ∷ t) = c == 47

unfoldable pub path : Text → FilePath
path t = record { is_absolute = starts_with_slash t; parts = keep (split 47 t) }

-- `p.parent`
abbrev init : List Text → List Text
init [] = []
init (part ∷ []) = []
init (part ∷ next ∷ parts) = part ∷ init (next ∷ parts)

unfoldable pub parent : FilePath → FilePath
parent p = record p { parts = init p.parts }

abbrev last : List Text → Text
last [] = []
last (part ∷ []) = part
last (part ∷ next ∷ parts) = last (next ∷ parts)

-- `p.name`
unfoldable pub name : FilePath → Text
name p = last p.parts

-- `p / part`, for a part that is relative
infixl 40 ◌</>◌
unfoldable pub ◌</>◌ : FilePath → String → FilePath
p </> part = record p { parts = p.parts ++ (path (codes part)).parts }
