-- ===== src/Base/Json.antt =====
-- What `json.loads` returns, and Python's tests on it. An object has each key once.
use Prim.Native.Nat.{ℕ}
use Prim.Native.String.{String}
use package.text.Mathlib.Text.{◌==◌ as str_eq}
use mathlib.Core.Bool.{Bool, true, false}
use mathlib.Core.Option.{Option, none, some}
use mathlib.Core.List.{List, [], ◌∷◌}
use tcd_oran_testbed_integra.Base.Tests.{◌==◌, if◌then◌else◌}
use tcd_oran_testbed_integra.Base.Text.{Text, codes, text_eq}

-- `number n` is a number, an `int` or a `float`, whose value is the natural number n.
mutual
  pub data Json : Type 0 where
    null other_number : Json
    boolean : Bool → Json
    number : ℕ → Json
    text : Text → Json
    array : Items → Json
    object : Fields → Json

  pub data Items : Type 0 where
    end : Items
    item : Json → Items → Items

  pub data Fields : Type 0 where
    close : Fields
    field : String → Json → Fields → Fields

-- `fields.get(key)`, which is `None` for a key that is not there.
unfoldable pub get : String → Fields → Json
get key close = null
get key (field other value fields) = if str_eq key other then value else get key fields

-- `value == "literal"`
unfoldable pub is_text : Json → String → Bool
is_text (text t) literal = text_eq t (codes literal)
is_text _ literal = false

-- `value == n`: a Boolean is the number 0 or 1.
unfoldable pub is_number : Json → ℕ → Bool
is_number (number m) n = m == n
is_number (boolean true) n = n == 1
is_number (boolean false) n = n == 0
is_number _ n = false

-- `value is False`
unfoldable pub is_false : Json → Bool
is_false (boolean false) = true
is_false _ = false

abbrev pub with_text : Json → Option (List Text) → Option (List Text)
with_text (text t) (some ts) = some (t ∷ ts)
with_text _ _ = none

-- The texts of a list that holds nothing else.
unfoldable pub item_texts : Items → Option (List Text)
item_texts end = some []
item_texts (item value items) = with_text value (item_texts items)

unfoldable pub texts : Json → Option (List Text)
texts (array items) = item_texts items
texts _ = none
