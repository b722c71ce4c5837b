-- ===== src/Services/Json.antt =====
-- JSON values as the Python code holds them, `dict` and `list` included. A number that is not a
-- natural is kept as its literal.
use text.Mathlib.Text.{◌==◌ as str_eq}
use catlabel.Prelude.{ℕ, Bool, true, false, Option, none, some, ◌==◌, if◌then◌else◌}
use Prim.Native.String.{String}

mutual
  pub data Json : Type 0 where
    null : Json
    flag : Bool → Json
    num : ℕ → Json
    literal : String → Json
    str : String → Json
    arr : Items → Json
    obj : Fields → Json

  pub data Items : Type 0 where
    nil : Items
    cons : Json → Items → Items

  pub data Fields : Type 0 where
    end : Fields
    field : String → Json → Fields → Fields

-- `d.get(key)`
unfoldable pub get : Fields → String → Option Json
get end key = none
get (field k v fields) key = if str_eq k key then some v else get fields key

-- `d[key] = value`
unfoldable pub put : Fields → String → Json → Fields
put end key value = field key value end
put (field k v fields) key value =
    if str_eq k key then field k value fields else field k v (put fields key value)

-- `value == text` and `value == number`, for what `d.get(key)` returned.
abbrev pub equals_text : Option Json → String → Bool
equals_text (some (str s)) text = str_eq s text
equals_text _ text = false

-- In Python `True == 1` and `False == 0`.
abbrev pub equals_number : Option Json → ℕ → Bool
equals_number (some (num n)) number = n == number
equals_number (some (flag true)) number = number == 1
equals_number (some (flag false)) number = number == 0
equals_number _ number = false
