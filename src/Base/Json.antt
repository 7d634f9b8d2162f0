-- ===== src/Base/Json.antt =====
-- Parsed JSON, as the values that the source tests with `typeof`.
use Prim.Native.Nat.{ℕ}
use mathlib.Core.Bool.{Bool}
use mathlib.Core.Option.{Option, none, some}
use mathlib.Core.List.{List, [], ◌∷◌}
use surfwright.Base.Tests.{if◌then◌else◌}
use surfwright.Base.Texts.{Text, text_eq}

-- A JavaScript number by what the source reads of it: `finite n exact` is a number from 0 on with
-- floor `n`, an integer where `exact`.
pub data Number : Type 0 where
  finite : ℕ → Bool → Number
  negative not_finite : Number

mutual
  pub data Json : Type 0 where
    null : Json
    bool : Bool → Json
    num : Number → Json
    str : Text → Json
    arr : Items → Json
    obj : Fields → Json

  pub data Items : Type 0 where
    end : Items
    item : Json → Items → Items

  pub data Fields : Type 0 where
    done : Fields
    field : Text → Json → Fields → Fields

abbrev pub items : Items → List Json
items end = []
items (item v vs) = v ∷ items vs

-- The value of a key, `none` for undefined.
unfoldable pub get_field : Text → Fields → Option Json
get_field key done = none
get_field key (field k v rest) = if text_eq k key then some v else get_field key rest

-- A property of a value that `typeof` calls an object: an array has none of those that are read.
abbrev pub property : Text → Json → Option Json
property key (obj fields) = get_field key fields
property key _ = none

-- `typeof value === "string"`.
abbrev pub as_text : Option Json → Option Text
as_text (some (str t)) = some t
as_text _ = none

-- `typeof value === "string" && value.length > 0`.
abbrev pub nonempty : Option Text → Option Text
nonempty (some []) = none
nonempty other = other

abbrev pub filled_text : Option Json → Option Text
filled_text v = nonempty (as_text v)
