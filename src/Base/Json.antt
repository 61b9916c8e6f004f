-- ===== src/Base/Json.antt =====
-- The values that a JSON body holds in Python: None, bool, int, float, str, list and dict.
use Prim.Native.Nat.{ℕ}
use Prim.Native.String.{String}
use mathlib.Core.Bool.{Bool}
use mathlib.Core.Option.{Option, none, some}
use mathlib.Core.List.{List, [], ◌∷◌}
use narsika.Base.Tests.{if◌then◌else◌}
use narsika.Base.Equality.{◌==◌, text_eq}

-- A negative int -(n + 1) is `negative n`; a float is kept by its `repr`.
mutual
  pub data Json : Type 0 where
    null : Json
    bool : Bool → Json
    num : ℕ → Json
    negative : ℕ → Json
    float : String → Json
    str : String → Json
    arr : Items → Json
    obj : Fields → Json

  pub data Items : Type 0 where
    nil : Items
    cons : Json → Items → Items

  pub data Fields : Type 0 where
    end : Fields
    field : String → Json → Fields → Fields

-- `d.get(key)`
unfoldable pub get_field : String → Fields → Option Json
get_field key end = none
get_field key (field k value rest) = if k == key then some value else get_field key rest

-- `set(d)`
unfoldable pub keys : Fields → List String
keys end = []
keys (field k value rest) = k ∷ keys rest

-- `list(xs)`
unfoldable pub items : Items → List Json
items nil = []
items (cons x xs) = x ∷ items xs

-- `{**d, key: value}`: a key keeps its place, and a new one comes last
unfoldable pub set_field : String → Json → Fields → Fields
set_field key value end = field key value end
set_field key value (field k v rest) =
    let later = set_field key value rest in if k == key then field k value rest else field k v later
