-- ===== src/Prelude/Json.antt =====
-- JSON values (`serde_json::Value`) and what the code reads of them. `F` stands for `f64`. An object is
-- a list of fields, of which a key finds the first; the keys of the code's objects are distinct.
use Prim.Native.Nat.{ℕ}
use Prim.Native.String.{String}
use mathlib.Core.Bool.{Bool}
use mathlib.Core.List.{List, [], ◌∷◌}
use mathlib.Core.Option.{Option, none, some}
use text.Mathlib.Text.{◌==◌}
use smart_llm_gateway.Prelude.Tests.{if◌then◌else◌}

-- A number is a `u64`, a negative `i64` (`negative n` is -(n + 1)), or an `f64`.
pub data Number (F : Type 0) : Type 0 where
  natural : ℕ → Number F
  negative : ℕ → Number F
  float : F → Number F

mutual
  pub data Json (F : Type 0) : Type 0 where
    null : Json F
    bool : Bool → Json F
    number : Number F → Json F
    string : String → Json F
    array : Items F → Json F
    object : Fields F → Json F

  pub data Items (F : Type 0) : Type 0 where
    nil : Items F
    cons : Json F → Items F → Items F

  pub data Fields (F : Type 0) : Type 0 where
    end : Fields F
    field : String → Json F → Fields F → Fields F

module _ {F : Type 0} where
  -- `object.get(key)`
  abbrev pub get : String → Fields F → Option (Json F)
  get k end = none
  get k (field j v o) = if j == k then some v else get k o

  abbrev pub as_str : Json F → Option String
  as_str (string s) = some s
  as_str _ = none

  abbrev pub as_object : Json F → Option (Fields F)
  as_object (object o) = some o
  as_object _ = none

  abbrev pub as_u64 : Json F → Option ℕ
  as_u64 (number (natural n)) = some n
  as_u64 _ = none

  -- `object.keys()`
  abbrev pub keys : Fields F → List String
  keys end = []
  keys (field k v o) = k ∷ keys o
