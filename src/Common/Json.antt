-- ===== src/Common/Json.antt =====
-- JSON values, and Python's `dict[str, Any]`.
use Prim.Native.Nat.{ℕ}
use Prim.Native.String.{String}
use mathlib.Core.Bool.{Bool}
use mathlib.Core.Option.{Option, none, some}
use mathlib.Core.List.{List, [], ◌∷◌}
use rh_reclaw.Common.Tests.{string_eq, ◌==◌, if◌then◌else◌}

-- `number` is a number that is not a natural one, by its text.
mutual
  pub data Json : Type 0 where
    null : Json
    bool : Bool → Json
    nat : ℕ → Json
    number : String → Json
    text : String → Json
    array : Items → Json
    object : Fields → Json

  pub data Items : Type 0 where
    nil : Items
    cons : Json → Items → Items

  pub data Fields : Type 0 where
    end : Fields
    field : String → Json → Fields → Fields

-- `dict[str, Any]`
abbrev pub Dict : Type 0
Dict = List (String × Json)

-- `d.get(key)`
unfoldable pub get : String → Dict → Option Json
get key [] = none
get key ((k, v) ∷ d) = if k == key then some v else get key d

-- `int(value)` of a validated value; 0 stands for what is no natural number.
unfoldable pub to_int : Option Json → ℕ
to_int (some (nat n)) = n
to_int _ = 0

-- A list of texts.
abbrev pub texts : List String → Items
texts [] = nil
texts (s ∷ ss) = cons (text s) (texts ss)

abbrev pub nats : List ℕ → Items
nats [] = nil
nats (n ∷ ns) = cons (nat n) (nats ns)

abbrev pub nullable : Option ℕ → Json
nullable none = null
nullable (some n) = nat n
