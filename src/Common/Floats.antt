-- ===== src/Common/Floats.antt =====
-- Python's float, as far as the nodes use it. The arithmetic of doubles is not modelled: a node
-- takes the type and its operations as this record, and a theorem holds for every choice of them.
use mathlib.Core.Bool.{Bool}
use mathlib.Core.List.{List}
use Prim.Native.Nat.{ℕ}
use digital_twin_based_on_un.Common.Tests.{if◌then◌else◌}
use digital_twin_based_on_un.Common.Int.{ℤ, pos}

pub record Floats (F : Type 0) : Type 0 where
  -- `float(n)`, and the operators
  pub of_int : ℤ → F
  pub add : F → F → F
  pub sub : F → F → F
  pub mul : F → F → F
  pub div : F → F → F
  pub pow : F → ℕ → F
  -- a < b and a <= b, false when either is not a number
  pub lt : F → F → Bool
  pub le : F → F → Bool
  pub abs : F → F
  -- `int(x)`
  pub truncate : F → ℤ
  -- the literal with these digits and so many of them behind the point
  pub decimal : ℤ → ℕ → F
  -- the literals 1e-9, 1e9 and 0.5
  pub nano : F
  pub giga : F
  pub half : F
  -- of the module `math`
  pub sqrt : F → F
  pub sin : F → F
  pub cos : F → F
  pub degrees : F → F
  -- `struct.unpack(">d", bytes)` and `struct.pack(">d", x)`
  pub unpack_double : List ℕ → F
  pub pack_double : F → List ℕ

module _ {F : Type 0} ⦃fl : Floats F⦄ where
  abbrev pub fl_zero : F
  fl_zero = fl.of_int (pos 0)

  -- `max(a, b)`: the first argument unless the second is greater.
  abbrev pub fl_max : F → F → F
  fl_max a b = if fl.lt a b then b else a

  -- Seconds from a clock reading in nanoseconds.
  abbrev pub seconds : ℕ → F
  seconds ns = fl.mul (fl.of_int (pos ns)) fl.nano
