-- ===== src/Floats.antt =====
-- float64 is a parameter: a type with the operations that the program uses. Their IEEE 754 laws are
-- hypotheses of the theorems that need them.
pub mod Exact
pub mod Order
use taplytix.Prelude.{ℕ, ◌≡◌, Bool, true, false, not, ◌&&◌, ◌||◌}
use taplytix.Prelude.Int.{ℤ}

pub record Floats (F : Type 0) : Type 0 where
  pub of_int : ℤ → F
  pub add : F → F → F
  pub sub : F → F → F
  pub mul : F → F → F
  pub div : F → F → F
  pub lt : F → F → Bool
  pub eq : F → F → Bool
  -- `int(math.Ceil(x))`
  pub ceil : F → ℤ

module _ {F : Type 0} (fl : Floats F) where
  -- `x != x`
  abbrev pub is_nan : F → Bool
  is_nan x = not (fl.eq x x)

  abbrev pub le : F → F → Bool
  le x y = fl.lt x y || fl.eq x y

  -- The order of `sort.Float64s`: NaN values come before other values.
  unfoldable pub float_less : F → F → Bool
  float_less x y = fl.lt x y || (is_nan x && not (is_nan y))

  -- What IEEE 754 says of `<` and `==`. A comparison with NaN is false.
  pub record IsOrdered : Type 0 where
    pub lt_asym : (x y : F) → fl.lt x y ≡ true → fl.lt y x ≡ false
    pub lt_nan : (x y : F) → fl.lt x y ≡ true → (is_nan x ≡ false) × (is_nan y ≡ false)
    pub lt_cotrans :
        (x y z : F) → is_nan y ≡ false → fl.lt x z ≡ true → (fl.lt x y || fl.lt y z) ≡ true
    pub trichotomy :
        (x y : F) → is_nan x ≡ false → is_nan y ≡ false → fl.eq x y ≡ not (fl.lt x y || fl.lt y x)
