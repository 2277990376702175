-- ===== src/Floats/Exact.antt =====
-- A small number type that meets the laws: thousandths from 0 up, and a NaN. Tests and witnesses run
-- the program on it.
use taplytix.Prelude.{
  ℕ, ◌+◌, ◌-◌, ◌*◌, ◌/◌, ◌≡◌, Bool, true, false, not, ◌||◌, ltb, ◌==◌, if◌then◌else◌, arith,
}
use taplytix.Prelude.Int.{ℤ, pos, pos_part}
use taplytix.Floats.{Floats, IsOrdered, is_nan}

pub data Exact : Type 0 where
  nan : Exact
  milli : ℕ → Exact

abbrev lift : (ℕ → ℕ → Exact) → Exact → Exact → Exact
lift f (milli a) (milli b) = f a b
lift f _ _ = nan

abbrev test : (ℕ → ℕ → Bool) → Exact → Exact → Bool
test f (milli a) (milli b) = f a b
test f _ _ = false

abbrev ceiling : Exact → ℤ
ceiling nan = pos 0
ceiling (milli a) = pos ((a + 999) / 1000)

abbrev pub exact : Floats Exact
exact = record {
  of_int = λ n. milli (pos_part n * 1000);
  add = lift (λ a b. milli (a + b));
  sub = lift (λ a b. milli (a - b));
  mul = lift (λ a b. milli (a * b / 1000));
  div = lift (λ a b. if b == 0 then nan else milli (a * 1000 / b));
  lt = test ltb;
  eq = test ◌==◌;
  ceil = ceiling;
}

asym : (x y : Exact) → exact.lt x y ≡ true → exact.lt y x ≡ false
asym x y h = ground arith

no_nan : (x y : Exact) → exact.lt x y ≡ true → (is_nan exact x ≡ false) × (is_nan exact y ≡ false)
no_nan x y h = ground arith

cotrans :
    (x y z : Exact)
    → is_nan exact y ≡ false
    → exact.lt x z ≡ true
    → (exact.lt x y || exact.lt y z) ≡ true
cotrans x y z h k = ground arith

trichotomy :
    (x y : Exact)
    → is_nan exact x ≡ false
    → is_nan exact y ≡ false
    → exact.eq x y ≡ not (exact.lt x y || exact.lt y x)
trichotomy x y h k = ground arith

pub exact-IsOrdered : IsOrdered exact
exact-IsOrdered = record {
  lt_asym = asym;
  lt_nan = no_nan;
  lt_cotrans = cotrans;
  trichotomy = trichotomy;
}
