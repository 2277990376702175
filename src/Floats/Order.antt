-- ===== src/Floats/Order.antt =====
-- The order that `sort.Float64s` sorts by is one that package sort accepts.
use taplytix.Prelude.{◌≡◌, true, false, arith}
use taplytix.Prelude.Sort.{IsWeakOrder}
use taplytix.Floats.{Floats, IsOrdered, float_less}

module _ {F : Type 0} {fl : Floats F} (w : IsOrdered fl) where
  float_less_asym : (a b : F) → float_less fl a b ≡ true → float_less fl b a ≡ false
  unfolding float_less
  float_less_asym a b h = ground (arith, w.lt_asym a b, w.lt_nan a b, w.lt_nan b a)

  float_less_trans :
      (a b c : F)
      → float_less fl b a ≡ false
      → float_less fl c b ≡ false
      → float_less fl c a ≡ false
  unfolding float_less
  float_less_trans a b c h k = ground (arith, w.lt_nan c a, w.lt_cotrans c b a)

  pub float_less-IsWeakOrder : IsWeakOrder (float_less fl)
  float_less-IsWeakOrder = record { asym = float_less_asym; trans = float_less_trans }
