-- ===== src/Store/Percentile.antt =====
-- internal/store/percentile.go: the nearest-rank percentile of a list of samples.
pub mod Rank
use taplytix.Prelude.{ℕ, ◌-◌, List, [], ◌∷◌, length, get_or, if◌then◌else◌}
use taplytix.Prelude.Int.{ℤ, pos, pos_part, ltb_ℤ, leb_ℤ, ◌-ℤ◌}
use taplytix.Prelude.Sort.{sort_by}
use taplytix.Floats.{Floats, le, float_less}

-- The two tests that keep the index inside the slice.
unfoldable pub clamp_index : ℤ → ℕ → ℕ
clamp_index idx n =
    if ltb_ℤ idx (pos 0) then 0 else if leb_ℤ (pos n) idx then n - 1 else pos_part idx

module _ {F : Type 0} (fl : Floats F) where
  -- `int(math.Ceil(p/100*float64(n))) - 1`
  unfoldable pub raw_index : F → ℕ → ℤ
  unfolding ◌-ℤ◌
  raw_index p n = fl.ceil (fl.mul (fl.div p (fl.of_int (pos 100))) (fl.of_int (pos n))) -ℤ pos 1

  unfoldable pub percentile : List F → F → F
  unfolding clamp_index
  percentile [] p = fl.of_int (pos 0)
  percentile (v ∷ vs) p =
      let cp = sort_by (float_less fl) (v ∷ vs) in
      let n = length cp in
      if le fl p (fl.of_int (pos 0))
      then get_or cp 0 v
      else if le fl (fl.of_int (pos 100)) p
      then get_or cp (n - 1) v
      else get_or cp (clamp_index (raw_index p n) n) v
