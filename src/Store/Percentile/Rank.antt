-- ===== src/Store/Percentile/Rank.antt =====
-- What rank among the samples `Percentile` returns.
use taplytix.Prelude.{ℕ, suc, ◌-◌, ◌≤◌, ◌<◌, Bool, not, List, length, count_if, if◌then◌else◌}
use taplytix.Prelude.Int.{pos}
use taplytix.Floats.{Floats, le}
use taplytix.Store.Percentile.{raw_index, clamp_index}

-- `v` has rank `k` (from 0) among `xs`: `k + 1` of them are not above it, and all but `k` are not
-- below it.
pub record IsRank {ℓ} {A : Type ℓ} (less : A → A → Bool) (xs : List A) (k : ℕ) (v : A)
    : Type 0 where
  pub index : k < length xs
  pub above : suc k ≤ count_if (λ x. not (less v x)) xs
  pub below : length xs - k ≤ count_if (λ x. not (less x v)) xs

module _ {F : Type 0} (fl : Floats F) where
  -- The index that the percentile `p` of `n` samples has in their sorted order.
  unfoldable pub nearest_rank : F → ℕ → ℕ
  unfolding clamp_index
  nearest_rank p n =
      if le fl p (fl.of_int (pos 0))
      then 0
      else if le fl (fl.of_int (pos 100)) p
      then n - 1
      else clamp_index (raw_index fl p n) n
