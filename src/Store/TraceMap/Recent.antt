-- ===== src/Store/TraceMap/Recent.antt =====
-- `Recent` returns the newest traces, newest first.
use taplytix.Prelude.{◌+◌, ◌≡◌, Bool, false, List, All, count_if}
use taplytix.Prelude.Sort.{IsSorted}
use taplytix.Model.{Trace}
use taplytix.Store.TraceMap.{TraceMap, newer}

-- How `shown` comes from `all`: newest first, by leaving out only traces that are not newer.
pub record IsNewest (all shown left_out : List Trace) : Type 0 where
  pub ordered : IsSorted newer shown
  pub newest : All (λ a. All (λ b. newer b a ≡ false) left_out) shown
  pub complete : (p : Trace → Bool) → count_if p shown + count_if p left_out ≡ count_if p all
