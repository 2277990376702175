-- ===== src/Panels/Logs/Shown.antt =====
-- What the logs panel shows.
use taplytix.Prelude.{◌≡◌, Bool, ◌&&◌, List, length, count_if}
use taplytix.Prelude.Sort.{IsSorted}
use taplytix.Model.{LogEvent}
use taplytix.Store.Services.{Store}
use taplytix.Panels.Logs.{LogsPanel, Filter, older, passes}

-- What a refresh shows: the log events of the panel's services that pass the filter, every one as
-- often as it is there, oldest first; and how many there are, before and after the filter.
pub record IsView (all : List LogEvent) (f : Filter) (p : LogsPanel) : Type 0 where
  pub ordered : IsSorted older p.shown
  pub exact : (q : LogEvent → Bool) → count_if q p.shown ≡ count_if (λ e. passes f e && q e) all
  pub totals : (p.total_count ≡ length all) × (p.shown_count ≡ length p.shown)
