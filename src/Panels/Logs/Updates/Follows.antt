-- ===== src/Panels/Logs/Updates/Follows.antt =====
-- While the newest lines of the panel of internal/tui/panels/logs.go are followed, they are in sight; and
-- what is typed into the filter is what the lines are filtered by.
use taplytix.Prelude.{◌≡◌, true}
use taplytix.Store.Services.{Store}
use taplytix.Panels.Logs
use taplytix.Panels.Logs.{LogsPanel}
use taplytix.Panels.Logs.Updates.{Widgets, Panel, refresh}

-- What the panel has is what a refresh by its service and its filter gives, of some store.
abbrev pub IsCurrent : Type 0 → LogsPanel → Type 0
IsCurrent F b = (st : Store F) × (b ≡ Logs.refresh st b)

module _ {V : Type 0} (ws : Widgets V) (F : Type 0) where
  -- The lines are those of the filter, and where the newest ones are followed they are in sight.
  abbrev pub Shows : Panel V → Type 0
  Shows p = IsCurrent F p.base × (p.auto_scroll ≡ true → ws.at_bottom p.vp ≡ true)
