-- ===== src/Tests/Screens.antt =====
-- The root model with three panels.
use taplytix.Prelude.{ℕ, [], ◌∷◌, some, bytes}
use taplytix.Prelude.Int.{pos}
use taplytix.Floats.Exact.{Exact}
use taplytix.Tui.App.{App, Panels, no_cmd, update}

-- Panels that count the messages they get.
abbrev counting : Panels Exact ℕ ℕ
counting = record { update = λ msg n. (some n, no_cmd); set_size = λ w h n. n }

abbrev three_tabs : App Exact ℕ
three_tabs = record {
  panels = 1 ∷ 2 ∷ 3 ∷ [];
  active = 2;
  bar_alerts = 0;
  bar_width = pos 80;
  width = pos 80;
  height = pos 24;
  refresh_every = pos 500000000;
  source = bytes "api";
  active_service = bytes "api";
  alerts = [];
}
