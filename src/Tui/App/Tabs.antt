-- ===== src/Tui/App/Tabs.antt =====
-- The bounds that keep the root model from panicking, and the tab keys as inverses.
use taplytix.Prelude.{ℕ, ◌+◌, ◌-◌, ◌%◌, ◌<◌, ◌≡◌, false, Option, some, length, ◌==◌, arith}
use taplytix.Tui.App.{Cmd, Panels, App, next_tab, prev_tab, no_cmd}

next-prev_index : (a n : ℕ) → a < n → ((a + 1) % n + n - 1) % n ≡ a
next-prev_index a n h = grind arith

prev-next_index : (a n : ℕ) → a < n → ((a + n - 1) % n + 1) % n ≡ a
prev-next_index a n h = grind arith

-- What the constructor sets up and the updates maintain.
pub record IsReady {F P : Type 0} (m : App F P) : Type 0 where
  pub active_in_range : m.active < length m.panels
  pub bar_counts : m.bar_alerts ≡ length m.alerts

module _ {F P C : Type 0} (ops : Panels F P C) where
  -- The update goes through, keeps the number of panels and leaves the model ready.
  abbrev pub Goes : App F P → Option (App F P × Cmd C) → Type 0
  Goes m r =
      (m' : App F P) × (c : Cmd C) × (r ≡ some (m', c))
      × IsReady m'
      × (length m'.panels ≡ length m.panels)

  -- `tab` and `shift+tab` undo one another: from a model whose active index is in range each goes
  -- through, changes nothing but the active panel, and the other one leads back.
  pub next-prev :
      (m : App F P)
      → m.active < length m.panels
      → ((m' : App F P) × (next_tab ops m ≡ some (m', no_cmd))
          × (prev_tab ops m' ≡ some (m, no_cmd)))
        × ((m' : App F P) × (prev_tab ops m ≡ some (m', no_cmd))
            × (next_tab ops m' ≡ some (m, no_cmd)))
  unfolding next_tab prev_tab
  next-prev m h =
      let there : ((m.active + 1) % length m.panels + length m.panels - 1) % length m.panels
          ≡ m.active =
        next-prev_index m.active (length m.panels) h in
      let back : ((m.active + length m.panels - 1) % length m.panels + 1) % length m.panels
          ≡ m.active =
        prev-next_index m.active (length m.panels) h in
      let some_panel : (length m.panels == 0) ≡ false = ground arith in
      (
        (
          record m { active = (m.active + 1) % length m.panels },
          rw some_panel,
          rw (some_panel, there),
        ),
        (
          record m { active = (m.active + length m.panels - 1) % length m.panels },
          rw some_panel,
          rw (some_panel, back),
        ),
      )
