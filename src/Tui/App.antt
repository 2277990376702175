-- ===== src/Tui/App.antt =====
-- internal/tui/app.go: the root of the Bubble Tea program. A panel is a value of an interface, which
-- the section takes as a type with its methods; what a method returns as a command stays opaque.
pub mod Board
pub mod Tabs
use taplytix.Prelude.{
  ℕ, suc, ◌+◌, ◌-◌, ◌*◌, ◌%◌, Bool, true, false, ◌||◌, Option, none, some, List, [], ◌∷◌, map,
  length, set, get_elem?, if◌then◌else◌, ◌==◌, Str, bytes, str_eq,
}
use taplytix.Prelude.Int.{ℤ, pos, leb_ℤ, ltb_ℤ, ◌-ℤ◌, ◌*ℤ◌}
use taplytix.Prelude.Maps.{Map, insert, delete}
use taplytix.Clock.{Time, Duration}
use taplytix.Alert.Rule.{Alert, AlertMsg, fired_msg, resolved_msg, alert_key, key_of}

pub data Msg (F : Type 0) : Type 0 where
  window_size : ℤ → ℤ → Msg F
  -- The text of the key, as `msg.String()` gives it.
  key : Str → Msg F
  tick : Time → Msg F
  alert : AlertMsg F → Msg F
  service_changed : Str → Msg F
  refresh : Time → Msg F
  other_msg : ℕ → Msg F

pub data Cmd (C : Type 0) : Type 0 where
  no_cmd : Cmd C
  quit : Cmd C
  tick_every : Duration → Cmd C
  panel_cmd : C → Cmd C

-- `Update` and `SetSize` of the interface `panels.Panel`. The result of `Update` is `none` where the
-- returned model is not a panel.
pub record Panels (F P C : Type 0) : Type 0 where
  pub update : Msg F → P → Option P × Cmd C
  pub set_size : ℤ → ℤ → P → P

pub record App (F P : Type 0) : Type 0 where
  pub panels : List P
  pub active : ℕ
  pub bar_alerts : ℕ
  pub bar_width : ℤ
  pub width : ℤ
  pub height : ℤ
  pub refresh_every : Duration
  pub source : Str
  pub active_service : Str
  pub alerts : Map (Alert F)

-- The key bindings of internal/tui/keymap.go that `Update` matches.
abbrev pub is_quit : Str → Bool
is_quit k = str_eq k (bytes "q") || str_eq k (bytes "ctrl+c")

abbrev pub is_next_tab : Str → Bool
is_next_tab k = str_eq k (bytes "tab")

abbrev pub is_prev_tab : Str → Bool
is_prev_tab k = str_eq k (bytes "shift+tab")

-- `NewApp`, with the fields of the config that it reads.
unfoldable pub new_app : {F P : Type 0} → ℤ → Str → Option Str → List P → App F P
unfolding ◌*ℤ◌
new_app refresh_ms default_service first_source ps =
    let asked = refresh_ms *ℤ pos 1000000 in
    let src : Str = elim first_source [
      | none ↦ default_service
      | some name ↦ if str_eq default_service [] then name else default_service
    ] in
    record {
      panels = ps;
      active = 0;
      bar_alerts = 0;
      bar_width = pos 0;
      width = pos 0;
      height = pos 0;
      refresh_every = if leb_ℤ asked (pos 0) then pos 500000000 else asked;
      source = src;
      active_service = src;
      alerts = [];
    }

-- `m.alerts` after a message of the engine.
unfoldable pub show_alert : {F : Type 0} → AlertMsg F → Map (Alert F) → Map (Alert F)
show_alert (fired_msg a) alerts = insert (alert_key a) a alerts
show_alert (resolved_msg a) alerts = delete (alert_key a) alerts

module _ {F P C : Type 0} (ops : Panels F P C) where
  abbrev pub kept : P → Option P → P
  kept p none = p
  kept p (some updated) = updated

  -- The loops that send a message to every panel.
  unfoldable pub broadcast : Msg F → List P → List P
  broadcast msg ps = map (λ p. kept p (ops.update msg p).0) ps

  unfoldable pub resize_panels : App F P → App F P
  unfolding ◌-ℤ◌
  resize_panels m =
      let h = m.height -ℤ pos 5 in
      let content_height = if ltb_ℤ h (pos 1) then pos 1 else h in
      record m { panels = map (ops.set_size m.width content_height) m.panels }

  abbrev delegate_at : App F P → Msg F → Option P → Option (App F P × Cmd C)
  delegate_at m msg none = none
  delegate_at m msg (some p) =
      let (updated, cmd) = ops.update msg p in
      some (record m { panels = set m.panels m.active (kept p updated) }, cmd)

  -- `none` is the panic of an index out of range.
  unfoldable pub delegate_to_active : App F P → Msg F → Option (App F P × Cmd C)
  delegate_to_active m msg =
      if length m.panels == 0
      then some (m, no_cmd)
      else delegate_at m msg (get_elem? m.panels m.active)

  -- The remainder by the number of panels panics where there is none.
  unfoldable pub next_tab : App F P → Option (App F P × Cmd C)
  next_tab m =
      if length m.panels == 0
      then none
      else some (record m { active = (m.active + 1) % length m.panels }, no_cmd)

  unfoldable pub prev_tab : App F P → Option (App F P × Cmd C)
  prev_tab m =
      if length m.panels == 0
      then none
      else some (record m { active = (m.active + length m.panels - 1) % length m.panels }, no_cmd)

  unfoldable pub update : App F P → Msg F → Option (App F P × Cmd C)
  unfolding broadcast resize_panels delegate_to_active next_tab prev_tab
  update m (window_size w h) =
      some (resize_panels (record m { width = w; height = h; bar_width = w }), no_cmd)
  update m (key k) =
      if is_quit k
      then some (m, quit)
      else if is_next_tab k
      then next_tab m
      else if is_prev_tab k
      then prev_tab m
      else delegate_to_active m (key k)
  update m (tick t) =
      some (record m { panels = broadcast (refresh t) m.panels }, tick_every m.refresh_every)
  update m (alert msg) =
      let alerts = show_alert msg m.alerts in
      some (record m { alerts = alerts; bar_alerts = length alerts }, no_cmd)
  update m (service_changed svc) = some (
    record m {
      active_service = svc;
      source = svc;
      panels = broadcast (service_changed svc) m.panels;
    },
    no_cmd,
  )
  update m (refresh t) = delegate_to_active m (refresh t)
  update m (other_msg n) = delegate_to_active m (other_msg n)
