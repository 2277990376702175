-- ===== src/Panels/Logs/Updates.antt =====
-- The messages of internal/tui/panels/logs.go: the filter as it is typed, and scrolling. The text input
-- and the viewport of the bubbles module are parameters; the viewport is given the events whose lines
-- are its content, and drawing them is left out. `textinput.Blink`, a command, is left out too.
pub mod Follows
use taplytix.Prelude.{
  ℕ, Bool, true, false, not, ◌&&◌, ◌||◌, List, [], ◌∷◌, if◌then◌else◌, Str, bytes, str_eq,
}
use taplytix.Prelude.Int.{ℤ, pos, ltb_ℤ, leb_ℤ, ◌-ℤ◌}
use taplytix.Model.{LogEvent}
use taplytix.Store.Services.{Store}
use taplytix.Panels.Logs
use taplytix.Panels.Logs.{LogsPanel}

pub data Msg : Type 0 where
  refresh_msg : Msg
  service_changed : Str → Msg
  key : Str → Msg
  other_msg : Msg

-- The operations of viewport.Model, and `Update` of textinput.Model on the text.
pub record Widgets (V : Type 0) : Type 0 where
  pub at_bottom : V → Bool
  pub goto_bottom : V → V
  pub set_content : List LogEvent → V → V
  pub set_height : ℤ → V → V
  pub view_update : Msg → V → V
  pub type_key : Str → Str → Str

pub record Panel (V : Type 0) : Type 0 where
  -- The service, the text of the filter, and what is shown.
  pub base : LogsPanel
  pub filtering : Bool
  pub auto_scroll : Bool
  pub vp : V

abbrev pub new_logs : {V : Type 0} → V → Panel V
new_logs v = record {
  base = record { service = []; filter = []; shown = []; total_count = 0; shown_count = 0 };
  filtering = false;
  auto_scroll = true;
  vp = v;
}

abbrev pub is_up : Str → Bool
is_up k = str_eq k (bytes "up") || str_eq k (bytes "k") || str_eq k (bytes "pgup")

abbrev pub with_filter : {V : Type 0} → Str → Panel V → Panel V
with_filter text p = record p { base = record p.base { filter = text } }

module _ {V : Type 0} (ws : Widgets V) where
  unfoldable pub set_size : ℤ → ℤ → Panel V → Panel V
  set_size w h p =
      let rest = h -ℤ pos 2 in
      if leb_ℤ w (pos 0) || leb_ℤ h (pos 0)
      then p
      else record p { vp = ws.set_height (if ltb_ℤ rest (pos 1) then pos 1 else rest) p.vp }

  unfoldable pub refresh : {F : Type 0} → Store F → Panel V → Panel V
  unfolding Logs.refresh
  refresh st p =
      let base = Logs.refresh st p.base in
      let vp = ws.set_content base.shown p.vp in
      record p { base = base; vp = if p.auto_scroll then ws.goto_bottom vp else vp }

  -- Keys while the filter is typed.
  unfoldable pub filter_key : {F : Type 0} → Store F → Str → Panel V → Panel V
  unfolding refresh
  filter_key st k p =
      if str_eq k (bytes "esc")
      then refresh st (with_filter [] (record p { filtering = false }))
      else if str_eq k (bytes "enter")
      then record p { filtering = false }
      else refresh st (with_filter (ws.type_key k p.base.filter) p)

  -- The end of `Update`.
  abbrev pub pass_on : Msg → Panel V → Panel V
  pass_on m p =
      let vp = ws.view_update m p.vp in record p { vp = vp; auto_scroll = ws.at_bottom vp }

  unfoldable pub scroll_key : Str → Panel V → Panel V
  scroll_key k p =
      if str_eq k (bytes "/")
      then record p { filtering = true }
      else if str_eq k (bytes "G")
      then record p { auto_scroll = true; vp = ws.goto_bottom p.vp }
      else pass_on (key k) (if is_up k then record p { auto_scroll = false } else p)

  unfoldable pub update : {F : Type 0} → Store F → Msg → Panel V → Panel V
  unfolding refresh filter_key scroll_key
  update st refresh_msg p = refresh st p
  update st (service_changed svc) p =
      refresh st (record p { base = record p.base { service = svc } })
  update st (key k) p = if p.filtering then filter_key st k p else scroll_key k p
  update st other_msg p = pass_on other_msg p
