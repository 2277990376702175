-- ===== src/Panels/Traces/Updates.antt =====
-- The messages of internal/tui/panels/traces.go, its layout, and what its viewport shows. The list of
-- the bubbles module is a parameter; what a viewport does with a message is where it is scrolled to, and
-- is left out. A waterfall is given by what it is drawn from.
pub mod Shown
use taplytix.Prelude.{
  ℕ, suc, ◌+◌, ◌*◌, ◌/◌, Bool, true, false, not, ◌&&◌, ◌||◌, Option, none, some, List, [], ◌∷◌,
  length, get_elem?, if◌then◌else◌, ◌==◌, Str, bytes, str_eq,
}
use taplytix.Prelude.Int.{ℤ, pos, negsuc, ltb_ℤ, leb_ℤ, ◌-ℤ◌}
use taplytix.Clock.{Duration}
use taplytix.Model.{SpanEvent, Trace}
use taplytix.Store.Services.{Store}
use taplytix.Panels.Traces
use taplytix.Panels.Traces.{Ref, TracesPanel, selected_id, slowest_span}

pub data Msg : Type 0 where
  refresh_msg : Msg
  service_changed : Str → Msg
  key : Str → Msg
  other_msg : Msg

-- The operations of list.Model.
pub record ListModel (L : Type 0) : Type 0 where
  pub index : L → ℕ
  pub set_items : List Ref → L → L
  pub select : ℕ → L → L
  pub set_size : ℤ → ℤ → L → L
  pub list_update : Msg → L → L

pub data Content : Type 0 where
  blank no_trace no_root : Content
  -- The trace, the width, the time that the bars are measured by, and the span in bold.
  waterfall : Ref → ℤ → Duration → Option SpanEvent → Content

pub record Panel (L : Type 0) : Type 0 where
  pub base : TracesPanel
  pub width : ℤ
  pub height : ℤ
  pub expanded : Bool
  pub tlist : L
  pub vp_width : ℤ
  pub vp_height : ℤ
  pub content : Content

abbrev pub new_traces : {L : Type 0} → L → Panel L
new_traces l = record {
  base = record { service = []; traces = []; selected = 0 };
  width = pos 0;
  height = pos 0;
  expanded = false;
  tlist = l;
  vp_width = pos 0;
  vp_height = pos 0;
  content = blank;
}

-- `h * 30 / 100`, rounded towards 0.
abbrev pub thirty_percent : ℤ → ℤ
thirty_percent (pos h) = pos (h * 30 / 100)
thirty_percent (negsuc h) = pos 0 -ℤ pos (suc h * 30 / 100)

abbrev pub list_height : ℤ → ℤ
list_height h =
    let part = thirty_percent h in
    let most = h -ℤ pos 5 in
    let least = if ltb_ℤ part (pos 5) then pos 5 else part in
    if ltb_ℤ most least then most else least

abbrev pub view_height : ℤ → ℤ
view_height h = let rest = h -ℤ list_height h -ℤ pos 2 in if ltb_ℤ rest (pos 1) then pos 1 else rest

abbrev pub positive_or : ℤ → ℤ → ℤ
positive_or default n = if leb_ℤ n (pos 0) then default else n

abbrev pub content_by : Ref → ℤ → Option SpanEvent → Content
content_by r width none = no_root
content_by r width (some root) =
    waterfall r (positive_or (pos 80) width) (positive_or (pos 1000000) r.trace.duration)
      (slowest_span r.trace)

-- What `renderWaterfall` puts into a viewport of this width.
unfoldable pub content_of : TracesPanel → ℤ → Content
content_of p width = elim (get_elem? p.traces p.selected) [
  | none ↦ no_trace
  | some r ↦ content_by r width r.trace.root
]

-- Whether the loop of `refresh` finds the trace that was selected.
unfoldable pub is_listed : Str → List Ref → Bool
is_listed id [] = false
is_listed id (r ∷ refs) = str_eq r.trace.trace_id id || is_listed id refs

module _ {L : Type 0} (lm : ListModel L) where
  unfoldable pub relayout : Panel L → Panel L
  relayout p =
      if leb_ℤ p.width (pos 0) || leb_ℤ p.height (pos 0)
      then p
      else if p.expanded
      then record p {
        tlist = lm.set_size p.width (pos 0) p.tlist;
        vp_width = p.width;
        vp_height = p.height;
      }
      else record p {
        tlist = lm.set_size p.width (list_height p.height) p.tlist;
        vp_width = p.width;
        vp_height = view_height p.height;
      }

  unfoldable pub set_size : ℤ → ℤ → Panel L → Panel L
  unfolding relayout
  set_size w h p = relayout (record p { width = w; height = h })

  abbrev pub render_waterfall : Panel L → Panel L
  render_waterfall p = record p { content = content_of p.base p.vp_width }

  -- The list is told the selection only where the trace that was selected is found.
  unfoldable pub refresh : {F : Type 0} → Store F → Panel L → Panel L
  unfolding Traces.refresh is_listed content_of
  refresh st p =
      let base = Traces.refresh st p.base in
      let items = lm.set_items base.traces p.tlist in
      let id = selected_id p.base in
      render_waterfall (record p {
        base = base;
        tlist =
            if not (str_eq id []) && is_listed id base.traces
            then lm.select base.selected items
            else items;
      })

  abbrev pub expand : Bool → Panel L → Panel L
  expand b p = render_waterfall (relayout (record p { expanded = b }))

  -- The list has a message; where its index has moved, so has the selection.
  abbrev pub follow_list : L → Panel L → Panel L
  follow_list l p =
      if lm.index l == p.base.selected
      then record p { tlist = l }
      else render_waterfall (record p { base = record p.base { selected = lm.index l }; tlist = l })

  unfoldable pub pass_on : Msg → Panel L → Panel L
  pass_on m p = if p.expanded then p else follow_list (lm.list_update m p.tlist) p

  unfoldable pub update : {F : Type 0} → Store F → Msg → Panel L → Panel L
  unfolding refresh relayout content_of pass_on
  update st refresh_msg p = refresh st p
  update st (service_changed svc) p =
      refresh st (record p { base = record p.base { service = svc } })
  update st (key k) p =
      if str_eq k (bytes "enter")
      then (if length p.base.traces == 0 then p else expand (not p.expanded) p)
      else if str_eq k (bytes "esc")
      then (if p.expanded then expand false p else p)
      else pass_on (key k) p
  update st other_msg p = pass_on other_msg p

-- What happens to the panel: a message, with the store as it is then, or a new size.
pub data Event (F : Type 0) : Type 0 where
  message : Store F → Msg → Event F
  resize : ℤ → ℤ → Event F

module _ {L : Type 0} (lm : ListModel L) {F : Type 0} where
  abbrev pub step : Event F → Panel L → Panel L
  step (message st m) p = update lm st m p
  step (resize w h) p = set_size lm w h p
