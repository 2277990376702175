-- ===== src/Render/Waterfall.antt =====
-- internal/render/waterfall.go: the bar of a span, in eighths of a cell.
pub mod Width
use taplytix.Prelude.{
  ℕ, ◌+◌, ◌-◌, ◌*◌, ◌/◌, ◌%◌, Bool, List, [], ◌∷◌, ◌++◌, length, take, replicate, if◌then◌else◌,
  ltb, leb,
}
use taplytix.Prelude.Int.{ℤ, pos, pos_part, leb_ℤ, ltb_ℤ}
use taplytix.Clock.{Time, Duration, sub_time}
use taplytix.Floats.{Floats}
use taplytix.Model.{SpanEvent}
use taplytix.Render.Cells.{Cell, blank, block, Rounding}

-- `offsetUnits` after its two guards.
abbrev pub clamp_offset : ℤ → ℕ → ℕ
clamp_offset offset total = if ltb_ℤ (pos total) offset then total else pos_part offset

-- `durUnits` after its two guards.
abbrev pub clamp_length : ℕ → ℤ → ℕ → ℕ
clamp_length offset dur total =
    let d = if ltb_ℤ dur (pos 1) then 1 else pos_part dur in
    if ltb total (offset + d) then total - offset else d

-- The cells before padding: whole blank cells, a partial block for the start, whole blocks, one fewer
-- where there is a partial start, and a partial block for the end.
unfoldable pub draw : ℕ → ℕ → List Cell
draw offset dur =
    let full = if ltb 0 (offset % 8) then dur / 8 - 1 else dur / 8 in
    replicate (offset / 8) blank
    ++ ((if ltb 0 (offset % 8) then block (offset % 8) ∷ [] else [])
        ++ (replicate full (block 8) ++ (if ltb 0 (dur % 8) then block (dur % 8) ∷ [] else [])))

-- Padding to the width, or cutting to it.
unfoldable pub fit : ℕ → List Cell → List Cell
fit width cells =
    if ltb (length cells) width
    then cells ++ replicate (width - length cells) blank
    else if ltb width (length cells)
    then take width cells
    else cells

module _ {F : Type 0} (fl : Floats F) (rd : Rounding F) where
  abbrev pub units : ℤ → ℤ → ℕ → ℤ
  units part total all =
      rd.to_int (fl.mul (fl.div (fl.of_int part) (fl.of_int total)) (fl.of_int (pos all)))

  unfoldable pub build_bar : SpanEvent → Time → Duration → ℤ → List Cell
  unfolding draw fit
  build_bar s trace_start total width =
      if leb_ℤ total (pos 0)
      then replicate (pos_part width) blank
      else if leb_ℤ width (pos 0)
      then replicate (pos_part width) blank
      else let w = pos_part width in
        let all = w * 8 in
        let offset = clamp_offset (units (sub_time s.start_time trace_start) total all) all in
        let dur = clamp_length offset (units s.duration total all) all in fit w (draw offset dur)
