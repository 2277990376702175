-- ===== src/Render/Waterfall/Width.antt =====
-- The bar fills its width exactly, and when it is cut to do so.
use taplytix.Prelude.{
  ℕ, ◌+◌, ◌-◌, ◌*◌, ◌/◌, ◌%◌, ◌≤◌, ◌<◌, ◌≡◌, List, length, replicate, arith, length-append,
  length-take, length-replicate, if◌then◌else◌, ltb, Bool, true, false,
}
use taplytix.Prelude.Int.{ℤ, pos, pos_part, leb_ℤ}
use taplytix.Clock.{Time, Duration}
use taplytix.Floats.{Floats}
use taplytix.Model.{SpanEvent}
use taplytix.Render.Cells.{Cell, blank, Rounding}
use taplytix.Render.Waterfall.{draw, fit, build_bar}

length-fit : (w : ℕ) (cells : List Cell) → length (fit w cells) ≡ w
unfolding fit
length-fit w cells = ground (
  arith,
  length-append cells (replicate (w - length cells) blank),
  length-replicate (w - length cells) blank,
  length-take w cells,
)

guarded :
    (empty thin : Bool) (w : ℕ) (cells : List Cell)
    → length (if empty then replicate w blank else if thin then replicate w blank else fit w cells)
      ≡ w
guarded true thin w cells = length-replicate w blank
guarded false true w cells = length-replicate w blank
guarded false false w cells = length-fit w cells

-- The bar of a span is exactly as wide as was asked for, and empty for a width that is not positive.
pub length-build_bar :
    {F : Type 0} (fl : Floats F) (rd : Rounding F) (s : SpanEvent) (trace_start : Time)
    (total : Duration) (width : ℤ)
    → length (build_bar fl rd s trace_start total width) ≡ pos_part width
unfolding build_bar
length-build_bar fl rd s trace_start total width =
    guarded (leb_ℤ total (pos 0)) (leb_ℤ width (pos 0)) (pos_part width) _

-- The cut is needed: a span of less than a cell that starts inside the last cell is drawn as its start
-- and its end, one cell too many.
pub draw_overflows :
    (w f t : ℕ)
    → 0 < f
    → f + t ≤ 8
    → 0 < t
    → t < 8
    → (w * 8 + f + t ≤ (w + 1) * 8) × (length (draw (w * 8 + f) t) ≡ w + 2)
unfolding draw
draw_overflows w f t hf h ht k =
    let lead : (w * 8 + f) / 8 ≡ w = omega arith in
    let start : (w * 8 + f) % 8 ≡ f = omega arith in
    let full : t / 8 ≡ 0 = omega arith in
    let tail : t % 8 ≡ t = omega arith in
    let starts : ltb 0 f ≡ true = ground arith in
    let ends : ltb 0 t ≡ true = ground arith in
    (
      omega arith,
      simp (lead, start, full, tail, starts, ends, length-append, length-replicate) (omega arith),
    )
