-- ===== src/Render/Cells.antt =====
-- internal/render/sparkline.go and barchart.go. A cell is a rune of one column; the runes are given by
-- their height or width in eighths.
pub mod Widths
use taplytix.Prelude.{
  ℕ, ◌+◌, ◌-◌, Bool, List, [], ◌∷◌, ◌++◌, length, drop, replicate, map, if◌then◌else◌, ltb, leb,
  Str,
}
use taplytix.Prelude.Int.{ℤ, pos, pos_part, leb_ℤ, ltb_ℤ, ◌-ℤ◌}
use taplytix.Floats.{Floats, le}

-- `blank`, a column of `1 + n` eighths, a bar's cell filled by `n` eighths from the left, and the shade
-- of an empty cell.
pub data Cell : Type 0 where
  blank : Cell
  column : ℕ → Cell
  block : ℕ → Cell
  shade : Cell

-- `int(x)` and `int(math.Round(x))`, and the infinities.
pub record Rounding (F : Type 0) : Type 0 where
  pub to_int : F → ℤ
  pub round : F → ℤ
  pub inf : F
  pub neg_inf : F

module _ {F : Type 0} (fl : Floats F) where
  -- The loops that find the least and the greatest value.
  unfoldable pub min_from : F → List F → F
  min_from m [] = m
  min_from m (v ∷ vs) = min_from (if fl.lt v m then v else m) vs

  unfoldable pub max_from : F → List F → F
  max_from m [] = m
  max_from m (v ∷ vs) = max_from (if fl.lt m v then v else m) vs

  module _ (rd : Rounding F) where
    abbrev pub clamp_height : ℤ → ℕ
    clamp_height idx =
        if ltb_ℤ idx (pos 0) then 0 else if leb_ℤ (pos 8) idx then 7 else pos_part idx

    unfoldable pub height : F → F → F → ℕ
    height low range v =
        clamp_height (rd.round (fl.mul (fl.div (fl.sub v low) range) (fl.of_int (pos 7))))

    unfoldable pub newest : List F → ℕ → List F
    newest vs width = if ltb width (length vs) then drop (length vs - width) vs else vs

    -- `Sparkline`, for a width that is not negative.
    unfoldable pub sparkline : List F → ℕ → List Cell
    unfolding min_from max_from height newest
    sparkline [] width = replicate width blank
    sparkline (v ∷ vs) width =
        let shown = newest (v ∷ vs) width in
        let low = min_from rd.inf shown in
        let high = max_from rd.neg_inf shown in
        let spread = fl.sub high low in
        let range = if fl.eq spread (fl.of_int (pos 0)) then fl.of_int (pos 1) else spread in
        replicate (width - length shown) blank ++ map (λ x. column (height low range x)) shown

    -- The filled cells of `HBar`, in an `int` that may be out of range.
    unfoldable pub filled_of : F → F → ℕ → ℤ
    filled_of value max_value bar_width =
        let scale = if le fl max_value (fl.of_int (pos 0)) then fl.of_int (pos 1) else max_value in
        rd.to_int (fl.mul (fl.div value scale) (fl.of_int (pos bar_width)))

    abbrev pub clamp_fill : ℤ → ℕ → ℕ
    clamp_fill filled w =
        if ltb_ℤ filled (pos 0) then 0 else if ltb_ℤ (pos w) filled then w else pos_part filled

    -- The bar of `HBar`.
    unfoldable pub hbar : F → F → ℤ → List Cell
    unfolding filled_of
    hbar value max_value bar_width =
        let w = if ltb_ℤ bar_width (pos 1) then 1 else pos_part bar_width in
        let filled = clamp_fill (filled_of value max_value w) w in
        replicate filled (block 8) ++ replicate (w - filled) shade
