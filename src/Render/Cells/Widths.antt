-- ===== src/Render/Cells/Widths.antt =====
-- Sparklines and bars are as wide as was asked for.
use taplytix.Prelude.{
  ℕ, suc, ◌-◌, ◌≤◌, ◌≡◌, refl, ap, ◌∙◌, List, [], ◌∷◌, ◌++◌, length, replicate, map, max, arith,
  length-append, length-drop, length-replicate, if◌then◌else◌, min,
}
use taplytix.Prelude.Int.{ℤ, pos, pos_part, ltb_ℤ}
use taplytix.Floats.{Floats}
use taplytix.Render.Cells.{
  blank, block, shade, Rounding, newest, sparkline, filled_of, clamp_fill, hbar,
}

length-map : {A B : Type 0} (f : A → B) (xs : List A) → length (map f xs) ≡ length xs
length-map f [] = refl
length-map f (x ∷ xs) = ap suc (length-map f xs)

module _ {F : Type 0} (fl : Floats F) (rd : Rounding F) where
  length-newest : (vs : List F) (width : ℕ) → length (newest fl rd vs width) ≡ min width (length vs)
  unfolding newest
  length-newest vs width = ground (arith, length-drop (length vs - width) vs)

  -- A sparkline has exactly the width asked for, whatever the values, NaN and infinities included.
  pub length-sparkline : (vs : List F) (width : ℕ) → length (sparkline fl rd vs width) ≡ width
  unfolding sparkline
  length-sparkline [] width = length-replicate width blank
  length-sparkline (v ∷ vs) width =
      simp (length-append, length-replicate, length-map, length-newest) (omega arith)

  filled_width :
      (w : ℕ) (filled : ℤ)
      → length (
          replicate (clamp_fill fl rd filled w) (block 8)
          ++ replicate (w - clamp_fill fl rd filled w) shade)
        ≡ w
  filled_width w filled =
      let within : clamp_fill fl rd filled w ≤ w = ground arith in
      simp (length-append, length-replicate) (omega (arith, within))

  -- A bar has exactly the width asked for, which is 1 where less was asked for.
  pub length-hbar :
      (value max_value : F) (width : ℤ)
      → length (hbar fl rd value max_value width) ≡ max 1 (pos_part width)
  unfolding hbar
  length-hbar value max_value width =
      filled_width (if ltb_ℤ width (pos 1) then 1 else pos_part width)
        (filled_of fl rd value max_value (if ltb_ℤ width (pos 1) then 1 else pos_part width))
      ∙ ground arith
