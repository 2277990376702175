-- ===== src/Render/Buckets/Counts.antt =====
-- Every value is counted once; a value whose index is below 0 stops the program.
use taplytix.Prelude.{ℕ, ◌+◌, ◌<◌, ◌≡◌, ap, true, false, none, List, [], ◌∷◌, ◌==◌, arith, Str}
use taplytix.Prelude.Int.{ℤ, pos, negsuc, leb_ℤ, ltb_ℤ}
use taplytix.Floats.{Floats}
use taplytix.Render.Cells.{Rounding, min_from, max_from}
use taplytix.Render.Buckets.{
  Bucket, empty_buckets, count_at, clamp_bucket, then_count, count_all, make_buckets,
}

abbrev pub total : List Bucket → ℕ
total [] = 0
total (b ∷ bs) = b.count + total bs

module _ {F : Type 0} (fl : Floats F) (rd : Rounding F) (format : F → Str) where
  -- A first value whose index is below 0 makes `MakeBuckets` panic. NaN is such a value where the
  -- conversion of NaN to an int is negative, as it is on amd64.
  pub make_buckets-panics :
      (v : F) (vs : List F) (n : ℕ)
      → 0 < n
      → (let low = min_from fl v (v ∷ vs) in
          let width = fl.div (fl.sub (max_from fl v (v ∷ vs)) low) (fl.of_int (pos n)) in
          ltb_ℤ (rd.to_int (fl.div (fl.sub v low) width)) (pos 0) ≡ true)
      → fl.eq (max_from fl v (v ∷ vs)) (min_from fl v (v ∷ vs)) ≡ false
      → make_buckets fl rd format (v ∷ vs) n ≡ none
  make_buckets-panics v vs n h outside spread =
      let low : F = min_from fl v (v ∷ vs) in
      let width : F = fl.div (fl.sub (max_from fl v (v ∷ vs)) low) (fl.of_int (pos n)) in
      let some_n : (n == 0) ≡ false = ground arith in
      unfold make_buckets in
      rw (some_n, spread)
        (ap (then_count fl rd format (count_all fl rd format low width n vs)) (
          below (empty_buckets fl rd format low width 0 n) (rd.to_int (fl.div (fl.sub v low) width))
            outside))
    where
      below :
          (out : List Bucket) (idx : ℤ)
          → ltb_ℤ idx (pos 0) ≡ true
          → count_at fl rd format out (clamp_bucket fl rd format idx n) ≡ none
      below out (negsuc k) e = let cut : leb_ℤ (pos n) (negsuc k) ≡ false = ground arith in rw cut
      below out (pos i) e = let bad : ⊥ = ground arith in absurd bad
