-- ===== src/Render/Buckets.antt =====
-- internal/render/histogram.go: values counted into buckets of equal width, and the bars' widths.
pub mod Counts
use taplytix.Prelude.{
  ℕ, zero, suc, ◌+◌, ◌-◌, Bool, Option, none, some, List, [], ◌∷◌, length, get_elem?, set, map,
  if◌then◌else◌, ltb, ◌==◌, Str,
}
use taplytix.Prelude.Int.{ℤ, pos, negsuc, pos_part, leb_ℤ, ltb_ℤ}
use taplytix.Floats.{Floats}
use taplytix.Render.Cells.{Rounding, min_from, max_from}

pub record Bucket : Type 0 where
  pub label : Str
  pub count : ℕ

abbrev pub counted : Bucket → Bucket
counted b = record b { count = b.count + 1 }

module _ {F : Type 0} (fl : Floats F) (rd : Rounding F) (format : F → Str) where
  -- The labels `format(min + width*float64(i))` from the index `i` on.
  unfoldable pub empty_buckets : F → F → ℕ → ℕ → List Bucket
  empty_buckets low width i zero = []
  empty_buckets low width i (suc n) =
      record { label = format (fl.add low (fl.mul width (fl.of_int (pos i)))); count = 0 }
      ∷ empty_buckets low width (i + 1) n

  abbrev pub bump_at : List Bucket → ℕ → Option Bucket → Option (List Bucket)
  bump_at out i none = none
  bump_at out i (some b) = some (set out i (counted b))

  -- `out[idx].Count++`; `none` is the panic of an index below 0.
  abbrev pub count_at : List Bucket → ℤ → Option (List Bucket)
  count_at out (negsuc k) = none
  count_at out (pos i) = bump_at out i (get_elem? out i)

  abbrev pub clamp_bucket : ℤ → ℕ → ℤ
  clamp_bucket idx n = if leb_ℤ (pos n) idx then pos (n - 1) else idx

  unfoldable pub bucket_of : F → F → ℕ → F → ℤ
  bucket_of low width n v = clamp_bucket (rd.to_int (fl.div (fl.sub v low) width)) n

  abbrev pub then_count :
      (List Bucket → Option (List Bucket)) → Option (List Bucket) → Option (List Bucket)
  then_count next none = none
  then_count next (some out) = next out

  unfoldable pub count_all : F → F → ℕ → List F → List Bucket → Option (List Bucket)
  unfolding bucket_of
  count_all low width n [] out = some out
  count_all low width n (v ∷ vs) out =
      then_count (count_all low width n vs) (count_at out (bucket_of low width n v))

  -- `MakeBuckets` for `n` above 0; the caller gives the format.
  unfoldable pub make_buckets : List F → ℕ → Option (List Bucket)
  unfolding min_from max_from empty_buckets count_all
  make_buckets [] n = some []
  make_buckets (v ∷ vs) n =
      let low = min_from fl v (v ∷ vs) in
      let high = max_from fl v (v ∷ vs) in
      let width = fl.div (fl.sub high low) (fl.of_int (pos n)) in
      if n == 0
      then some []
      else if fl.eq high low
      then some (record { label = format low; count = length (v ∷ vs) } ∷ [])
      else count_all low width n (v ∷ vs) (empty_buckets low width 0 n)
