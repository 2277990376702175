-- ===== src/Store/Ring/Loop.antt =====
-- The loop of `Slice` in internal/store/ring.go, and indices that go round.
use native.Mathlib.Nat.{mod-eq_of_lt, mod-eq-sub-mod}
use taplytix.Prelude.{
  ℕ, zero, suc, ◌+◌, ◌-◌, ◌%◌, ◌≤◌, ◌<◌, ◌≡◌, ◌≢◌, refl, sym, ap, ◌∙◌, arith, List, [], ◌∷◌, ◌++◌,
  length, get_or, set, get_or-set_ne, Bool-cases, inl, inr, ltb, if◌then◌else◌,
}
use taplytix.Store.Ring.{slice_loop}

-- An index that goes round at most once.
pub wrap : (x cap : ℕ) → x < cap + cap → x % cap ≡ (if ltb x cap then x else x - cap)
wrap x cap h = elim (Bool-cases (ltb x cap)) [
  | inl below ↦ rw below (mod-eq_of_lt (ground arith))
  | inr above ↦ rw above (
      mod-eq-sub-mod {n = x} {m = cap} (ground arith)
      ∙ mod-eq_of_lt {n = x - cap} {m = cap} (ground arith))
]

-- Two offsets less than a round apart read different cells.
pub wrap_ne :
    (s j k cap : ℕ) → s < cap → j < k → k ≤ cap → k < j + cap → (s + j) % cap ≢ (s + k) % cap
wrap_ne s j k cap hs hj hk hd e =
    ground (arith, e, wrap (s + j) cap (omega arith), wrap (s + k) cap (omega arith))

module _ {ℓ} {A : Type ℓ} (nil : A) where
  pub length-slice_loop :
      (buf : List A) (cap start i n : ℕ) → length (slice_loop nil buf cap start i n) ≡ n
  unfolding slice_loop
  length-slice_loop buf cap start i zero = refl
  length-slice_loop buf cap start i (suc n) = ap suc (length-slice_loop buf cap start (i + 1) n)

  -- One round more reads one cell more.
  pub slice_loop_snoc :
      (buf : List A) (cap start i n : ℕ)
      → slice_loop nil buf cap start i (suc n)
        ≡ slice_loop nil buf cap start i n ++ get_or buf ((start + (i + n)) % cap) nil ∷ []
  unfolding slice_loop
  slice_loop_snoc buf cap start i zero = let e : i + 0 ≡ i = omega arith in rw e
  slice_loop_snoc buf cap start i (suc n) =
      let e : i + 1 + n ≡ i + suc n = omega arith in rw (slice_loop_snoc buf cap start (i + 1) n, e)

  -- A write to a cell that the loop does not read is not seen.
  pub slice_loop-set :
      (buf : List A) (cap start i n h : ℕ) (v : A)
      → ((j : ℕ) → i ≤ j → j < i + n → (start + j) % cap ≢ h)
      → slice_loop nil (set buf h v) cap start i n ≡ slice_loop nil buf cap start i n
  unfolding slice_loop
  slice_loop-set buf cap start i zero h v apart = refl
  slice_loop-set buf cap start i (suc n) h v apart = rw (
    get_or-set_ne buf v nil (λ e. apart i (omega arith) (omega arith) (sym e)),
    slice_loop-set buf cap start (i + 1) n h v (λ j p q. apart j (omega arith) (omega arith)),
  )

  -- Starting one cell later reads the same as starting one round later.
  pub slice_loop_shift :
      (buf : List A) (cap s t i n : ℕ)
      → ((j : ℕ) → (t + j) % cap ≡ (s + (j + 1)) % cap)
      → slice_loop nil buf cap t i n ≡ slice_loop nil buf cap s (i + 1) n
  unfolding slice_loop
  slice_loop_shift buf cap s t i zero h = refl
  slice_loop_shift buf cap s t i (suc n) h = rw (h i, slice_loop_shift buf cap s t (i + 1) n h)
