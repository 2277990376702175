-- ===== src/Store/Ring.antt =====
-- internal/store/ring.go: a circular buffer that overwrites its oldest entry. The mutex makes each
-- method one step. `int` fields are numbers: none of them goes below 0 or past twice the capacity.
pub mod Bounds
pub mod Loop
pub mod Window
use taplytix.Prelude.{
  ℕ, zero, suc, ◌+◌, ◌-◌, ◌%◌, List, [], ◌∷◌, if◌then◌else◌, ltb, get_or, set, replicate, ◌==◌,
}
use taplytix.Prelude.Int.{ℤ, pos, pos_part, ltb_ℤ}

pub record Ring {ℓ} (A : Type ℓ) : Type ℓ where
  pub buf : List A
  pub head : ℕ
  pub count : ℕ
  pub cap : ℕ

-- The capacity that `NewRing` settles on.
abbrev pub ring_cap : ℤ → ℕ
ring_cap capacity = if ltb_ℤ capacity (pos 1) then 1 else pos_part capacity

module _ {ℓ} {A : Type ℓ} where
  -- `none` is the zero value that `make` fills the buffer with.
  unfoldable pub new_ring : A → ℤ → Ring A
  new_ring nil capacity = record {
    buf = replicate (ring_cap capacity) nil;
    head = 0;
    count = 0;
    cap = ring_cap capacity;
  }

  unfoldable pub push : Ring A → A → Ring A
  push r v = record r {
    buf = set r.buf r.head v;
    head = (r.head + 1) % r.cap;
    count = if ltb r.count r.cap then r.count + 1 else r.count;
  }

  -- `for i := 0; i < r.count; i++ { out[i] = r.buf[(start+i)%r.cap] }`, by the rounds left. `nil`
  -- stands for the panic of a read out of range; `Bounds.in_bounds` rules that out.
  unfoldable pub slice_loop : A → List A → ℕ → ℕ → ℕ → ℕ → List A
  slice_loop nil buf cap start i zero = []
  slice_loop nil buf cap start i (suc n) =
      get_or buf ((start + i) % cap) nil ∷ slice_loop nil buf cap start (i + 1) n

  -- `(r.head - r.count + r.cap) % r.cap`, with the sum first, since a number stops at 0.
  abbrev pub slice_start : Ring A → ℕ
  slice_start r = (r.head + r.cap - r.count) % r.cap

  unfoldable pub slice : A → Ring A → List A
  unfolding slice_loop
  slice nil r = if r.count == 0 then [] else slice_loop nil r.buf r.cap (slice_start r) 0 r.count

  abbrev pub len : Ring A → ℕ
  len r = r.count

  -- A sequence of pushes, oldest first.
  unfoldable pub push_all : Ring A → List A → Ring A
  push_all r [] = r
  push_all r (v ∷ vs) = push_all (push r v) vs
