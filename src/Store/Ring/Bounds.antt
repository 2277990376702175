-- ===== src/Store/Ring/Bounds.antt =====
-- The representation invariant of `Ring`: every read and write is inside the buffer.
use taplytix.Prelude.{ℕ, ◌+◌, ◌%◌, ◌≤◌, ◌<◌, ◌≡◌, arith, length, length-set, length-replicate}
use taplytix.Prelude.Int.{ℤ}
use taplytix.Store.Ring.{Ring, ring_cap, new_ring, push, slice_start}

pub record IsValid {ℓ} {A : Type ℓ} (r : Ring A) : Type ℓ where
  pub storage : length r.buf ≡ r.cap
  pub head_in : r.head < r.cap
  pub count_in : r.count ≤ r.cap

ring_cap_pos : (c : ℤ) → 0 < ring_cap c
ring_cap_pos c = ground arith

-- `NewRing` makes a valid ring at any capacity, negative ones included.
pub new_ring-IsValid {ℓ} : {A : Type ℓ} (nil : A) (c : ℤ) → IsValid (new_ring nil c)
unfolding new_ring
new_ring-IsValid nil c = record {
  storage = length-replicate (ring_cap c) nil;
  head_in = ring_cap_pos c;
  count_in = omega arith;
}

-- `Push` keeps the invariant.
pub push-IsValid {ℓ} : {A : Type ℓ} (r : Ring A) (v : A) → IsValid r → IsValid (push r v)
unfolding push
push-IsValid r v h = record {
  storage = rw length-set h.storage;
  head_in = ground (arith, h.head_in);
  count_in = ground (arith, h.count_in);
}

pub cap-push {ℓ} : {A : Type ℓ} (r : Ring A) (v : A) → (push r v).cap ≡ r.cap
unfolding push
cap-push r v = omega arith

-- `Push` writes inside the buffer; `Slice` reads inside it in each of its rounds, and the sum that
-- its start is taken from does not go below 0.
pub in_bounds {ℓ} :
    {A : Type ℓ} (r : Ring A) (i : ℕ)
    → IsValid r
    → (r.head < length r.buf)
      × (r.count ≤ r.head + r.cap)
      × ((slice_start r + i) % r.cap < length r.buf)
in_bounds r i h = rw h.storage (h.head_in, omega (arith, h.count_in), omega (arith, h.head_in))
