-- ===== src/Store/Ring/Window.antt =====
-- What a ring holds: `Slice` is the history of its pushes, cut to the newest `cap` entries.
use mathlib.Core.List.{append-nil, append_assoc}
use mathlib.Core.Path.{ap₂}
use native.Mathlib.Nat.{mod-eq_of_lt, mod-add-mod}
use taplytix.Prelude.{
  ℕ, suc, ◌+◌, ◌-◌, ◌%◌, ◌≤◌, ◌<◌, ◌≡◌, ◌≢◌, refl, sym, ap, ◌∙◌, arith, List, [], ◌∷◌, ◌++◌, length,
  get_or, set, drop, take_last, get_or-set_self, length-append, drop-append, take_last-append,
  Bool-cases, inl, inr, ltb, ◌==◌,
}
use taplytix.Prelude.Int.{ℤ}
use taplytix.Store.Ring.{Ring, ring_cap, new_ring, push, slice_loop, slice_start, slice, push_all}
use taplytix.Store.Ring.Bounds.{IsValid, new_ring-IsValid, push-IsValid, cap-push}
use taplytix.Store.Ring.Loop.{
  wrap, wrap_ne, length-slice_loop, slice_loop_snoc, slice_loop-set, slice_loop_shift,
}

module _ {ℓ} {A : Type ℓ} (nil : A) where
  slice-eq-loop : (r : Ring A) → slice nil r ≡ slice_loop nil r.buf r.cap (slice_start r) 0 r.count
  unfolding slice
  slice-eq-loop r = elim (Bool-cases (r.count == 0)) [
    | inl e ↦ let z : r.count ≡ 0 = ground (arith, e) in rw (e, z)
    | inr e ↦ rw e
  ]

  pub length-slice : (r : Ring A) → length (slice nil r) ≡ r.count
  length-slice r =
      rw (slice-eq-loop r) (length-slice_loop nil r.buf r.cap (slice_start r) 0 r.count)

  -- The cell that a push writes is the next one that a reader comes to.
  start_hits_head : (r : Ring A) → IsValid r → (slice_start r + r.count) % r.cap ≡ r.head
  start_hits_head r h = ground (
    arith,
    h.head_in,
    h.count_in,
    wrap (r.head + r.cap - r.count) r.cap (omega (arith, h.head_in)),
    wrap (slice_start r + r.count) r.cap (omega (arith, h.head_in, h.count_in)),
  )

  start-push_room :
      (r : Ring A) (v : A) → IsValid r → r.count < r.cap → slice_start (push r v) ≡ slice_start r
  unfolding push
  start-push_room r v h room = ground (
    arith,
    h.head_in,
    wrap (r.head + r.cap - r.count) r.cap (omega (arith, h.head_in)),
    wrap (r.head + 1) r.cap (omega (arith, h.head_in)),
    wrap ((r.head + 1) % r.cap + r.cap - (r.count + 1)) r.cap (omega (arith, h.head_in)),
  )

  start_of_full : (r : Ring A) → IsValid r → r.count ≡ r.cap → slice_start r ≡ r.head
  start_of_full r h full =
      ground (arith, h.head_in, wrap (r.head + r.cap - r.count) r.cap (omega (arith, h.head_in)))

  start-push_full :
      (r : Ring A) (v : A) (j : ℕ)
      → IsValid r
      → r.count ≡ r.cap
      → (slice_start (push r v) + j) % r.cap ≡ (slice_start r + (j + 1)) % r.cap
  unfolding push
  start-push_full r v j h full = ground (
    arith,
    ap (λ s. (s + j) % r.cap) start_now,
    mod-add-mod (r.head + 1) r.cap j,
    ap (λ s. (s + (j + 1)) % r.cap) (start_of_full r h full),
    ap (λ s. s % r.cap) regroup,
  )
    where
      start_now : slice_start (push r v) ≡ (r.head + 1) % r.cap
      start_now = ground (
        arith,
        h.head_in,
        wrap (r.head + 1) r.cap (omega (arith, h.head_in)),
        wrap ((r.head + 1) % r.cap + r.cap - r.count) r.cap (omega (arith, h.head_in)),
      )

      regroup : r.head + 1 + j ≡ r.head + (j + 1)
      regroup = omega arith

  -- Below its capacity a ring keeps all it holds.
  slice-push_room :
      (r : Ring A) (v : A)
      → IsValid r
      → r.count < r.cap
      → slice nil (push r v) ≡ slice nil r ++ v ∷ []
  unfolding push
  slice-push_room r v h room =
      slice-eq-loop (push r v)
      ∙ (λ t. slice_loop nil written r.cap (start-push_room r v h room t) 0 (grown t))
      ∙ slice_loop_snoc nil written r.cap (slice_start r) 0 r.count
      ∙ ap₂ (λ xs x. xs ++ x ∷ [])
          (slice_loop-set nil r.buf r.cap (slice_start r) 0 r.count r.head v apart)
          (last_cell (slice_start r) r.count (start_hits_head r h))
      ∙ ap (λ xs. xs ++ v ∷ []) (sym (slice-eq-loop r))
    where
      written : List A
      written = set r.buf r.head v

      grown : (push r v).count ≡ suc r.count
      grown = ground arith

      apart : (j : ℕ) → 0 ≤ j → j < 0 + r.count → (slice_start r + j) % r.cap ≢ r.head
      apart j _ below e =
          wrap_ne (slice_start r) j r.count r.cap (omega (arith, h.head_in)) (omega arith)
            h.count_in (omega arith) (e ∙ sym (start_hits_head r h))

      last_cell :
          (s n : ℕ) → (s + n) % r.cap ≡ r.head → get_or written ((s + (0 + n)) % r.cap) nil ≡ v
      last_cell s n e =
          ap (λ k. get_or written k nil) (ap (λ k. (s + k) % r.cap) (omega arith) ∙ e)
          ∙ get_or-set_self r.buf r.head v nil (omega (arith, h.storage, h.head_in))

  -- A full ring gives up its oldest entry.
  slice-push_full :
      (r : Ring A) (v : A)
      → IsValid r
      → r.count ≡ r.cap
      → slice nil (push r v) ≡ drop 1 (slice nil r) ++ v ∷ []
  unfolding push
  slice-push_full r v h full =
      slice-eq-loop (push r v)
      ∙ (λ t. slice_loop nil written r.cap next 0 (kept t))
      ∙ slice_loop_snoc nil written r.cap next 0 k
      ∙ ap₂ (λ xs x. xs ++ x ∷ [])
          (slice_loop-set nil r.buf r.cap next 0 k r.head v apart
            ∙ slice_loop_shift nil r.buf r.cap (slice_start r) next 0 k (shift))
          last_cell
      ∙ ap (λ xs. xs ++ v ∷ [])
          (sym (
            ap (drop 1) (slice-eq-loop r)
            ∙ (λ t. drop 1 (slice_loop nil r.buf r.cap (slice_start r) 0 (rounds t)))
            ∙ unfold slice_loop in refl))
    where
      written : List A
      written = set r.buf r.head v

      next : ℕ
      next = slice_start (push r v)

      k : ℕ
      k = r.cap - 1

      rounds : r.count ≡ suc k
      rounds = omega (arith, h.head_in)

      kept : (push r v).count ≡ suc k
      kept = ground (arith, h.head_in)

      shift : (j : ℕ) → (next + j) % r.cap ≡ (slice_start r + (j + 1)) % r.cap
      shift j = start-push_full r v j h full

      first : (slice_start r + 0) % r.cap ≡ r.head
      first =
          ap (λ n. n % r.cap) {x = slice_start r + 0} {y = r.head}
            (omega (arith, start_of_full r h full))
          ∙ mod-eq_of_lt h.head_in

      apart : (j : ℕ) → 0 ≤ j → j < 0 + k → (next + j) % r.cap ≢ r.head
      apart j _ below e =
          wrap_ne (slice_start r) 0 (j + 1) r.cap (omega (arith, h.head_in)) (omega arith)
            (omega arith) (omega arith) (first ∙ sym e ∙ shift j)

      last_cell : get_or written ((next + (0 + k)) % r.cap) nil ≡ v
      last_cell =
          ap (λ n. get_or written n nil)
            (shift (0 + k)
              ∙ ap (λ n. (slice_start r + n) % r.cap) (omega (arith, h.head_in))
              ∙ start_hits_head r h)
          ∙ get_or-set_self r.buf r.head v nil (omega (arith, h.storage, h.head_in))

  -- The ring after a push holds the newest `cap` of what it held and the new entry.
  pub slice-push :
      (r : Ring A) (v : A)
      → IsValid r
      → slice nil (push r v) ≡ take_last r.cap (slice nil r ++ v ∷ [])
  slice-push r v h = elim (Bool-cases (ltb r.count r.cap)) [
    | inl room ↦
        let e : length (slice nil r ++ v ∷ []) - r.cap ≡ 0 =
          ground (arith, length-append (slice nil r) (v ∷ []), length-slice r) in
        rw e (slice-push_room r v h (ground arith))
    | inr full ↦
        let e : length (slice nil r ++ v ∷ []) - r.cap ≡ 1 =
          ground (arith, h.count_in, length-append (slice nil r) (v ∷ []), length-slice r) in
        rw
          (
            e,
            drop-append 1 (slice nil r) (v ∷ [])
                (ground (arith, length-slice r, h.count_in, h.head_in)),
          )
          (slice-push_full r v h (ground (arith, h.count_in)))
  ]

  pub slice-push_all :
      (vs : List A) (r : Ring A)
      → IsValid r
      → slice nil (push_all r vs) ≡ take_last r.cap (slice nil r ++ vs)
  unfolding push_all
  slice-push_all [] r h =
      let e : length (slice nil r) - r.cap ≡ 0 = omega (arith, length-slice r, h.count_in) in
      rw (append-nil, e)
  slice-push_all (v ∷ vs) r h =
      slice-push_all vs (push r v) (push-IsValid r v h)
      ∙ ap₂ (λ c xs. take_last c (xs ++ vs)) (cap-push r v) (slice-push r v h)
      ∙ take_last-append r.cap (slice nil r ++ v ∷ []) vs
      ∙ ap (take_last r.cap) (append_assoc (slice nil r) (v ∷ []) vs)

-- After any pushes into a new ring, `Slice` returns the newest entries, oldest first, and as many
-- as fit: all of them up to the capacity, which is at least 1 whatever was asked for.
pub slice-history {ℓ} :
    {A : Type ℓ} (nil : A) (capacity : ℤ) (vs : List A)
    → slice nil (push_all (new_ring nil capacity) vs) ≡ take_last (ring_cap capacity) vs
slice-history nil capacity vs =
    slice-push_all nil vs (new_ring nil capacity) (new_ring-IsValid nil capacity)
    ∙ unfold new_ring slice in refl
