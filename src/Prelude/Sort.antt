-- ===== src/Prelude/Sort.antt =====
-- `sort.Slice`, `sort.Strings` and `sort.Float64s` as insertion by `less`. Go does not say in which
-- order equal elements come out, and no theorem depends on it.
use Prim.Native.Nat.{suc}
use mathlib.Core.Path.{◌≡◌, refl}
use mathlib.Core.Bool.{Bool, true, false}
use mathlib.Core.Logic.{inl, inr}
use mathlib.Core.List.{List, [], ◌∷◌}
use native.Mathlib.Omega.{arith}
use taplytix.Prelude.Tests.{if◌then◌else◌, Bool-cases}
use taplytix.Prelude.Lists.{length, All, All-map, count_if}

module _ {ℓ} {A : Type ℓ} (less : A → A → Bool) where
  unfoldable pub sort_insert : A → List A → List A
  sort_insert x [] = x ∷ []
  sort_insert x (y ∷ ys) = if less y x then y ∷ sort_insert x ys else x ∷ y ∷ ys

  unfoldable pub sort_by : List A → List A
  unfolding sort_insert
  sort_by [] = []
  sort_by (x ∷ xs) = sort_insert x (sort_by xs)

  -- No later element is less than an earlier one.
  abbrev pub IsSorted : List A → Type 0
  IsSorted [] = Unit
  IsSorted (x ∷ xs) = All (λ y. less y x ≡ false) xs × IsSorted xs

  -- What the documentation of package sort asks of `less`.
  pub record IsWeakOrder : Type ℓ where
    pub asym : (a b : A) → less a b ≡ true → less b a ≡ false
    pub trans : (a b c : A) → less b a ≡ false → less c b ≡ false → less c a ≡ false

module _ {ℓ} {A : Type ℓ} (less : A → A → Bool) where
  pub All-sort_insert :
      (P : A → Type 0) (x : A) (ys : List A) → P x → All P ys → All P (sort_insert less x ys)
  unfolding sort_insert
  All-sort_insert P x [] p h = (p, tt)
  All-sort_insert P x (y ∷ ys) p h = ground (arith, All-sort_insert P x ys p h.1)

  pub count_if-sort_insert :
      (p : A → Bool) (x : A) (ys : List A)
      → count_if p (sort_insert less x ys) ≡ count_if p (x ∷ ys)
  unfolding sort_insert
  count_if-sort_insert p x [] = refl
  count_if-sort_insert p x (y ∷ ys) = ground (arith, count_if-sort_insert p x ys)

  pub length-sort_insert : (x : A) (ys : List A) → length (sort_insert less x ys) ≡ suc (length ys)
  unfolding sort_insert
  length-sort_insert x [] = refl
  length-sort_insert x (y ∷ ys) = ground (arith, length-sort_insert x ys)

  -- Sorting moves elements and neither drops nor makes one.
  pub count_if-sort_by : (p : A → Bool) (xs : List A) → count_if p (sort_by less xs) ≡ count_if p xs
  unfolding sort_by
  count_if-sort_by p [] = refl
  count_if-sort_by p (x ∷ xs) =
      ground (arith, count_if-sort_insert p x (sort_by less xs), count_if-sort_by p xs)

  pub length-sort_by : (xs : List A) → length (sort_by less xs) ≡ length xs
  unfolding sort_by
  length-sort_by [] = refl
  length-sort_by (x ∷ xs) = omega (arith, length-sort_insert x (sort_by less xs), length-sort_by xs)

  pub All-sort_by : (P : A → Type 0) (xs : List A) → All P xs → All P (sort_by less xs)
  unfolding sort_by
  All-sort_by P [] h = tt
  All-sort_by P (x ∷ xs) h = All-sort_insert P x (sort_by less xs) h.0 (All-sort_by P xs h.1)

module _ {ℓ} {A : Type ℓ} {less : A → A → Bool} (w : IsWeakOrder less) where
  sort_insert-IsSorted :
      (x : A) (ys : List A) → IsSorted less ys → IsSorted less (sort_insert less x ys)
  unfolding sort_insert
  sort_insert-IsSorted x [] h = (tt, tt)
  sort_insert-IsSorted x (y ∷ ys) h = elim (Bool-cases (less y x)) [
    | inl below ↦ rw below (
      All-sort_insert less (λ z. less z y ≡ false) x ys (w.asym y x below) h.0,
      sort_insert-IsSorted x ys h.1,
    )
    | inr above ↦ rw above ((above, All-map (λ z q. w.trans x y z above q) ys h.0), (h.0, h.1))
  ]

  pub sort_by-IsSorted : (xs : List A) → IsSorted less (sort_by less xs)
  unfolding sort_by
  sort_by-IsSorted [] = tt
  sort_by-IsSorted (x ∷ xs) = sort_insert-IsSorted x (sort_by less xs) (sort_by-IsSorted xs)
