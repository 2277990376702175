-- ===== src/Prelude/Handles.antt =====
-- Sets of handles, each a number: sockets that are open, contexts that live.
use Prim.Native.Nat.{ℕ}
use mathlib.Core.Path.{◌≡◌, refl}
use mathlib.Core.Bool.{Bool, true, false, not, ◌||◌}
use mathlib.Core.Logic.{inl, inr}
use mathlib.Core.Option.{Option, none, some}
use mathlib.Core.List.{List, [], ◌∷◌}
use native.Mathlib.Omega.{arith}
use taplytix.Prelude.Tests.{◌==◌, Bool-cases}
use taplytix.Prelude.Lists.{keep_if, All}

abbrev pub without : ℕ → List ℕ → List ℕ
without n ns = keep_if (λ m. not (m == n)) ns

abbrev pub without_some : Option ℕ → List ℕ → List ℕ
without_some none ns = ns
without_some (some n) ns = without n ns

abbrev pub is_in : ℕ → List ℕ → Bool
is_in n [] = false
is_in n (m ∷ ns) = n == m || is_in n ns

without_own : (n : ℕ) (ns : List ℕ) → All (λ m. some n ≡ some m) ns → without n ns ≡ []
without_own n [] h = refl
without_own n (m ∷ ns) h =
    let same : (m == n) ≡ true = ground (arith, h.0) in rw same (without_own n ns h.1)

-- A set with nothing in it but what is held is empty without it.
pub without_some-own :
    (o : Option ℕ) (ns : List ℕ) → All (λ m. o ≡ some m) ns → without_some o ns ≡ []
without_some-own none [] h = refl
without_some-own none (m ∷ ns) h = let bad : ⊥ = cc h.0 in absurd bad
without_some-own (some n) ns h = without_own n ns h

pub none_own : (o : Option ℕ) (ns : List ℕ) → o ≡ none → All (λ m. o ≡ some m) ns → ns ≡ []
none_own o [] e h = refl
none_own o (m ∷ ns) e h = let bad : ⊥ = cc (e, h.0) in absurd bad

pub All-keep_if {ℓ} :
    {A : Type ℓ} (P : A → Type 0) (q : A → Bool) (xs : List A) → All P xs → All P (keep_if q xs)
All-keep_if P q [] h = tt
All-keep_if P q (x ∷ xs) h = elim (Bool-cases (q x)) [
  | inl hit ↦ rw hit (h.0, All-keep_if P q xs h.1)
  | inr miss ↦ rw miss (All-keep_if P q xs h.1)
]

pub All-without_some :
    (P : ℕ → Type 0) (o : Option ℕ) (ns : List ℕ) → All P ns → All P (without_some o ns)
All-without_some P none ns h = h
All-without_some P (some n) ns h = All-keep_if P (λ m. not (m == n)) ns h
