-- ===== src/Prelude/Maps.antt =====
-- Go maps with string keys as association lists. A range over a map goes through the list: its
-- order is arbitrary in Go, and no theorem fixes the order of a list.
use mathlib.Core.Path.{◌≡◌, refl, ap, ◌∙◌, subst₂}
use mathlib.Core.List.{List, [], ◌∷◌}
use mathlib.Core.Option.{Option, none, some}
use mathlib.Core.Logic.{inl, inr}
use native.Mathlib.Omega.{arith}
use taplytix.Prelude.Tests.{if◌then◌else◌, Bool-cases}
use taplytix.Prelude.Lists.{All}
use taplytix.Prelude.Strings.{Str, str_eq, str_eq_iff}

abbrev pub Map {ℓ} : Type ℓ → Type ℓ
Map V = List (Str × V)

module _ {ℓ} {V : Type ℓ} where
  -- `v, ok := m[k]`
  unfoldable pub lookup : Str → Map V → Option V
  lookup k [] = none
  lookup k ((j, v) ∷ m) = if str_eq j k then some v else lookup k m

  -- `m[k] = v`
  unfoldable pub insert : Str → V → Map V → Map V
  insert k v [] = (k, v) ∷ []
  insert k v ((j, w) ∷ m) = if str_eq j k then (j, v) ∷ m else (j, w) ∷ insert k v m

  -- `delete(m, k)`
  unfoldable pub delete : Str → Map V → Map V
  delete k [] = []
  delete k ((j, w) ∷ m) = let rest = delete k m in if str_eq j k then rest else (j, w) ∷ rest

  pub lookup-insert :
      (k j : Str) (v : V) (m : Map V)
      → lookup j (insert k v m) ≡ (if str_eq k j then some v else lookup j m)
  unfolding lookup insert
  lookup-insert k j v [] = refl
  lookup-insert k j v ((i, w) ∷ m) =
      ground (arith, str_eq_iff k j, str_eq_iff i k, str_eq_iff i j, lookup-insert k j v m)

  -- A value that is changed in place: `m[k] = g(m[k])`.
  pub lookup-update :
      (k j : Str) (g : Option V → V) (m : Map V)
      → lookup j (insert k (g (lookup k m)) m)
        ≡ (if str_eq k j then some (g (lookup j m)) else lookup j m)
  lookup-update k j g m = lookup-insert k j (g (lookup k m)) m ∙ elim (Bool-cases (str_eq k j)) [
    | inl same ↦ rw same (ap (λ i. some (g (lookup i m))) ((str_eq_iff k j).0 same))
    | inr other ↦ rw other
  ]

  pub lookup-delete :
      (k j : Str) (m : Map V) → lookup j (delete k m) ≡ (if str_eq k j then none else lookup j m)
  unfolding lookup delete
  lookup-delete k j [] = ground arith
  lookup-delete k j ((i, w) ∷ m) =
      ground (arith, str_eq_iff k j, str_eq_iff i k, str_eq_iff i j, lookup-delete k j m)

  -- No key stands twice, as in every map that Go builds.
  abbrev pub IsMap : Map V → Type ℓ
  IsMap [] = Unit
  IsMap ((k, v) ∷ m) = (lookup k m ≡ none) × IsMap m

  pub insert-IsMap : (k : Str) (v : V) (m : Map V) → IsMap m → IsMap (insert k v m)
  unfolding insert lookup
  insert-IsMap k v [] h = (refl, tt)
  insert-IsMap k v ((j, w) ∷ m) h =
      ground (arith, str_eq_iff j k, str_eq_iff k j, lookup-insert k j v m, insert-IsMap k v m h.1)

  pub delete-IsMap : (k : Str) (m : Map V) → IsMap m → IsMap (delete k m)
  unfolding delete lookup
  delete-IsMap k [] h = tt
  delete-IsMap k ((j, w) ∷ m) h =
      ground (arith, str_eq_iff j k, str_eq_iff k j, lookup-delete k j m, delete-IsMap k m h.1)

  -- A property of the values passes through the operations.
  pub insert-All :
      (P : Str × V → Type ℓ) (k : Str) (v : V) (m : Map V)
      → ((j : Str) → j ≡ k → P (j, v))
      → All P m
      → All P (insert k v m)
  unfolding insert
  insert-All P k v [] p h = (p k refl, tt)
  insert-All P k v ((j, w) ∷ m) p h = ground (arith, str_eq_iff j k, p j, insert-All P k v m p h.1)

  pub delete-All : (P : Str × V → Type ℓ) (k : Str) (m : Map V) → All P m → All P (delete k m)
  unfolding delete
  delete-All P k [] h = tt
  delete-All P k ((j, w) ∷ m) h = ground (arith, delete-All P k m h.1)

  pub lookup-All :
      (P : Str × V → Type ℓ) (k : Str) (m : Map V) {v : V}
      → All P m
      → lookup k m ≡ some v
      → P (k, v)
  unfolding lookup
  lookup-All P k [] h e = cc
  lookup-All P k ((j, w) ∷ m) {v} h e = elim (Bool-cases (str_eq j k)) [
    | inl same ↦
        let at_k : some w ≡ some v = rw same at e in
        let j≡k : j ≡ k = (str_eq_iff j k).0 same in
        let w≡v : w ≡ v = cc at_k in subst₂ (λ i x. P (i, x)) j≡k w≡v h.0
    | inr other ↦ lookup-All P k m h.1 (rw other at e)
  ]

-- `for k, v := range m { out[k] = v }`, and the same loop over a list of pairs.
unfoldable pub insert_all : {V : Type 0} → Map V → Map V → Map V
insert_all out [] = out
insert_all out ((k, v) ∷ m) = insert_all (insert k v out) m

module _ {V : Type 0} where
  -- The last value under a key.
  abbrev last_value : Str → Map V → Option V
  last_value k [] = none
  last_value k ((j, v) ∷ m) =
      let rest = last_value k m in
      elim rest [ none ↦ if str_eq j k then some v else none | some w ↦ some w ]

  lookup-insert_all :
      (k : Str) (out m : Map V)
      → lookup k (insert_all out m)
        ≡ (elim (last_value k m) [ none ↦ lookup k out | some v ↦ some v ])
  unfolding insert_all
  lookup-insert_all k out [] = refl
  lookup-insert_all k out ((j, v) ∷ m) =
      ground (arith, lookup-insert_all k (insert j v out) m, lookup-insert j k v out)

  last_value-eq-lookup : (k : Str) (m : Map V) → IsMap m → last_value k m ≡ lookup k m
  unfolding lookup
  last_value-eq-lookup k [] h = refl
  last_value-eq-lookup k ((j, v) ∷ m) h =
      ground (arith, last_value-eq-lookup k m h.1, str_eq_iff j k, h.0)

  lookup_nil : (k : Str) → lookup {V = V} k [] ≡ none
  unfolding lookup
  lookup_nil k = refl

  -- A copy holds what the map holds.
  pub lookup-copy : (m : Map V) (k : Str) → IsMap m → lookup k (insert_all [] m) ≡ lookup k m
  lookup-copy m k h =
      ground (arith, lookup-insert_all k [] m, last_value-eq-lookup k m h, lookup_nil k)

  pub insert_all-IsMap : (out m : Map V) → IsMap out → IsMap (insert_all out m)
  unfolding insert_all
  insert_all-IsMap out [] h = h
  insert_all-IsMap out ((k, v) ∷ m) h = insert_all-IsMap (insert k v out) m (insert-IsMap k v out h)
