-- ===== src/Prelude/Strings.antt =====
-- Go strings as lists of bytes, with `==` and `<` as the language defines them.
use Prim.Native.Nat.{ℕ}
use Prim.Native.Char.{code}
use Prim.Native.String.{String}
use mathlib.Core.Path.{◌≡◌, refl}
use mathlib.Core.Logic.{◌↔◌}
use mathlib.Core.Bool.{Bool, true, false, ◌&&◌, ◌||◌}
use mathlib.Core.List.{List, [], ◌∷◌}
use native.Mathlib.Omega.{arith}
use taplytix.Prelude.Tests.{ltb, ◌==◌}

abbrev pub Str : Type 0
Str = List ℕ

-- The bytes of an ASCII literal.
abbrev pub bytes : String → Str
bytes String.[] = []
bytes (String.◌∷◌ c s) = code c ∷ bytes s

unfoldable pub str_eq : Str → Str → Bool
str_eq [] [] = true
str_eq [] (d ∷ t) = false
str_eq (c ∷ s) [] = false
str_eq (c ∷ s) (d ∷ t) = c == d && str_eq s t

pub str_eq_sound : (s t : Str) → str_eq s t ≡ true → s ≡ t
unfolding str_eq
str_eq_sound [] [] h = refl
str_eq_sound [] (d ∷ t) h = cc
str_eq_sound (c ∷ s) [] h = cc
str_eq_sound (c ∷ s) (d ∷ t) h = ground (arith, str_eq_sound s t)

pub str_eq_refl : (s : Str) → str_eq s s ≡ true
unfolding str_eq
str_eq_refl [] = refl
str_eq_refl (c ∷ s) = ground (arith, str_eq_refl s)

pub str_eq_iff : (s t : Str) → (str_eq s t ≡ true) ↔ (s ≡ t)
str_eq_iff s t = (str_eq_sound s t, λ e. ground (arith, e, str_eq_refl s))

-- `s < t`, byte by byte.
unfoldable pub str_less : Str → Str → Bool
str_less s [] = false
str_less [] (d ∷ t) = true
str_less (c ∷ s) (d ∷ t) = ltb c d || (c == d && str_less s t)

-- The order is strict.
pub str_less_asym :
    (s t : Str) → str_less s t ≡ true → (str_less t s ≡ false) × (str_eq s t ≡ false)
unfolding str_less str_eq
str_less_asym [] [] h = cc
str_less_asym [] (d ∷ t) h = (refl, refl)
str_less_asym (c ∷ s) [] h = cc
str_less_asym (c ∷ s) (d ∷ t) h = ground (arith, str_less_asym s t)
