-- ===== src/Prelude/Text.antt =====
-- What the program uses of package strings, on bytes. Upper and lower case, and the white space that
-- is trimmed, are those of ASCII.
use mathlib.Core.Path.{◌≡◌, refl, ap, ◌∙◌}
use mathlib.Core.Bool.{Bool, true, false, ◌&&◌, ◌||◌}
use mathlib.Core.Option.{Option, none, some}
use mathlib.Core.List.{List, [], ◌∷◌, ◌++◌, reverse}
use Prim.Native.Nat.{ℕ, ◌+◌, ◌-◌}
use native.Mathlib.Omega.{arith}
use taplytix.Prelude.Tests.{if◌then◌else◌, leb, ◌==◌}
use taplytix.Prelude.Lists.{All, length}
use taplytix.Prelude.Strings.{Str}

-- `i := strings.IndexByte(s, c)`, `s[:i]` and `s[i+1:]`; `none` where `i` is negative.
unfoldable pub cut_at : ℕ → Str → Option (Str × Str)
cut_at c [] = none
cut_at c (d ∷ s) =
    let rest = cut_at c s in
    if d == c then some ([], s) else elim rest [ none ↦ none | some (a, b) ↦ some (d ∷ a, b) ]

abbrev pub onto_first : ℕ → List Str → List Str
onto_first d [] = (d ∷ []) ∷ []
onto_first d (s ∷ parts) = (d ∷ s) ∷ parts

-- `strings.Split(s, c)` for a separator of one byte.
unfoldable pub split_on : ℕ → Str → List Str
split_on c [] = [] ∷ []
split_on c (d ∷ s) = let rest = split_on c s in if d == c then [] ∷ rest else onto_first d rest

-- `strings.Join(parts, c)`
unfoldable pub join : ℕ → List Str → Str
join c [] = []
join c (s ∷ []) = s
join c (s ∷ t ∷ parts) = s ++ (c ∷ join c (t ∷ parts))

unfoldable pub has_prefix : Str → Str → Bool
has_prefix s [] = true
has_prefix [] (p ∷ ps) = false
has_prefix (c ∷ s) (p ∷ ps) = c == p && has_prefix s ps

unfoldable pub has_suffix : Str → Str → Bool
unfolding has_prefix
has_suffix s t = has_prefix (reverse s) (reverse t)

unfoldable pub contains_text : Str → Str → Bool
unfolding has_prefix
contains_text [] t = has_prefix [] t
contains_text (c ∷ s) t = has_prefix (c ∷ s) t || contains_text s t

-- Tab, newline, vertical tab, form feed, carriage return and the space.
abbrev pub is_space : ℕ → Bool
is_space c = c == 32 || (leb 9 c && leb c 13)

unfoldable pub trim_left : Str → Str
trim_left [] = []
trim_left (c ∷ s) = let rest = trim_left s in if is_space c then rest else c ∷ s

-- `strings.TrimSpace`
unfoldable pub trim_space : Str → Str
unfolding trim_left
trim_space s = reverse (trim_left (reverse (trim_left s)))

abbrev pub lower : ℕ → ℕ
lower c = if leb 65 c && leb c 90 then c + 32 else c

abbrev pub upper : ℕ → ℕ
upper c = if leb 97 c && leb c 122 then c - 32 else c

unfoldable pub to_lower : Str → Str
to_lower [] = []
to_lower (c ∷ s) = lower c ∷ to_lower s

unfoldable pub to_upper : Str → Str
to_upper [] = []
to_upper (c ∷ s) = upper c ∷ to_upper s

-- The byte is not in the text.
abbrev pub IsFree : ℕ → Str → Type 0
IsFree c s = All (λ d. (d == c) ≡ false) s

pub cut_at-append : (c : ℕ) (s t : Str) → IsFree c s → cut_at c (s ++ (c ∷ t)) ≡ some (s, t)
unfolding cut_at
cut_at-append c [] t h = ground arith
cut_at-append c (d ∷ s) t h = rw (h.0, cut_at-append c s t h.1)

pub cut_at-free : (c : ℕ) (s : Str) → IsFree c s → cut_at c s ≡ none
unfolding cut_at
cut_at-free c [] h = refl
cut_at-free c (d ∷ s) h = rw (h.0, cut_at-free c s h.1)

pub split_on-free : (c : ℕ) (s : Str) → IsFree c s → split_on c s ≡ s ∷ []
unfolding split_on
split_on-free c [] h = refl
split_on-free c (d ∷ s) h = rw (h.0, split_on-free c s h.1)

pub split_on-append :
    (c : ℕ) (s t : Str) → IsFree c s → split_on c (s ++ (c ∷ t)) ≡ s ∷ split_on c t
unfolding split_on
split_on-append c [] t h = ground arith
split_on-append c (d ∷ s) t h = rw (h.0, split_on-append c s t h.1)

-- Splitting at the separator undoes the join of parts that do not hold it.
pub split_on-join :
    (c : ℕ) (s : Str) (parts : List Str)
    → All (IsFree c) (s ∷ parts)
    → split_on c (join c (s ∷ parts)) ≡ s ∷ parts
unfolding join
split_on-join c s [] h = split_on-free c s h.0
split_on-join c s (t ∷ parts) h =
    split_on-append c s (join c (t ∷ parts)) h.0 ∙ ap (λ r. s ∷ r) (split_on-join c t parts h.1)

-- `strings.Fields`: the stretches between white space. `word` is the one that is being read.
unfoldable pub fields_from : Str → Str → List Str
fields_from word [] = if length word == 0 then [] else word ∷ []
fields_from word (c ∷ s) =
    let rest = fields_from [] s in
    let more = fields_from (word ++ c ∷ []) s in
    if is_space c then (if length word == 0 then rest else word ∷ rest) else more

unfoldable pub fields : Str → List Str
unfolding fields_from
fields s = fields_from [] s

-- `i := strings.LastIndexByte(s, c)`, `s[:i]` and `s[i+1:]`; `none` where `i` is negative.
unfoldable pub cut_last_at : ℕ → Str → Option (Str × Str)
cut_last_at c [] = none
cut_last_at c (d ∷ s) = elim (cut_last_at c s) [
  | some (a, b) ↦ some (d ∷ a, b)
  | none ↦ if d == c then some ([], s) else none
]

pub cut_last_at-free : (c : ℕ) (s : Str) → IsFree c s → cut_last_at c s ≡ none
unfolding cut_last_at
cut_last_at-free c [] h = refl
cut_last_at-free c (d ∷ s) h = rw (cut_last_at-free c s h.1, h.0)

pub cut_last_at-append :
    (c : ℕ) (s t : Str) → IsFree c t → cut_last_at c (s ++ (c ∷ t)) ≡ some (s, t)
unfolding cut_last_at
cut_last_at-append c [] t h =
    let same : (c == c) ≡ true = ground arith in rw (cut_last_at-free c t h, same)
cut_last_at-append c (d ∷ s) t h = rw (cut_last_at-append c s t h)
