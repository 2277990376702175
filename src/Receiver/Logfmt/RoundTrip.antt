-- ===== src/Receiver/Logfmt/RoundTrip.antt =====
-- The parser ends on every line, and reads back what a logfmt writer writes.
use mathlib.Core.List.{append_assoc, append-nil}
use taplytix.Prelude.{
  ℕ, zero, suc, ◌≤◌, ◌<◌, ◌≡◌, ◌≢◌, refl, sym, ap, ◌∙◌, false, ◌||◌, List, [], ◌∷◌, ◌++◌, map,
  length, All, if◌then◌else◌, ◌==◌, Str, arith, Bool-cases, inl, inr, length-append,
}
use taplytix.Prelude.Maps.{Map, insert}
use taplytix.Prelude.Text.{join}
use taplytix.Receiver.Logfmt.{
  skip_spaces, onto, read_key, read_bare, read_quoted, read_value, Outcome, pairs, out_of_fuel,
  after_key, pairs_loop, parse_pairs,
}

length-skip_spaces : (s : Str) → length (skip_spaces s) ≤ length s
unfolding skip_spaces
length-skip_spaces [] = omega arith
length-skip_spaces (c ∷ s) = ground (arith, length-skip_spaces s)

length-read_key : (s : Str) → length (read_key s).1 ≤ length s
unfolding read_key
length-read_key [] = omega arith
length-read_key (c ∷ s) = ground (arith, length-read_key s)

length-read_bare : (s : Str) → length (read_bare s).1 ≤ length s
unfolding read_bare
length-read_bare [] = omega arith
length-read_bare (c ∷ s) = ground (arith, length-read_bare s)

length-read_quoted : (s : Str) → length (read_quoted s).1 ≤ length s
unfolding read_quoted
length-read_quoted [] = omega arith
length-read_quoted (c ∷ []) = ground arith
length-read_quoted (c ∷ d ∷ s) = ground (arith, length-read_quoted s, length-read_quoted (d ∷ s))

length-read_value : (s : Str) → length (read_value s).1 ≤ length s
unfolding read_value
length-read_value [] = omega arith
length-read_value (c ∷ s) = ground (arith, length-read_bare (c ∷ s), length-read_quoted s)

after_key-ends :
    (loop : Str → Map Str → Outcome) (n : ℕ) (out : Map Str) (p : Str × Str)
    → ((s : Str) (m : Map Str) → length s < n → loop s m ≢ out_of_fuel)
    → length p.1 ≤ n
    → after_key loop out p ≢ out_of_fuel
after_key-ends loop n out (key, []) ends h = λ e. cc e
after_key-ends loop n out (key, c ∷ s) ends h = elim (Bool-cases (c == b'=')) [
  | inl sign ↦
      rw sign (
        ends (read_value s).1 (insert key (read_value s).0 out)
          (omega (arith, length-read_value s)))
  | inr other ↦ rw other (λ e. cc e)
]

pairs_loop-ends :
    (fuel : ℕ) (s : Str) (out : Map Str) → length s < fuel → pairs_loop fuel s out ≢ out_of_fuel
unfolding pairs_loop
pairs_loop-ends zero s out h = absurd (omega arith)
pairs_loop-ends (suc fuel) s out h =
    round (pairs_loop-ends fuel) (skip_spaces s) (omega (arith, length-skip_spaces s))
  where
    round :
        ((t : Str) (m : Map Str) → length t < fuel → pairs_loop fuel t m ≢ out_of_fuel)
        → (t : Str) → length t ≤ fuel
        → (elim t as (λ _. Outcome) [
          | [] ↦ pairs out
          | c ∷ rest ↦ after_key (pairs_loop fuel) out (read_key (c ∷ rest))
        ])
          ≢ out_of_fuel
    round more [] k = λ e. cc e
    round more (c ∷ rest) k =
        after_key-ends (pairs_loop fuel) fuel out (read_key (c ∷ rest)) more
          (omega (arith, length-read_key (c ∷ rest)))

-- The parser ends on every line: a round for each byte and one more are enough.
pub parse_pairs-ends : (line : Str) → parse_pairs line ≢ out_of_fuel
unfolding parse_pairs
parse_pairs-ends line = pairs_loop-ends (suc (length line)) line [] (omega arith)

-- A key as it may stand before `=`.
abbrev pub IsKey : Str → Type 0
IsKey k = All (λ c. (c == b'=' || c == b' ') ≡ false) k

-- How a writer quotes a value.
abbrev pub escape : Str → Str
escape [] = []
escape (c ∷ s) = if c == b'\\' || c == b'"' then b'\\' ∷ (c ∷ escape s) else c ∷ escape s

abbrev pub pair_text : Str × Str → Str
pair_text (k, v) = k ++ (b'=' ∷ (b'"' ∷ (escape v ++ (b'"' ∷ []))))

abbrev pub set_all : Map Str → List (Str × Str) → Map Str
set_all m [] = m
set_all m ((k, v) ∷ kvs) = set_all (insert k v m) kvs

read_key-append : (k s : Str) → IsKey k → read_key (k ++ (b'=' ∷ s)) ≡ (k, b'=' ∷ s)
unfolding read_key
read_key-append [] s h = refl
read_key-append (c ∷ k) s h = rw h.0 (ap (onto c) (read_key-append k s h.1))

read_quoted_plain :
    (c : ℕ) (t : Str)
    → (c == b'\\' || c == b'"') ≡ false
    → 0 < length t
    → read_quoted (c ∷ t) ≡ onto c (read_quoted t)
unfolding read_quoted
read_quoted_plain c [] h k = absurd (omega arith)
read_quoted_plain c (d ∷ s) h k = ground (arith, h)

-- A closing quote is found behind the escaped value.
read_quoted-escape : (v rest : Str) → read_quoted (escape v ++ (b'"' ∷ rest)) ≡ (v, rest)
unfolding read_quoted
read_quoted-escape [] [] = refl
read_quoted-escape [] (d ∷ rest) = refl
read_quoted-escape (c ∷ v) rest = elim (Bool-cases (c == b'\\' || c == b'"')) [
  | inl special ↦ rw special (ap (onto c) (read_quoted-escape v rest))
  | inr plain ↦ rw plain (
      read_quoted_plain c (escape v ++ (b'"' ∷ rest)) plain
        (omega (arith, length-append (escape v) (b'"' ∷ rest)))
      ∙ ap (onto c) (read_quoted-escape v rest))
]

read_value-text : (v rest : Str) → read_value (b'"' ∷ (escape v ++ (b'"' ∷ rest))) ≡ (v, rest)
unfolding read_value
read_value-text v rest = read_quoted-escape v rest

-- A key is not skipped, and nor is the sign behind an empty one.
skip_spaces-key : (k s : Str) → IsKey k → skip_spaces (k ++ (b'=' ∷ s)) ≡ k ++ (b'=' ∷ s)
unfolding skip_spaces
skip_spaces-key [] s h = refl
skip_spaces-key (c ∷ k) s h = ground (arith, h.0)

loop_step :
    (fuel : ℕ) (c : ℕ) (s t : Str) (out : Map Str)
    → skip_spaces t ≡ c ∷ s
    → pairs_loop (suc fuel) t out ≡ after_key (pairs_loop fuel) out (read_key (c ∷ s))
unfolding pairs_loop
loop_step fuel c s t out h =
    ap
      (λ r. elim r as (λ _. Outcome) [
        | [] ↦ pairs out
        | d ∷ rest ↦ after_key (pairs_loop fuel) out (read_key (d ∷ rest))
      ])
      h

-- From a key and its sign on, a round hands the rest of the line to the next one.
round_key :
    (fuel : ℕ) (k s : Str) (out : Map Str)
    → IsKey k
    → pairs_loop (suc fuel) (k ++ (b'=' ∷ s)) out
      ≡ pairs_loop fuel (read_value s).1 (insert k (read_value s).0 out)
round_key fuel [] s out h =
    loop_step fuel b'=' s (b'=' ∷ s) out (skip_spaces-key [] s h)
    ∙ ap (after_key (pairs_loop fuel) out) (read_key-append [] s h)
round_key fuel (c ∷ k) s out h =
    loop_step fuel c (k ++ (b'=' ∷ s)) (c ∷ (k ++ (b'=' ∷ s))) out (skip_spaces-key (c ∷ k) s h)
    ∙ ap (after_key (pairs_loop fuel) out) (read_key-append (c ∷ k) s h)

round_text :
    (fuel : ℕ) (k v rest : Str) (out : Map Str)
    → IsKey k
    → pairs_loop (suc fuel) (pair_text (k, v) ++ rest) out ≡ pairs_loop fuel rest (insert k v out)
round_text fuel k v rest out h =
    ap (λ t. pairs_loop (suc fuel) t out)
      (append_assoc k (b'=' ∷ (b'"' ∷ (escape v ++ (b'"' ∷ [])))) rest
        ∙ ap (λ t. k ++ (b'=' ∷ (b'"' ∷ t))) (append_assoc (escape v) (b'"' ∷ []) rest))
    ∙ round_key fuel k (b'"' ∷ (escape v ++ (b'"' ∷ rest))) out h
    ∙ ap (λ r. pairs_loop fuel r.1 (insert k r.0 out)) (read_value-text v rest)

loop_end : (fuel : ℕ) (out : Map Str) → 0 < fuel → pairs_loop fuel [] out ≡ pairs out
unfolding pairs_loop skip_spaces
loop_end zero out h = absurd (omega arith)
loop_end (suc fuel) out h = refl

loop_space :
    (fuel : ℕ) (s : Str) (out : Map Str) → pairs_loop fuel (b' ' ∷ s) out ≡ pairs_loop fuel s out
unfolding pairs_loop skip_spaces
loop_space zero s out = refl
loop_space (suc fuel) s out = refl

abbrev line_of : List (Str × Str) → Str
line_of kvs = join b' ' (map pair_text kvs)

loop_line :
    (fuel : ℕ) (kvs : List (Str × Str)) (out : Map Str)
    → All (λ kv. IsKey kv.0) kvs
    → length kvs < fuel
    → pairs_loop fuel (line_of kvs) out ≡ pairs (set_all out kvs)
unfolding join
loop_line zero kvs out h k = absurd (omega arith)
loop_line (suc fuel) [] out h k = loop_end (suc fuel) out (omega arith)
loop_line (suc fuel) ((key, v) ∷ []) out h k =
    ap (λ t. pairs_loop (suc fuel) t out) (sym (append-nil (pair_text (key, v))))
    ∙ round_text fuel key v [] out h.0
    ∙ loop_end fuel (insert key v out) (omega arith)
loop_line (suc fuel) ((key, v) ∷ kv ∷ kvs) out h k =
    round_text fuel key v (b' ' ∷ line_of (kv ∷ kvs)) out h.0
    ∙ loop_space fuel (line_of (kv ∷ kvs)) (insert key v out)
    ∙ loop_line fuel (kv ∷ kvs) (insert key v out) h.1 (omega arith)

length-pair_text : (kv : Str × Str) → 0 < length (pair_text kv)
length-pair_text (k, v) = omega (arith, length-append k (b'=' ∷ (b'"' ∷ (escape v ++ (b'"' ∷ [])))))

length-line_of : (kvs : List (Str × Str)) → length kvs ≤ length (line_of kvs)
unfolding join
length-line_of [] = omega arith
length-line_of (kv ∷ []) = omega (arith, length-pair_text kv)
length-line_of (kv ∷ kv' ∷ kvs) =
    omega
      (arith, length-append (pair_text kv) (b' ' ∷ line_of (kv' ∷ kvs)), length-line_of (kv' ∷ kvs))

-- What a logfmt writer writes is read back: for keys without `=` and spaces and any values, the line
-- of the pairs, each value quoted with backslashes before quotes and backslashes, parses to the map
-- that holds each key with its last value.
pub parse_pairs-line :
    (kvs : List (Str × Str))
    → All (λ kv. IsKey kv.0) kvs
    → parse_pairs (join b' ' (map pair_text kvs)) ≡ pairs (set_all [] kvs)
unfolding parse_pairs
parse_pairs-line kvs h =
    loop_line (suc (length (line_of kvs))) kvs [] h (omega (arith, length-line_of kvs))
