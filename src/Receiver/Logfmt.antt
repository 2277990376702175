-- ===== src/Receiver/Logfmt.antt =====
-- internal/receiver/logtail.go: `parseLogfmtPairs`. What is left of the line from the index `i` on
-- stands for the index.
pub mod RoundTrip
use taplytix.Prelude.{
  ℕ, zero, suc, ◌+◌, ◌≡◌, refl, Bool, true, false, ◌||◌, Option, none, some, List, [], ◌∷◌, length,
  if◌then◌else◌, ◌==◌, Str, bytes,
}
use taplytix.Prelude.Maps.{Map, insert}

unfoldable pub skip_spaces : Str → Str
skip_spaces [] = []
skip_spaces (c ∷ s) = let rest = skip_spaces s in if c == b' ' then rest else c ∷ s

abbrev pub onto : ℕ → Str × Str → Str × Str
onto c (taken, rest) = (c ∷ taken, rest)

-- The key, up to `=`, a space or the end, and what follows.
unfoldable pub read_key : Str → Str × Str
read_key [] = ([], [])
read_key (c ∷ s) =
    let rest = read_key s in if c == b'=' || c == b' ' then ([], c ∷ s) else onto c rest

-- A value without quotes, up to a space or the end.
unfoldable pub read_bare : Str → Str × Str
read_bare [] = ([], [])
read_bare (c ∷ s) = let rest = read_bare s in if c == b' ' then ([], c ∷ s) else onto c rest

-- A quoted value after its opening quote: a backslash takes the next byte as it is, the closing quote
-- is dropped, and the end of the line closes the value too.
unfoldable pub read_quoted : Str → Str × Str
read_quoted [] = ([], [])
read_quoted (c ∷ []) = if c == b'"' then ([], []) else (c ∷ [], [])
read_quoted (c ∷ d ∷ s) =
    let escaped = onto d (read_quoted s) in
    let plain = onto c (read_quoted (d ∷ s)) in
    if c == b'\\' then escaped else if c == b'"' then ([], d ∷ s) else plain

unfoldable pub read_value : Str → Str × Str
unfolding read_bare read_quoted
read_value [] = ([], [])
read_value (c ∷ s) = if c == b'"' then read_quoted s else read_bare (c ∷ s)

pub data Outcome : Type 0 where
  pairs : Map Str → Outcome
  -- A key with no `=` behind it.
  reject : Outcome
  out_of_fuel : Outcome

-- One pair from its key on, and the rest of the line to `loop` with the map so far.
abbrev pub after_key : (Str → Map Str → Outcome) → Map Str → Str × Str → Outcome
after_key loop out (key, []) = reject
after_key loop out (key, c ∷ s) =
    let (val, rest) = read_value s in
    let more = loop rest (insert key val out) in if c == b'=' then more else reject

-- The loop over the line, a round for each pair.
unfoldable pub pairs_loop : ℕ → Str → Map Str → Outcome
unfolding read_key read_value skip_spaces
pairs_loop zero s out = out_of_fuel
pairs_loop (suc fuel) s out = elim (skip_spaces s) [
  | [] ↦ pairs out
  | c ∷ rest ↦ after_key (pairs_loop fuel) out (read_key (c ∷ rest))
]

unfoldable pub parse_pairs : Str → Outcome
unfolding pairs_loop
parse_pairs line = pairs_loop (suc (length line)) line []
