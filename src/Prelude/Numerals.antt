-- ===== src/Prelude/Numerals.antt =====
-- What the program uses of package strconv: `ParseUint` in base 10 with 64 bits, and `Atoi`.
use Prim.Native.Nat.{ℕ, ◌+◌, ◌-◌, ◌*◌, ◌^◌}
use mathlib.Core.Bool.{Bool, true, false, ◌&&◌}
use mathlib.Core.Option.{Option, none, some}
use mathlib.Core.List.{[], ◌∷◌}
use taplytix.Prelude.Tests.{if◌then◌else◌, ltb, leb, ◌==◌}
use taplytix.Prelude.Strings.{Str}
use taplytix.Prelude.Int.{ℤ, pos, negsuc}

abbrev pub word : ℕ
word = 2 ^ 64

abbrev pub is_digit : ℕ → Bool
is_digit c = leb b'0' c && leb c b'9'

-- The digits from the value so far: the value, and whether all went well. A digit that is none gives
-- 0, one that leaves the range the greatest number.
unfoldable pub parse_digits : ℕ → Str → ℕ × Bool
parse_digits acc [] = (acc, true)
parse_digits acc (c ∷ s) =
    let next = acc * 10 + (c - b'0') in
    let rest = parse_digits next s in
    if is_digit c then (if ltb next word then rest else (word - 1, false)) else (0, false)

-- `strconv.ParseUint(s, 10, 64)`
unfoldable pub parse_uint : Str → ℕ × Bool
unfolding parse_digits
parse_uint [] = (0, false)
parse_uint (c ∷ s) = parse_digits 0 (c ∷ s)

abbrev in_range : Bool → ℕ × Bool → Option ℤ
in_range minus (n, false) = none
in_range false (n, true) = if ltb n (2 ^ 63) then some (pos n) else none
in_range true (n, true) =
    if n == 0 then some (pos 0) else if leb n (2 ^ 63) then some (negsuc (n - 1)) else none

-- `strconv.Atoi(s)`
unfoldable pub atoi : Str → Option ℤ
unfolding parse_uint
atoi [] = none
atoi (c ∷ s) =
    if c == b'-'
    then in_range true (parse_uint s)
    else if c == b'+'
    then in_range false (parse_uint s)
    else in_range false (parse_uint (c ∷ s))
