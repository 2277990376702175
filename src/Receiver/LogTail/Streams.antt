-- ===== src/Receiver/LogTail/Streams.antt =====
-- `runReader` of internal/receiver/logtail.go: the lines of stdin or of a TCP connection. A stream is
-- all that is read from it until it ends; bufio.Scanner returns its lines whatever reads they come in.
-- The context lives, so that every line the scanner returns is taken off the channel `lines`, in order.
use mathlib.Core.List.{append_assoc, append-nil}
use taplytix.Prelude.{
  ℕ, ◌≤◌, ◌<◌, ◌≡◌, refl, sym, ap, ◌∙◌, true, false, ◌&&◌, List, [], ◌∷◌, ◌++◌, length, replicate,
  each, map, All, if◌then◌else◌, ◌==◌, ltb, Str, arith,
}
use taplytix.Receiver.LogTail.Tailing.{Disk, Tail, is_eol, follow}
use taplytix.Receiver.LogTail.Tailing.Lines.{IsOneLine, unlines, left, follow-sends_lines}

abbrev pub onto_first : ℕ → List Str → List Str
onto_first c [] = (c ∷ []) ∷ []
onto_first c (l ∷ ls) = (c ∷ l) ∷ ls

-- The lines of a stream, without their newlines; the last one may have none.
unfoldable pub split_lines : Str → List Str
split_lines [] = []
split_lines (c ∷ s) = let rest = split_lines s in if c == 10 then [] ∷ rest else onto_first c rest

-- `1024*1024`, the most bytes of a line with its newline.
abbrev pub max_token : ℕ
max_token = 1048576

-- The scanner ends at the first line that has no room for its newline in `limit` bytes.
unfoldable pub within : ℕ → List Str → List Str
within limit [] = []
within limit (l ∷ ls) = let rest = within limit ls in if ltb (length l) limit then l ∷ rest else []

-- bufio.ScanLines drops one carriage return from the end of a line.
unfoldable pub drop_cr : Str → Str
drop_cr [] = []
drop_cr (c ∷ s) = let rest = drop_cr s in if c == 13 && length s == 0 then [] else c ∷ rest

-- What the scanner returns of a stream.
abbrev pub scan : ℕ → Str → List Str
scan limit stream = map drop_cr (within limit (split_lines stream))

-- `send` is `emitLine` of the parser.
module _ {S : Type 0} (send : Str → S → S) where
  unfoldable pub read_stream : ℕ → Str → S → S
  read_stream limit stream s = each send (scan limit stream) s

  abbrev pub run_reader : Str → S → S
  run_reader = read_stream max_token

no_newline : (c : ℕ) → is_eol c ≡ false → ((c == 10) ≡ false) × ((c == 13) ≡ false)
no_newline c h = (ground (arith, h), ground (arith, h))

split_lines-line :
    (l rest : Str) → IsOneLine l → split_lines (l ++ (10 ∷ rest)) ≡ l ∷ split_lines rest
unfolding split_lines
split_lines-line [] rest h = refl
split_lines-line (c ∷ l) rest h =
    rw (no_newline c h.0).0 (ap (onto_first c) (split_lines-line l rest h.1))

drop_cr-line : (l : Str) → IsOneLine l → drop_cr l ≡ l
unfolding drop_cr
drop_cr-line [] h = refl
drop_cr-line (c ∷ l) h = rw ((no_newline c h.0).1, drop_cr-line l h.1) refl

-- A line that has room for its newline within the limit.
abbrev pub IsShort : ℕ → Str → Type 0
IsShort limit l = length l < limit

scan-line :
    (limit : ℕ) (l rest : Str)
    → IsOneLine l
    → IsShort limit l
    → scan limit (l ++ (10 ∷ rest)) ≡ l ∷ scan limit rest
unfolding within
scan-line limit l rest h short =
    let fits : ltb (length l) limit ≡ true = ground arith in
    rw (split_lines-line l rest h, fits, drop_cr-line l h) refl

scan-lines :
    (limit : ℕ) (ls : List Str) (rest : Str)
    → All IsOneLine ls
    → All (IsShort limit) ls
    → scan limit (unlines ls ++ rest) ≡ ls ++ scan limit rest
scan-lines limit [] rest h short = refl
scan-lines limit (l ∷ ls) rest h short =
    let e : unlines (l ∷ ls) ++ rest ≡ l ++ (10 ∷ (unlines ls ++ rest)) =
      append_assoc (l ++ 10 ∷ []) (unlines ls) rest
      ∙ append_assoc l (10 ∷ []) (unlines ls ++ rest) in
    ap (scan limit) e
    ∙ scan-line limit l (unlines ls ++ rest) h.0 short.0
    ∙ ap (λ r. l ∷ r) (scan-lines limit ls rest h.1 short.1)

abbrev first_line : List Str → Str
first_line [] = []
first_line (l ∷ ls) = l

first_line-onto_first : (c : ℕ) (ls : List Str) → first_line (onto_first c ls) ≡ c ∷ first_line ls
first_line-onto_first c [] = refl
first_line-onto_first c (l ∷ ls) = refl

first_line-le-length :
    (l rest : Str) → IsOneLine l → length l ≤ length (first_line (split_lines (l ++ rest)))
unfolding split_lines
first_line-le-length [] rest h = omega arith
first_line-le-length (c ∷ l) rest h = rw (no_newline c h.0).0 (
    rw (first_line-onto_first c (split_lines (l ++ rest)))
      (omega (arith, first_line-le-length l rest h.1)))

within-long : (limit : ℕ) (ls : List Str) → limit ≤ length (first_line ls) → within limit ls ≡ []
unfolding within
within-long limit [] h = refl
within-long limit (l ∷ ls) h =
    let long : ltb (length l) limit ≡ false = ground arith in rw long refl

scan-long :
    (limit : ℕ) (l rest : Str) → IsOneLine l → limit ≤ length l → scan limit (l ++ rest) ≡ []
scan-long limit l rest h long =
    ap (map drop_cr)
      (within-long limit (split_lines (l ++ rest)) (omega (arith, first_line-le-length l rest h)))

module _ {S : Type 0} (send : Str → S → S) where
  -- Reading ends at the first line that has no room for its newline within the limit: the lines before
  -- it, each with that room, are sent in order, and nothing is sent of the line or of what comes behind
  -- it.
  pub read_stream-stops :
      (limit : ℕ) (ls : List Str) (long rest : Str) (s : S)
      → All IsOneLine ls
      → All (IsShort limit) ls
      → IsOneLine long
      → limit ≤ length long
      → read_stream send limit (unlines ls ++ (long ++ rest)) s ≡ each send ls s
  unfolding read_stream
  read_stream-stops limit ls long rest s h short one much =
      ap (λ k. each send k s)
        (scan-lines limit ls (long ++ rest) h short
          ∙ ap (λ r. ls ++ r) (scan-long limit long rest one much)
          ∙ append-nil ls)

  -- A stream of whole lines, each shorter than 1 MiB, is sent as a file that holds them is when it is
  -- followed from before the first of them.
  pub run_reader-follow :
      (d : Disk) (t : Tail) (s : S) (ls : List Str)
      → All IsOneLine ls
      → All (IsShort max_token) ls
      → left d t ≡ unlines ls
      → run_reader send (unlines ls) s ≡ (follow send (replicate (length ls) d) (t, s)).1
  unfolding read_stream within split_lines
  run_reader-follow d t s ls h short e =
      ap (λ k. each send k s)
        (ap (scan max_token) (sym (append-nil (unlines ls)))
          ∙ scan-lines max_token ls [] h short
          ∙ append-nil ls)
      ∙ sym (ap (λ r. r.1) (follow-sends_lines send d t s ls h e))
