-- ===== src/Receiver/LogTail/Tailing.antt =====
-- `runFile` of internal/receiver/logtail.go: following a file that grows and may be rotated. Each pass of
-- the loop sees the disk as it is then; the waits between passes are left out, and the context lives. The
-- reader is taken at what it returns: bytes up to a newline, or what there is.
pub mod Lines
use taplytix.Prelude.{
  ℕ, ◌+◌, Bool, true, false, ◌&&◌, ◌||◌, Option, none, some, List, [], ◌∷◌, ◌++◌, length, drop,
  if◌then◌else◌, ◌==◌, Str,
}

-- What the files hold, by their identity; the file that the path names now, if any; and whether opening
-- it, its seek and its stat go through.
pub record Disk : Type 0 where
  pub content : ℕ → Str
  pub at_path : Option ℕ
  pub opens : Bool

-- `f` and `fi` as the identity of the file, and how much of it has been read.
pub record Tail : Type 0 where
  pub file : ℕ
  pub offset : ℕ

-- `ReadString('\n')` on what is left: the text, and whether it ends in the newline.
unfoldable pub read_string : Str → Str × Bool
read_string [] = ([], false)
read_string (c ∷ s) =
    let rest = read_string s in if c == 10 then (c ∷ [], true) else (c ∷ rest.0, rest.1)

abbrev pub is_eol : ℕ → Bool
is_eol c = c == 10 || c == 13

-- `strings.TrimRight(line, "\r\n")`
unfoldable pub trim_eol : Str → Str
trim_eol [] = []
trim_eol (c ∷ s) = let rest = trim_eol s in if is_eol c && length rest == 0 then [] else c ∷ rest

-- The function `open` of `runFile`: it seeks to the end.
abbrev pub open_at_end : Disk → ℕ → Tail
open_at_end d id = record { file = id; offset = length (d.content id) }

-- The first open, which is tried again until it goes through.
unfoldable pub first_open : List Disk → Option (Tail × List Disk)
first_open [] = none
first_open (d ∷ later) = elim d.at_path [
  | none ↦ first_open later
  | some id ↦
      let rest = first_open later in if d.opens then some (open_at_end d id, later) else rest
]

-- At the end of the file: a new file under the path is opened, where that goes through.
abbrev pub reopen : Disk → Option ℕ → Tail → Tail
reopen d none t = t
reopen d (some id) t = if id == t.file then t else if d.opens then open_at_end d id else t

abbrev pub after_read : Disk → Bool → Tail → Tail
after_read d true t = t
after_read d false t = reopen d d.at_path t

-- `send` is `emitLine` of the parser.
module _ {S : Type 0} (send : Str → S → S) where
  abbrev pub send_read : Str → S → S
  send_read line s = if length line == 0 then s else send (trim_eol line) s

  -- One pass of the loop.
  unfoldable pub pass : Disk → Tail × S → Tail × S
  unfolding read_string trim_eol
  pass d (t, s) =
      let r = read_string (drop t.offset (d.content t.file)) in
      (after_read d r.1 (record t { offset = t.offset + length r.0 }), send_read r.0 s)

  unfoldable pub follow : List Disk → Tail × S → Tail × S
  unfolding pass
  follow [] ts = ts
  follow (d ∷ later) ts = follow later (pass d ts)
