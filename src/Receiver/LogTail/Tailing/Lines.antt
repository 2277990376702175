-- ===== src/Receiver/LogTail/Tailing/Lines.antt =====
-- The lines that are sent while a file of internal/receiver/logtail.go is followed.
use mathlib.Core.List.{append_assoc}
use taplytix.Prelude.{
  ℕ, ◌+◌, ◌≡◌, refl, sym, ap, ◌∙◌, Bool, true, false, some, List, [], ◌∷◌, ◌++◌, length, drop,
  replicate, each, flat, All, ◌==◌, Str, arith, length-append, drop-drop,
}
use taplytix.Receiver.LogTail.Tailing.{
  Disk, Tail, read_string, trim_eol, is_eol, open_at_end, reopen, after_read, send_read, pass,
  follow,
}

-- A text with no end of a line in it.
abbrev pub IsOneLine : Str → Type 0
IsOneLine s = All (λ c. is_eol c ≡ false) s

-- Each line with its newline behind it.
abbrev pub unlines : List Str → Str
unlines = flat (λ l. l ++ 10 ∷ [])

no_newline : (c : ℕ) → is_eol c ≡ false → (c == 10) ≡ false
no_newline c h = ground (arith, h)

read_string-line :
    (l rest : Str) → IsOneLine l → read_string (l ++ (10 ∷ rest)) ≡ (l ++ 10 ∷ [], true)
unfolding read_string
read_string-line [] rest h = refl
read_string-line (c ∷ l) rest h =
    rw (no_newline c h.0) (ap (λ r. (c ∷ r.0, r.1)) (read_string-line l rest h.1))

read_string-partial : (l : Str) → IsOneLine l → read_string l ≡ (l, false)
unfolding read_string
read_string-partial [] h = refl
read_string-partial (c ∷ l) h =
    rw (no_newline c h.0) (ap (λ r. (c ∷ r.0, r.1)) (read_string-partial l h.1))

trim_eol-line : (l : Str) → IsOneLine l → trim_eol (l ++ 10 ∷ []) ≡ l
unfolding trim_eol
trim_eol-line [] h = refl
trim_eol-line (c ∷ l) h = rw (trim_eol-line l h.1, h.0) refl

trim_eol-partial : (l : Str) → IsOneLine l → trim_eol l ≡ l
unfolding trim_eol
trim_eol-partial [] h = refl
trim_eol-partial (c ∷ l) h = rw (trim_eol-partial l h.1, h.0) refl

drop-append_length {ℓ} : {A : Type ℓ} (xs ys : List A) → drop (length xs) (xs ++ ys) ≡ ys
drop-append_length [] ys = refl
drop-append_length (x ∷ xs) ys = drop-append_length xs ys

-- What is left of the file that is open.
abbrev pub left : Disk → Tail → Str
left d t = drop t.offset (d.content t.file)

module _ {S : Type 0} (send : Str → S → S) where
  -- A pass, by what is read.
  pass_read :
      (d : Disk) (t : Tail) (s : S) (line : Str) (full : Bool)
      → read_string (left d t) ≡ (line, full)
      → pass send d (t, s)
        ≡ (after_read d full (record t { offset = t.offset + length line }), send_read send line s)
  unfolding pass
  pass_read d t s line full e =
      ap
        (λ (r : Str × Bool).
          (after_read d r.1 (record t { offset = t.offset + length r.0 }), send_read send r.0 s))
        e

  send_line : (l : Str) (s : S) → IsOneLine l → send_read send (l ++ 10 ∷ []) s ≡ send l s
  send_line l s h =
      let n : (length (l ++ 10 ∷ []) == 0) ≡ false = ground (arith, length-append l (10 ∷ [])) in
      rw (n, trim_eol-line l h) refl

  -- At the first line of what is left, a pass sends it and stands behind it.
  pass_line :
      (d : Disk) (t : Tail) (s : S) (l rest : Str)
      → IsOneLine l
      → left d t ≡ l ++ (10 ∷ rest)
      → pass send d (t, s) ≡ (record t { offset = t.offset + length (l ++ 10 ∷ []) }, send l s)
  pass_line d t s l rest h e =
      pass_read d t s (l ++ 10 ∷ []) true (ap read_string e ∙ read_string-line l rest h)
      ∙ ap (λ r. (record t { offset = t.offset + length (l ++ 10 ∷ []) }, r)) (send_line l s h)

  left_after :
      (d : Disk) (t : Tail) (read rest : Str)
      → left d t ≡ read ++ rest
      → left d (record t { offset = t.offset + length read }) ≡ rest
  left_after d t read rest e =
      sym (drop-drop (length read) t.offset (d.content t.file))
      ∙ ap (drop (length read)) e
      ∙ drop-append_length read rest

  -- Whole lines that are in the open file behind the offset are sent in their order, each once and
  -- without its newline, one for each pass, and the offset then stands behind them.
  pub follow-sends_lines :
      (d : Disk) (t : Tail) (s : S) (ls : List Str)
      → All IsOneLine ls
      → left d t ≡ unlines ls
      → follow send (replicate (length ls) d) (t, s)
        ≡ (record t { offset = t.offset + length (unlines ls) }, each send ls s)
  unfolding follow
  follow-sends_lines d t s [] h e = ap (λ n. (record t { offset = n }, s)) (omega arith)
  follow-sends_lines d t s (l ∷ ls) h e =
      let e' : left d t ≡ l ++ (10 ∷ unlines ls) = e ∙ append_assoc l (10 ∷ []) (unlines ls) in
      let t' : Tail = record t { offset = t.offset + length (l ++ 10 ∷ []) } in
      let behind : left d t' ≡ unlines ls = left_after d t (l ++ 10 ∷ []) (unlines ls) e in
      let n : t'.offset + length (unlines ls) ≡ t.offset + length (unlines (l ∷ ls)) =
        omega (arith, length-append (l ++ 10 ∷ []) (unlines ls)) in
      ap (follow send (replicate (length ls) d)) (pass_line d t s l (unlines ls) h.0 e')
      ∙ follow-sends_lines d t' (send l s) ls h.1 behind
      ∙ ap (λ k. (record t { offset = k }, each send ls (send l s))) n

  -- A pass over what has no newline.
  pass_partial :
      (d : Disk) (t : Tail) (s : S) (l : Str)
      → IsOneLine l
      → left d t ≡ l
      → pass send d (t, s)
        ≡ (reopen d d.at_path (record t { offset = t.offset + length l }), send_read send l s)
  pass_partial d t s l h e = pass_read d t s l false (ap read_string e ∙ read_string-partial l h)

  -- A file that takes the path's place while the open one is read to its end is read from where it ends
  -- when it is noticed: the lines it holds by then are not sent, only the lines added after.
  pub rotated-sends_later :
      (d d' : Disk) (t : Tail) (s : S) (id : ℕ) (ls : List Str)
      → left d t ≡ []
      → d.at_path ≡ some id
      → (id == t.file) ≡ false
      → d.opens ≡ true
      → All IsOneLine ls
      → d'.content id ≡ d.content id ++ unlines ls
      → (follow send (d ∷ replicate (length ls) d') (t, s)).1 ≡ each send ls s
  unfolding follow
  rotated-sends_later d d' t s id ls e p ne o h grown =
      let at : Tail = open_at_end d id in
      let moved : pass send d (t, s) ≡ (at, s) =
        pass_partial d t s [] tt e ∙ (rw (p, ne, o) refl) in
      let behind : left d' at ≡ unlines ls =
        ap (drop (length (d.content id))) grown ∙ drop-append_length (d.content id) (unlines ls) in
      ap (λ r. (follow send (replicate (length ls) d') r).1) moved
      ∙ ap (λ r. r.1) (follow-sends_lines d' at s ls h behind)

  -- A line that is read before its end is written is sent as two.
  pub partial_line-sends_both :
      (d d' : Disk) (t : Tail) (s : S) (a b : Str)
      → d.at_path ≡ some t.file
      → IsOneLine a
      → (length a == 0) ≡ false
      → IsOneLine b
      → left d t ≡ a
      → left d' t ≡ a ++ (b ++ 10 ∷ [])
      → (follow send (d ∷ d' ∷ []) (t, s)).1 ≡ send b (send a s)
  unfolding follow
  partial_line-sends_both d d' t s a b p ha na hb e e' =
      let t' : Tail = record t { offset = t.offset + length a } in
      let same : (t.file == t.file) ≡ true = ground arith in
      let first : pass send d (t, s) ≡ (t', send a s) =
        pass_partial d t s a ha e ∙ (rw (p, na, trim_eol-partial a ha, same) refl) in
      let second : left d' t' ≡ b ++ 10 ∷ [] = left_after d' t a (b ++ 10 ∷ []) e' in
      ap (λ r. (pass send d' r).1) first ∙ ap (λ r. r.1) (pass_line d' t' (send a s) b [] hb second)
