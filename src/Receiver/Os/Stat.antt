-- ===== src/Receiver/Os/Stat.antt =====
-- The lines that internal/receiver/os.go reads under /proc.
use mathlib.Core.List.{append_assoc}
use taplytix.Prelude.{
  ℕ, suc, ◌+◌, ◌%◌, ◌≤◌, ◌≡◌, refl, sym, ap, ◌∙◌, false, Option, none, some, List, [], ◌∷◌, ◌++◌,
  length, get_or, drop, length-append, arith, Str, if◌then◌else◌, ltb,
}
use taplytix.Prelude.Text.{fields, cut_last_at, cut_at-append, cut_last_at-append, IsFree}
use taplytix.Prelude.Numerals.{word, parse_uint}
use taplytix.Receiver.Os.{around_comm, split_proc_stat, proc_total}

drop-past : (pre comm : Str) (c : ℕ) → drop (length pre + 1) (pre ++ (c ∷ comm)) ≡ comm
drop-past [] comm c = refl
drop-past (d ∷ pre) comm c =
    let e : length (d ∷ pre) + 1 ≡ suc (length pre + 1) = omega arith in rw e (drop-past pre comm c)

-- `pid (comm) state …`
abbrev pub stat_line : Str → Str → Str → Str
stat_line pre comm post = pre ++ (b'(' ∷ (comm ++ (b')' ∷ post)))

split-stat_line :
    (pre comm post : Str)
    → IsFree b'(' pre
    → IsFree b')' post
    → split_proc_stat (stat_line pre comm post) ≡ fields pre ++ comm ∷ fields post
unfolding split_proc_stat
split-stat_line pre comm post h k =
    let s : Str = stat_line pre comm post in
    let upto : Str = pre ++ (b'(' ∷ comm) in
    let whole : upto ++ (b')' ∷ post) ≡ s = append_assoc pre (b'(' ∷ comm) (b')' ∷ post) in
    let last : cut_last_at b')' s ≡ some (upto, post) =
      ap (cut_last_at b')') (sym whole) ∙ cut_last_at-append b')' upto post k in
    ap (λ o. around_comm s o (cut_last_at b')' s))
      (cut_at-append b'(' pre (comm ++ (b')' ∷ post)) h)
    ∙ ap (around_comm s (some (pre, comm ++ (b')' ∷ post)))) last
    ∙ between s pre upto comm post (drop-past pre comm b'(')
        (omega (arith, length-append pre (b'(' ∷ comm)))
  where
    between :
        (s pre upto comm post : Str)
        → drop (length pre + 1) upto ≡ comm
        → length pre ≤ length upto
        → around_comm s (some (pre, comm ++ (b')' ∷ post))) (some (upto, post))
          ≡ fields pre ++ comm ∷ fields post
    between s pre upto comm post e le =
        let not_before : ltb (length upto) (length pre) ≡ false = ground arith in
        rw not_before (ap (λ c. fields pre ++ c ∷ fields post) e)

-- Whatever the name of a process is, with spaces and parentheses in it or not: of a line of
-- /proc/<pid>/stat with one field before the name and 22 or more behind it, the receiver adds the
-- 12th and the 13th field behind the name, as numbers, modulo 2^64.
pub proc_total-stat_line :
    (pre comm post : Str)
    → IsFree b'(' pre
    → IsFree b')' post
    → length (fields pre) ≡ 1
    → 22 ≤ length (fields post)
    → proc_total (some (stat_line pre comm post))
      ≡ some (
          ((parse_uint (get_or (fields post) 11 [])).0
            + (parse_uint (get_or (fields post) 12 [])).0)
          % word)
unfolding proc_total
proc_total-stat_line pre comm post h k one many =
    ap total_of (split-stat_line pre comm post h k) ∙ by_pre (fields pre) one
  where
    total_of : List Str → Option ℕ
    total_of fs =
        if ltb (length fs) 24
        then none
        else some (((parse_uint (get_or fs 13 [])).0 + (parse_uint (get_or fs 14 [])).0) % word)

    by_pre :
        (before : List Str)
        → length before ≡ 1
        → total_of (before ++ comm ∷ fields post)
          ≡ some (
              ((parse_uint (get_or (fields post) 11 [])).0
                + (parse_uint (get_or (fields post) 12 [])).0)
              % word)
    by_pre [] e = absurd (omega arith)
    by_pre (p ∷ q ∷ before) e = absurd (omega arith)
    by_pre (p ∷ []) e =
        let enough : ltb (length (p ∷ comm ∷ fields post)) 24 ≡ false = ground arith in rw enough
