-- ===== src/Receiver/Os.antt =====
-- internal/receiver/os.go: CPU and memory of a process. The files under /proc and the output of the
-- commands are arguments, `none` where they cannot be read. A uint64 wraps at 2^64.
pub mod Stat
pub mod Samples
use taplytix.Prelude.{
  ℕ, ◌+◌, ◌-◌, ◌*◌, ◌%◌, Bool, true, false, not, ◌&&◌, ◌||◌, Option, none, some, List, [], ◌∷◌,
  ◌++◌, length, get_or, drop, if◌then◌else◌, ltb, ◌==◌, Str, bytes, str_eq,
}
use taplytix.Prelude.Int.{ℤ, pos, leb_ℤ}
use taplytix.Prelude.Text.{
  fields, cut_at, cut_last_at, split_on, has_prefix, has_suffix, trim_space,
}
use taplytix.Prelude.Numerals.{word, parse_uint, atoi}
use taplytix.Clock.{Time, zero_time, is_zero, second}
use taplytix.Floats.{Floats}
use taplytix.Model.{MetricEvent, gauge, Event, metric}
use taplytix.Receiver.Outlet.{Outlet, emit_to}

-- `splitProcStat`
abbrev pub around_comm : Str → Option (Str × Str) → Option (Str × Str) → List Str
around_comm s none _ = fields s
around_comm s _ none = fields s
around_comm s (some (pre, rest)) (some (upto, post)) =
    if ltb (length upto) (length pre)
    then fields s
    else fields pre ++ drop (length pre + 1) upto ∷ fields post

unfoldable pub split_proc_stat : Str → List Str
split_proc_stat s = around_comm s (cut_at b'(' s) (cut_last_at b')' s)

-- The text of the first line, as bufio.Scanner gives it; `none` for an empty file.
abbrev drop_cr : Str → Str
drop_cr line =
    if has_suffix line (13 ∷ [])
    then elim (cut_last_at 13 line) [ none ↦ line | some (a, b) ↦ a ]
    else line

unfoldable pub first_line : Str → Option Str
first_line [] = none
first_line (c ∷ s) = elim (cut_at 10 (c ∷ s)) [
  | none ↦ some (drop_cr (c ∷ s))
  | some (line, rest) ↦ some (drop_cr line)
]

-- The loop of `readHostJiffies` over the fields behind the first.
unfoldable pub sum_jiffies : ℕ → List Str → Option ℕ
sum_jiffies total [] = some total
sum_jiffies total (f ∷ fs) =
    let rest = sum_jiffies ((total + (parse_uint f).0) % word) fs in
    if (parse_uint f).1 then rest else none

unfoldable pub jiffies_of : List Str → Option ℕ
unfolding sum_jiffies
jiffies_of [] = none
jiffies_of (name ∷ rest) =
    if ltb (length (name ∷ rest)) 8 || not (str_eq name (bytes "cpu"))
    then none
    else sum_jiffies 0 rest

-- `readHostJiffies`, of the file /proc/stat.
unfoldable pub read_host_jiffies : Option Str → Option ℕ
unfolding jiffies_of first_line
read_host_jiffies none = none
read_host_jiffies (some text) = elim (first_line text) [
  | none ↦ none
  | some line ↦ jiffies_of (fields line)
]

-- A line of /proc/<pid>/status that gives the size.
unfoldable pub rss_of : Str → Option ℕ
rss_of line =
    let fs = fields line in
    let kb = parse_uint (get_or fs 1 []) in
    if has_prefix line (bytes "VmRSS:") && ltb 1 (length fs) && kb.1
    then some (kb.0 * 1024 % word)
    else none

unfoldable pub rss_in : List Str → Option ℕ
rss_in [] = none
rss_in (line ∷ lines) = elim (rss_of line) [ some n ↦ some n | none ↦ rss_in lines ]

-- `readRSS`
unfoldable pub read_rss : Option Str → Option ℕ
unfolding rss_in rss_of
read_rss none = none
read_rss (some text) = rss_in (split_on 10 text)

-- The loop of `findPID`; `self` is `os.Getpid()`.
unfoldable pub pid_in : ℤ → List Str → Option ℤ
pid_in self [] = none
pid_in self (line ∷ lines) = elim (atoi line) [
  | none ↦ pid_in self lines
  | some pid ↦ if leb_ℤ pid self && leb_ℤ self pid then pid_in self lines else some pid
]

-- `findPID`, of the output of pgrep. `Atoi` refuses an empty line as well.
unfoldable pub find_pid : ℤ → Option Str → Option ℤ
unfolding pid_in
find_pid self none = none
find_pid self (some out) = pid_in self (split_on 10 (trim_space out))

pub record OsSidecar (F : Type 0) : Type 0 where
  pub process : Str
  pub pid : ℤ
  pub last_total : ℕ
  pub last_proc : ℕ
  pub last_time : Time
  pub out : Option (Outlet (Event F))

-- `NewOSSidecar` sets the interval to 2 seconds where it is not positive.
abbrev pub os_interval : ℤ → ℤ
os_interval interval = if leb_ℤ interval (pos 0) then pos (2 * second) else interval

abbrev pub new_os_sidecar : {F : Type 0} → Str → ℤ → OsSidecar F
new_os_sidecar process pid = record {
  process = process;
  pid = pid;
  last_total = 0;
  last_proc = 0;
  last_time = zero_time;
  out = none;
}

-- a - b of the type uint64.
abbrev pub sub_u64 : ℕ → ℕ → ℕ
sub_u64 a b = (a + word - b) % word

-- What a tick of the receiver reads: the clock, the number of CPUs, and the files.
pub record Reading : Type 0 where
  pub now : Time
  pub cpus : ℕ
  pub proc_stat : Option Str
  pub host_stat : Option Str
  pub status : Option Str

-- `utime + stime`, of 24 fields or more.
unfoldable pub proc_total : Option Str → Option ℕ
unfolding split_proc_stat
proc_total none = none
proc_total (some text) =
    let fs = split_proc_stat text in
    if ltb (length fs) 24
    then none
    else some (((parse_uint (get_or fs 13 [])).0 + (parse_uint (get_or fs 14 [])).0) % word)

abbrev pub os_gauge : {F : Type 0} → Str → Time → F → Event F
os_gauge name now value = metric (record {
  name = name;
  value = value;
  labels = [];
  kind = gauge;
  timestamp = now;
  source = bytes "os";
})

abbrev pub cpu_name : Str
cpu_name = bytes "process.cpu.percent"

abbrev pub memory_name : Str
memory_name = bytes "process.memory.rss"

abbrev pub host_or_zero : Option ℕ → ℕ
host_or_zero none = 0
host_or_zero (some n) = n

abbrev pub is_some : Option ℕ → Bool
is_some none = false
is_some (some n) = true

module _ {F : Type 0} (fl : Floats F) where
  -- `dProc / dHost * 100 * ncpu`
  abbrev pub cpu_percent : ℕ → ℕ → ℕ → F
  cpu_percent d_proc d_host cpus =
      fl.mul
        (fl.mul (fl.div (fl.of_int (pos d_proc)) (fl.of_int (pos d_host))) (fl.of_int (pos 100)))
        (fl.of_int (pos cpus))

  -- The CPU event of a sample, where the receiver has an earlier one.
  unfoldable pub emit_cpu : Reading → ℕ → Option ℕ → OsSidecar F → OsSidecar F
  emit_cpu rd proc host r =
      let d_host = sub_u64 (host_or_zero host) r.last_total in
      if is_zero r.last_time || not (is_some host) || not (ltb 0 d_host) then r else record r {
        out =
            emit_to r.out
              (os_gauge cpu_name rd.now (cpu_percent (sub_u64 proc r.last_proc) d_host rd.cpus));
      }

  unfoldable pub emit_rss : Reading → Option ℕ → OsSidecar F → OsSidecar F
  emit_rss rd none r = r
  emit_rss rd (some rss) r = record r {
    out = emit_to r.out (os_gauge memory_name rd.now (fl.of_int (pos rss)));
  }

  abbrev pub remember : Reading → ℕ → Option ℕ → OsSidecar F → OsSidecar F
  remember rd proc host r = record r {
    last_total = host_or_zero host;
    last_proc = proc;
    last_time = rd.now;
  }

  abbrev pub sample_from : Reading → Option ℕ → OsSidecar F → OsSidecar F
  sample_from rd none r = r
  sample_from rd (some proc) r =
      let host = read_host_jiffies rd.host_stat in
      emit_rss rd (read_rss rd.status) (remember rd proc host (emit_cpu rd proc host r))

  -- `sampleLinux`
  unfoldable pub sample_linux : Reading → OsSidecar F → OsSidecar F
  unfolding emit_cpu emit_rss
  sample_linux rd r = sample_from rd (proc_total rd.proc_stat) r

  abbrev pub found : Option ℤ → OsSidecar F → OsSidecar F
  found none r = r
  found (some pid) r = record r { pid = pid }

  abbrev pub is_none_pid : OsSidecar F → Bool
  is_none_pid r = leb_ℤ r.pid (pos 0) && leb_ℤ (pos 0) r.pid && not (str_eq r.process [])

  -- One tick of `run`: `pgrep` is what `findPID` returns, `rd` gives the files for a process id.
  unfoldable pub tick : Option ℤ → (ℤ → Reading) → OsSidecar F → OsSidecar F
  unfolding sample_linux
  tick pgrep rd r =
      let r' = if is_none_pid r then found pgrep r else r in
      if leb_ℤ r'.pid (pos 0) then r' else sample_linux (rd r'.pid) r'
