-- ===== src/Tests/Hosts.antt =====
-- The lines of /proc and two samples of the OS receiver.
use taplytix.Prelude.{ℕ, ◌+◌, ◌%◌, ◌≡◌, refl, Option, none, some, [], get_or, Str, bytes, arith}
use taplytix.Prelude.Int.{pos}
use taplytix.Prelude.Text.{fields}
use taplytix.Prelude.Numerals.{word, parse_uint}
use taplytix.Floats.Exact.{Exact}
use taplytix.Receiver.Os.{OsSidecar, new_os_sidecar, Reading, proc_total}
use taplytix.Receiver.Os.Stat.{stat_line, proc_total-stat_line}

-- utime 30 and stime 12, of 22 fields behind the name.
abbrev post : Str
post = bytes " S 1 2 3 4 5 6 7 8 9 10 30 12 13 14 15 16 17 18 19 20 21"

abbrev forty_two : Str
forty_two = stat_line (bytes "7 ") (bytes "my (odd) app") post

proc_total-stat_line_example :
    proc_total (some forty_two)
    ≡ some (
        ((parse_uint (get_or (fields post) 11 [])).0 + (parse_uint (get_or (fields post) 12 [])).0)
        % word)
unfolding fields
proc_total-stat_line_example =
    proc_total-stat_line (bytes "7 ") (bytes "my (odd) app") post (ground arith) (ground arith) refl
      (omega arith)

abbrev fifty_two : Str
fifty_two =
    stat_line (bytes "7 ") (bytes "my (odd) app")
      (bytes " S 1 2 3 4 5 6 7 8 9 10 40 12 13 14 15 16 17 18 19 20 21")

abbrev reading : ℕ → Str → Option Str → Reading
reading now stat host = record {
  now = pos now;
  cpus = 2;
  proc_stat = some stat;
  host_stat = host;
  status = none;
}

abbrev first : Reading
first = reading 1 forty_two (some (bytes "cpu 10 20 30 40 0 0 0"))

abbrev second : Reading
second = reading 3 fifty_two (some (bytes "cpu 60 20 30 90 0 0 0"))

abbrev sidecar : OsSidecar Exact
sidecar = record (new_os_sidecar (bytes "app") (pos 7)) {
  out = some (record { room = 4; held = [] });
}
