-- ===== src/Tests/Receivers.antt =====
-- Lines of StatsD and of logs, and the life of a socket.
use taplytix.Prelude.{
  ◌≡◌, ◌≢◌, refl, [], ◌∷◌, ◌++◌, Option, none, some, Str, bytes, arith, take, str_eq,
}
use taplytix.Prelude.Int.{pos}
use taplytix.Prelude.Maps.{insert}
use taplytix.Prelude.Text.{join, split_on}
use taplytix.Floats.Exact.{Exact, milli, exact}
use taplytix.Model.{MetricEvent}
use taplytix.Receiver.Outlet.{Outlet}
use taplytix.Receiver.Statsd.{read_packet}
use taplytix.Receiver.Statsd.Packets.{readable, read_packet_lem}
use taplytix.Receiver.Logfmt.{parse_pairs, pairs}
use taplytix.Receiver.Logfmt.RoundTrip.{parse_pairs-line}
use taplytix.Receiver.LogTail.{Readers}
use taplytix.Receiver.LogTail.Structured.{Json, parse}
use taplytix.Receiver.LogTail.Events.{IsComplete, parse-IsComplete}

-- A reader of three numbers.
abbrev some_float : Str → Option Exact
some_float [] = none
some_float (c ∷ []) = some (milli 320000)
some_float (c ∷ d ∷ s) = some (milli 500)

abbrev outlet : Outlet (MetricEvent Exact)
outlet = record { room = 4; held = [] }

read_packet_lem_example :
    ((sent : Outlet (MetricEvent Exact)) × (read_packet exact some_float
          (pos 7)
          (bytes "dogs")
          (bytes "a:1|c")
          (some outlet)
        ≡ some sent)
      × (sent.held
          ≡ take 4 (
              []
              ++ readable exact some_float (pos 7) (bytes "dogs") (split_on 10 (bytes "a:1|c")))))
    × (read_packet exact some_float (pos 7) (bytes "dogs") (bytes "a:1|c") none ≡ none)
read_packet_lem_example =
    read_packet_lem exact some_float (pos 7) (bytes "dogs") (bytes "a:1|c") outlet (omega arith)

-- level="warn" msg="a \"b\""
parse_pairs-line_example :
    parse_pairs (bytes "level=\"warn\" msg=\"a \\\"b\\\"\"")
    ≡ pairs ((bytes "level", bytes "warn") ∷ (bytes "msg", bytes "a \"b\"") ∷ [])
unfolding join insert str_eq
parse_pairs-line_example =
    parse_pairs-line ((bytes "level", bytes "warn") ∷ (bytes "msg", bytes "a \"b\"") ∷ [])
      (ground arith)

abbrev readers : Readers Exact
readers = record { parse_float = λ s. none; to_int = λ x. pos 0; parse_stamp = λ f s. none }

abbrev no_json : Json Exact
no_json = record { object_of = λ s. none; format_float = λ x. []; marshal = λ n. [] }

nonempty : bytes "[WARN] disk" ≢ []
nonempty e = cc e

parse-IsComplete_example :
    IsComplete
      (parse exact readers no_json (pos 9) (bytes "auto") (bytes "[WARN] disk") (bytes "db"))
parse-IsComplete_example =
    parse-IsComplete (pos 9) refl exact readers no_json (bytes "auto") (bytes "[WARN] disk")
      (bytes "db") nonempty
