-- ===== src/Lib.antt =====
-- taplytix: a terminal dashboard for logs, metrics and traces.
--
-- Receivers turn what they read into events (model) and put them on one channel. A pipeline in
-- cmd/taplytix/main.go publishes each event on the bus and stores it. The store keeps, per service,
-- the series of its metrics, its traces and its logs. The alert engine evaluates rules against the
-- store on each tick and sends its alerts through the bus to the Bubble Tea program, whose root model
-- keeps the active alerts and passes messages to the panels.
--
-- Files, with the code that each models:
--   Model, Model/Wire            internal/model: the events; the tagged envelope of wire.go
--   Store/Ring                   internal/store/ring.go
--   Store/Percentile             internal/store/percentile.go
--   Store/Series                 internal/store/timeseries.go
--   Store/TraceMap               internal/store/tracemap.go
--   Store/Services               internal/store/store.go, and the pipeline's type switch
--   Alert/Rule, Alert/Engine     internal/alert/rule.go, internal/alert/engine.go
--   Bus                          internal/bus/bus.go
--   Tui/App                      internal/tui/app.go, keymap.go, and the interface of panels/panel.go
--   Receiver/Outlet, Statsd      internal/receiver/statsd.go: emit, the parser, the packet loop
--   Receiver/Sockets             internal/receiver/statsd.go: Start, Stop, and the closing goroutine
--   Receiver/Logfmt, LogTail     internal/receiver/logtail.go: from a line to a log event; following a
--                                file (LogTail/Tailing); the lines of stdin and of a connection
--                                (LogTail/Streams); Start and Stop (LogTail/Calls)
--   Render/Cells                 internal/render/sparkline.go, barchart.go
--   Render/Waterfall, Buckets    internal/render/waterfall.go, histogram.go
--   Panels/Traces, Logs          internal/tui/panels/traces.go, logs.go
--   Alert/Webhook                internal/alert/notifier/webhook.go
--   Receiver/Otlp                internal/receiver/otlp.go
--   Receiver/Os                  internal/receiver/os.go
--   Receiver/Prometheus, Backoff internal/receiver/prometheus.go
--   Receiver/Remote              internal/receiver/remote.go
--   Panels/Metrics, Overview,
--   Panels/Services              internal/tui/panels/metrics.go, overview.go, services.go
--   Config, Command              internal/config/config.go, cmd/taplytix/main.go
--   Agent/Broadcaster            internal/agent/broadcaster.go; the decoding loop of
--                                internal/receiver/remote.go
-- The modules below each of these prove its properties. Prelude holds the shared names, lists, maps,
-- texts, sorting and integers; Clock is time.Time and time.Duration; Floats is float64. Tests holds
-- runs on concrete inputs.
--
-- Conventions. A text is the list of its bytes. A Go map is an association list; the order in which
-- Go ranges over it is the order of the list, and the theorems hold for every order. time.Time is the
-- count of nanoseconds since the zero time, unbounded; time.Duration is an integer, and Sub saturates
-- at the bounds of an int64 as the documentation says. Counters and indices of type int are natural
-- numbers or integers without a bound, since none of them comes near 2^63 in a running program.
-- float64 is a parameter with its operations; the theorems that need the order of IEEE 754 state it
-- as a hypothesis, and Floats/Exact shows that it can be met. encoding/json is a parameter in the
-- same way. time.Now() is an argument. All loops are structural recursion, so no function takes fuel
-- unless its comment says so.
--
-- Each method that holds a mutex is one step, and goroutines are sequences of such steps: races inside
-- a step are not modelled. What the alert engine sends out is a list of effects in the order in which
-- the code starts them; the goroutine of a notifier may finish later.
--
-- Receivers. strconv.ParseFloat, time.Parse and encoding/json are parameters. White space and letter
-- case are those of ASCII. The logfmt loop has fuel, one round for each byte of the line and one more,
-- which is shown to be enough; the walk over a trace counts its depth of calls in the same way, and is
-- shown to end on a tree and not to end on a span that is its own parent. Cells stand for runes of one
-- column; colours and styles are left out.
--
-- The OTLP receiver stands in four parts: what a request becomes, the transports, which servers run after
-- calls of Start and Stop, and a Stop with calls pending, as steps of goroutines in any order. Package
-- pdata and the Prometheus client model are third-party: their values are records of what the accessors
-- return, and codecs are parameters. The loops of the Prometheus and the remote receivers run over a
-- list of what the network brings them. Counters of the operating system are numbers below 2^64, with the
-- wrap-around of the type written out.
--
-- Not modelled: reading sockets, the connections of the log tail receiver, the sample of the OS receiver on macOS, the drawing
-- of the panels, text that only package fmt and the terminal see, the notifiers for files and the bell,
-- the agent's server and its writers, and of the command line the flags, the terminal program and SSH.
pub mod Prelude
pub mod Clock
pub mod Floats
pub mod Model
pub mod Store
pub mod Alert
pub mod Tui
pub mod Bus
pub mod Receiver
pub mod Agent
pub mod Config
pub mod Command
pub mod Render
pub mod Panels
pub mod Tests
