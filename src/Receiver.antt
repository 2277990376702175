-- ===== src/Receiver.antt =====
-- internal/receiver: the sources of events.
pub mod Outlet
pub mod Sends
pub mod Statsd
pub mod Sockets
pub mod Logfmt
pub mod LogTail
pub mod Otlp
pub mod Os
pub mod Backoff
pub mod Remote
pub mod Prometheus
