-- ===== src/Tests.antt =====
-- Runs of the program on concrete inputs, and the theorems applied to them.
mod Rings
mod Traces
mod Services
mod Alerts
mod Wires
mod Screens
mod Tails
mod Keys
mod Receivers
mod Renders
mod Panels
mod Otlp
mod Hosts
mod Feeds
mod Commands
