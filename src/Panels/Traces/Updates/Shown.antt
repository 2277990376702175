-- ===== src/Panels/Traces/Updates/Shown.antt =====
-- What the viewport of internal/tui/panels/traces.go shows while messages come, and where the list and
-- the selection of the panel part.
use taplytix.Prelude.{◌≡◌}
use taplytix.Prelude.Int.{ℤ}
use taplytix.Store.Services.{Store}
use taplytix.Panels.Traces.Updates.{Panel, content_of}

-- The viewport shows the waterfall of the trace that is selected, drawn for some width.
abbrev pub IsShown : {L : Type 0} → Panel L → Type 0
IsShown p = (width : ℤ) × (p.content ≡ content_of p.base width)
