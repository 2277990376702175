-- ===== src/Receiver/Statsd/Packets.antt =====
-- What a packet puts on the channel.
use taplytix.Prelude.{
  ◌≡◌, ◌≤◌, refl, Option, none, some, List, [], ◌∷◌, ◌++◌, length, take, if◌then◌else◌, Str, str_eq,
  Bool-cases, inl, inr,
}
use taplytix.Prelude.Text.{split_on, trim_space}
use taplytix.Clock.{Time}
use taplytix.Floats.{Floats}
use taplytix.Model.{MetricEvent}
use taplytix.Receiver.Outlet.{Outlet, emit, emit_all, emit_to, emit_all-eq-take}
use taplytix.Receiver.Statsd.{parse_line, emit_some, read_lines, read_packet}

module _ {F : Type 0} (fl : Floats F) (parse_float : Str → Option F) (now : Time)
    (source : Str) where
  abbrev pub and_then : Option (MetricEvent F) → List (MetricEvent F) → List (MetricEvent F)
  and_then none evs = evs
  and_then (some ev) evs = ev ∷ evs

  -- The events of the readable lines, blank lines and malformed ones left out.
  abbrev pub readable : List Str → List (MetricEvent F)
  readable [] = []
  readable (raw ∷ lines) =
      let rest = readable lines in
      if str_eq (trim_space raw) []
      then rest
      else and_then (parse_line fl parse_float now source (trim_space raw)) rest

  emit_some-and_then :
      (o : Option (MetricEvent F)) (out : Outlet (MetricEvent F)) (evs : List (MetricEvent F))
      (r : Option (Outlet (MetricEvent F)) → Option (Outlet (MetricEvent F)))
      → ((x : Outlet (MetricEvent F)) → r (some x) ≡ some (emit_all x evs))
      → r (emit_some fl parse_float now source o (some out)) ≡ some (emit_all out (and_then o evs))
  unfolding emit_to emit_all
  emit_some-and_then none out evs r h = h out
  emit_some-and_then (some ev) out evs r h = h (emit out ev)

  read_lines-emit_all :
      (lines : List Str) (out : Outlet (MetricEvent F))
      → read_lines fl parse_float now source lines (some out) ≡ some (emit_all out (readable lines))
  unfolding read_lines
  read_lines-emit_all [] out = unfold emit_all in refl
  read_lines-emit_all (raw ∷ lines) out = elim (Bool-cases (str_eq (trim_space raw) [])) [
    | inl blank ↦ rw blank (read_lines-emit_all lines out)
    | inr text ↦ rw text (
        emit_some-and_then (parse_line fl parse_float now source (trim_space raw)) out
          (readable lines) (read_lines fl parse_float now source lines) (read_lines-emit_all lines))
  ]

  -- A packet puts the events of its readable lines on the channel, in order and after what is there,
  -- as far as there is room while nothing is taken off; a blank or malformed line costs only itself.
  -- A receiver that has no channel reads the packet without effect.
  pub read_packet_lem :
      (packet : Str) (out : Outlet (MetricEvent F))
      → length out.held ≤ out.room
      → ((sent : Outlet (MetricEvent F)) × (read_packet fl parse_float now source packet (some out)
            ≡ some sent)
          × (sent.held ≡ take out.room (out.held ++ readable (split_on 10 packet))))
        × (read_packet fl parse_float now source packet none ≡ none)
  unfolding read_packet
  read_packet_lem packet out h = (
    (
      emit_all out (readable (split_on 10 packet)),
      read_lines-emit_all (split_on 10 packet) out,
      emit_all-eq-take (readable (split_on 10 packet)) out h,
    ),
    unheard (split_on 10 packet),
  )
    where
      unheard_event :
          (o : Option (MetricEvent F)) → emit_some fl parse_float now source o none ≡ none
      unheard_event none = refl
      unheard_event (some ev) = unfold emit_to in refl

      unheard : (lines : List Str) → read_lines fl parse_float now source lines none ≡ none
      unheard [] = unfold read_lines in refl
      unheard (raw ∷ lines) = elim (Bool-cases (str_eq (trim_space raw) [])) [
        | inl blank ↦ unfold read_lines in rw blank (unheard lines)
        | inr text ↦
            unfold read_lines in
            rw (text, unheard_event (parse_line fl parse_float now source (trim_space raw)))
              (unheard lines)
      ]
