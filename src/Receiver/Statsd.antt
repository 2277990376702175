-- ===== src/Receiver/Statsd.antt =====
-- internal/receiver/statsd.go: the UDP receiver and its line parser. strconv.ParseFloat is a parameter;
-- `now` is what time.Now() gives.
pub mod Lines
pub mod Packets
use taplytix.Prelude.{
  ℕ, ◌+◌, Bool, true, false, ◌&&◌, Option, none, some, List, [], ◌∷◌, ◌++◌, length, if◌then◌else◌,
  ltb, Str, bytes, str_eq,
}
use taplytix.Prelude.Int.{ℤ, pos}
use taplytix.Prelude.Maps.{Map, insert}
use taplytix.Prelude.Text.{cut_at, split_on, trim_space}
use taplytix.Clock.{Time}
use taplytix.Floats.{Floats}
use taplytix.Model.{MetricKind, counter, gauge, histogram, MetricEvent}
use taplytix.Receiver.Outlet.{Outlet, emit_to}

unfoldable pub statsd_kind : Str → Option MetricKind
statsd_kind typ =
    if str_eq typ (bytes "c")
    then some counter
    else if str_eq typ (bytes "g")
    then some gauge
    else if str_eq typ (bytes "ms")
    then some histogram
    else if str_eq typ (bytes "h")
    then some histogram
    else if str_eq typ (bytes "s")
    then some counter
    else none

-- The body of the loop over the tags.
abbrev pub add_tag : Map Str → Str → Option (Str × Str) → Map Str
add_tag out tag (some (k, v)) = insert k v out
add_tag out tag none = if str_eq tag [] then out else insert tag [] out

unfoldable pub add_tags : Map Str → List Str → Map Str
unfolding cut_at
add_tags out [] = out
add_tags out (tag ∷ tags) = add_tags (add_tag out tag (cut_at b':' tag)) tags

unfoldable pub parse_tags : Str → Map Str
unfolding add_tags split_on
parse_tags s = add_tags [] (split_on b',' s)

module _ {F : Type 0} (fl : Floats F) (parse_float : Str → Option F) where
  abbrev pub scale : Option F → MetricEvent F → MetricEvent F
  scale none ev = ev
  scale (some rate) ev =
      if fl.lt (fl.of_int (pos 0)) rate && fl.lt rate (fl.of_int (pos 1))
      then record ev { value = fl.div ev.value rate }
      else ev

  -- One suffix, by its first byte: `@` and the sample rate, `#` and the tags; others are ignored.
  abbrev pub apply_suffix : Str → MetricEvent F → MetricEvent F
  apply_suffix [] ev = ev
  apply_suffix (c ∷ s) ev =
      if str_eq (c ∷ []) (bytes "@")
      then scale (parse_float s) ev
      else if str_eq (c ∷ []) (bytes "#")
      then record ev { labels = parse_tags s }
      else ev

  unfoldable pub apply_suffixes : List Str → MetricEvent F → MetricEvent F
  apply_suffixes [] ev = ev
  apply_suffixes (s ∷ suffixes) ev = apply_suffixes suffixes (apply_suffix s ev)

  module _ (now : Time) (source : Str) where
    abbrev pub fresh_event : Str → F → MetricKind → MetricEvent F
    fresh_event name value kind = record {
      name = name;
      value = value;
      labels = [];
      kind = kind;
      timestamp = now;
      source = source;
    }

    abbrev pub with_kind : Str → Option F → Option MetricKind → List Str → Option (MetricEvent F)
    with_kind name (some value) (some kind) suffixes =
        some (apply_suffixes suffixes (fresh_event name value kind))
    with_kind name (some value) none suffixes = none
    with_kind name none kind suffixes = none

    abbrev pub from_parts : Str → List Str → Option (MetricEvent F)
    from_parts name [] = none
    from_parts name (value ∷ []) = none
    from_parts name (value ∷ typ ∷ suffixes) =
        with_kind name (parse_float value) (statsd_kind typ) suffixes

    abbrev pub from_cut : Option (Str × Str) → Option (MetricEvent F)
    from_cut none = none
    from_cut (some (name, rest)) = from_parts name (split_on b'|' rest)

    -- `parseStatsDLine`
    unfoldable pub parse_line : Str → Option (MetricEvent F)
    unfolding cut_at
    parse_line line = from_cut (cut_at b':' line)

    abbrev pub emit_some :
        Option (MetricEvent F) → Option (Outlet (MetricEvent F)) → Option (Outlet (MetricEvent F))
    emit_some none out = out
    emit_some (some ev) out = emit_to out ev

    -- The loop over the lines of a packet.
    unfoldable pub read_lines :
        List Str → Option (Outlet (MetricEvent F)) → Option (Outlet (MetricEvent F))
    unfolding trim_space parse_line
    read_lines [] out = out
    read_lines (raw ∷ lines) out =
        let line = trim_space raw in
        read_lines lines (if str_eq line [] then out else emit_some (parse_line line) out)

    -- One round of the loop of `run`.
    unfoldable pub read_packet :
        Str → Option (Outlet (MetricEvent F)) → Option (Outlet (MetricEvent F))
    unfolding read_lines split_on
    read_packet packet out = read_lines (split_on 10 packet) out
