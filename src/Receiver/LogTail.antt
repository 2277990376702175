-- ===== src/Receiver/LogTail.antt =====
-- internal/receiver/logtail.go: from a line to a log event. Parameters: what strconv, encoding/json and
-- time.Parse do, and `now`, what time.Now() gives.
pub mod Structured
pub mod Events
pub mod Levels
pub mod Tailing
pub mod Streams
pub mod Calls
use taplytix.Prelude.{
  ℕ, ◌≡◌, Bool, true, false, not, ◌&&◌, ◌||◌, Option, none, some, ◌*◌, List, [], ◌∷◌, ◌++◌,
  if◌then◌else◌, ◌==◌, Str, bytes, str_eq, length,
}
use taplytix.Prelude.Int.{ℤ, pos, ◌+ℤ◌, ◌*ℤ◌}
use taplytix.Prelude.Maps.{Map, lookup, insert, delete}
use taplytix.Prelude.Text.{
  cut_at, has_prefix, has_suffix, contains_text, trim_space, to_lower, to_upper,
}
use taplytix.Clock.{Time, zero_time, is_zero, second}
use taplytix.Floats.{Floats}
use taplytix.Model.{LogEvent, LogLevel, level_debug, level_info, level_warn, level_error}
use taplytix.Receiver.Logfmt.{Outcome, pairs, reject, out_of_fuel, parse_pairs}

abbrev pub is_one_of : Str → List Str → Bool
is_one_of s [] = false
is_one_of s (t ∷ ts) = str_eq s t || is_one_of s ts

unfoldable pub normalize_level : Str → LogLevel
normalize_level s =
    let t = to_upper (trim_space s) in
    if is_one_of t (bytes "TRACE" ∷ bytes "DEBUG" ∷ [])
    then level_debug
    else if is_one_of t (bytes "INFO" ∷ bytes "NOTICE" ∷ [])
    then level_info
    else if is_one_of t (bytes "WARN" ∷ bytes "WARNING" ∷ [])
    then level_warn
    else if is_one_of t (bytes "ERROR" ∷ bytes "ERR" ∷ bytes "FATAL" ∷ bytes "CRITICAL" ∷ [])
    then level_error
    else level_info

unfoldable pub detect_format : Str → Str
detect_format line =
    let t = trim_space line in
    if has_prefix t (bytes "{") && has_suffix t (bytes "}")
    then bytes "json"
    else if contains_text t (bytes "=") && not (contains_text t (bytes ": "))
    then bytes "logfmt"
    else bytes "plain"

-- The words of the group of `levelRe`.
abbrev pub tag_words : List Str
tag_words =
    bytes "debug" ∷ bytes "info" ∷ bytes "warn" ∷ bytes "warning" ∷ bytes "error" ∷ bytes "err" ∷ []

-- A word of the group, in any case, and the closing bracket.
abbrev pub tag_of : Option (Str × Str) → Option Str
tag_of none = none
tag_of (some (word, rest)) = if is_one_of (to_lower word) tag_words then some word else none

abbrev pub or_else : Option Str → Option Str → Option Str
or_else none o = o
or_else (some w) o = some w

-- `levelRe.FindStringSubmatch`: the group of the leftmost match.
unfoldable pub find_level : Str → Option Str
unfolding cut_at to_lower
find_level [] = none
find_level (c ∷ s) =
    let rest = find_level s in if c == b'[' then or_else (tag_of (cut_at b']' s)) rest else rest

abbrev pub plain_level : Option Str → LogLevel
plain_level none = level_info
plain_level (some w) = normalize_level w

module _ (now : Time) where
  unfoldable pub parse_plain : Str → Str → LogEvent
  parse_plain line service = record {
    timestamp = now;
    level = plain_level (find_level line);
    body = line;
    service = service;
    trace_id = [];
    attrs = [];
  }

  -- The defaults that both structured parsers end with.
  unfoldable pub complete : Str → LogEvent → LogEvent
  complete line ev = record ev {
    level = if str_eq ev.level [] then level_info else ev.level;
    timestamp = if is_zero ev.timestamp then now else ev.timestamp;
    body = if str_eq ev.body [] then line else ev.body;
  }

abbrev pub blank_event : Str → LogEvent
blank_event service = record {
  timestamp = zero_time;
  level = [];
  body = [];
  service = service;
  trace_id = [];
  attrs = [];
}

-- What package time and package strconv give: the float of a text, the integer part of a float, and a
-- text read by one of `timeFormats`.
pub record Readers (F : Type 0) : Type 0 where
  pub parse_float : Str → Option F
  pub to_int : F → ℤ
  pub parse_stamp : ℕ → Str → Option Time

abbrev pub unix_epoch : Time
unix_epoch = pos (62135596800 * 1000000000)

-- `time.Unix`
abbrev pub unix : ℤ → ℤ → Time
unix sec nsec = unix_epoch +ℤ ((sec *ℤ pos second) +ℤ nsec)

module _ {F : Type 0} (fl : Floats F) (rd : Readers F) where
  unfoldable pub first_format : List ℕ → Str → Time
  first_format [] s = zero_time
  first_format (f ∷ formats) s = elim (rd.parse_stamp f s) [
    | some t ↦ t
    | none ↦ first_format formats s
  ]

  abbrev pub from_number : F → Time
  from_number n =
      let sec = rd.to_int n in
      let frac = fl.sub n (fl.of_int sec) in
      if fl.lt (fl.of_int (pos 1000000000000000)) n
      then unix (pos 0) (rd.to_int (fl.mul n (fl.of_int (pos 1000))))
      else if fl.lt (fl.of_int (pos 1000000000000)) n
      then unix_epoch +ℤ (sec *ℤ pos 1000000)
      else unix sec (rd.to_int (fl.mul frac (fl.of_int (pos 1000000000))))

  unfoldable pub parse_time : Str → Time
  unfolding first_format ◌+ℤ◌ ◌*ℤ◌
  parse_time s = if str_eq s [] then zero_time else elim (rd.parse_float s) [
    | some n ↦ from_number n
    | none ↦ first_format (0 ∷ 1 ∷ 2 ∷ 3 ∷ 4 ∷ []) s
  ]
