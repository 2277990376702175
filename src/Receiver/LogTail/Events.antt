-- ===== src/Receiver/LogTail/Events.antt =====
-- What holds of every log event that the receiver emits.
use taplytix.Prelude.{
  ◌≡◌, ◌≢◌, refl, Bool, true, false, Option, none, some, [], ◌∷◌, if◌then◌else◌, Str, str_eq,
  str_eq_iff, arith, Bool-cases, inl, inr, ◌⊎◌,
}
use taplytix.Prelude.Maps.{Map, insert}
use taplytix.Clock.{Time, is_zero}
use taplytix.Floats.{Floats}
use taplytix.Model.{LogEvent, LogLevel, level_debug, level_info, level_warn, level_error}
use taplytix.Receiver.Logfmt.{Outcome, pairs, reject, out_of_fuel, parse_pairs}
use taplytix.Receiver.LogTail.{
  normalize_level, find_level, plain_level, parse_plain, complete, Readers, blank_event, parse_time,
}
use taplytix.Receiver.LogTail.Structured.{
  Json, Value, parse_json, object_event, set_field, set_fields, pairs_event, parse_logfmt, or_plain,
  parse,
}

pub data IsLevel : LogLevel → Type 0 where
  debug : IsLevel level_debug
  info : IsLevel level_info
  warn : IsLevel level_warn
  error : IsLevel level_error

-- An event that can be shown and filtered: one of the four levels, a text, and a time.
pub record IsComplete (ev : LogEvent) : Type 0 where
  pub leveled : IsLevel ev.level
  pub worded : ev.body ≢ []
  pub timed : is_zero ev.timestamp ≡ false

either_IsLevel : (b : Bool) {x y : LogLevel} → IsLevel x → IsLevel y → IsLevel (if b then x else y)
either_IsLevel true h k = h
either_IsLevel false h k = k

normalize_level-IsLevel : (s : Str) → IsLevel (normalize_level s)
unfolding normalize_level
normalize_level-IsLevel s =
    either_IsLevel _ debug
      (either_IsLevel _ info (either_IsLevel _ warn (either_IsLevel _ error info)))

plain_level-IsLevel : (o : Option Str) → IsLevel (plain_level o)
plain_level-IsLevel none = info
plain_level-IsLevel (some w) = normalize_level-IsLevel w

-- A level that is not set yet, or one of the four.
abbrev IsUnset : LogLevel → Type 0
IsUnset l = (l ≡ []) ⊎ IsLevel l

default-IsLevel : (l : LogLevel) → IsUnset l → IsLevel (if str_eq l [] then level_info else l)
unfolding str_eq
default-IsLevel l (inl e) = rw e info
default-IsLevel l (inr h) = either_IsLevel (str_eq l []) info h

either_event :
    (b : Bool) (x y : LogEvent)
    → IsUnset x.level
    → IsUnset y.level
    → IsUnset (if b then x else y).level
either_event true x y h k = h
either_event false x y h k = k

module _ (now : Time) (running : is_zero now ≡ false) where
  complete-IsComplete :
      (line : Str) (ev : LogEvent)
      → line ≢ []
      → IsUnset ev.level
      → IsComplete (complete now line ev)
  unfolding complete
  complete-IsComplete line ev h l = record {
    leveled = default-IsLevel ev.level l;
    worded = ground (arith, h, str_eq_iff ev.body []);
    timed = elim (Bool-cases (is_zero ev.timestamp)) [
      | inl unset ↦ rw unset running
      | inr set ↦ rw set set
    ];
  }

  parse_plain-IsComplete :
      (line service : Str) → line ≢ [] → IsComplete (parse_plain now line service)
  unfolding parse_plain
  parse_plain-IsComplete line service h = record {
    leveled = plain_level-IsLevel (find_level line);
    worded = h;
    timed = running;
  }

  module _ {F : Type 0} (fl : Floats F) (rd : Readers F) (js : Json F) where
    -- What a structured parser yields, if it yields anything.
    abbrev AllComplete : Option LogEvent → Type 0
    AllComplete none = Unit
    AllComplete (some ev) = IsComplete ev

    object_level :
        (o : Option Str)
        → IsUnset (elim o as (λ _. LogLevel) [ none ↦ [] | some l ↦ normalize_level l ])
    object_level none = inl refl
    object_level (some l) = inr (normalize_level-IsLevel l)

    parse_json-AllComplete :
        (line service : Str) → line ≢ [] → AllComplete (parse_json js fl rd now line service)
    unfolding parse_json object_event
    parse_json-AllComplete line service h = of_object (js.object_of line)
      where
        of_object :
            (o : Option (Map (Value F)))
            → AllComplete (elim o as (λ _. Option LogEvent) [
              | none ↦ none
              | some m ↦ some (complete now line (object_event js fl rd now m service))
            ])
        of_object none = tt
        of_object (some m) =
            complete-IsComplete line (object_event js fl rd now m service) h (object_level _)

    set_field-IsUnset :
        (ev : LogEvent) (k v : Str) → IsUnset ev.level → IsUnset (set_field fl rd now ev k v).level
    unfolding set_field
    set_field-IsUnset ev k v h =
        either_event _ (record ev { level = normalize_level v }) _ (inr (normalize_level-IsLevel v))
          (either_event _ (record ev { body = v }) _ h
            (either_event _ (record ev { timestamp = parse_time fl rd v }) _ h
              (either_event _ (record ev { trace_id = v }) _ h
                (either_event _ (record ev { service = v })
                  (record ev { attrs = insert k v ev.attrs }) h h))))

    set_fields-IsUnset :
        (m : Map Str) (ev : LogEvent) → IsUnset ev.level → IsUnset (set_fields fl rd now ev m).level
    unfolding set_fields
    set_fields-IsUnset [] ev h = h
    set_fields-IsUnset ((k, v) ∷ m) ev h =
        set_fields-IsUnset m (set_field fl rd now ev k v) (set_field-IsUnset ev k v h)

    pairs_event-AllComplete :
        (line service : Str) (o : Outcome)
        → line ≢ []
        → AllComplete (pairs_event fl rd now line service o)
    pairs_event-AllComplete line service (pairs []) h = tt
    pairs_event-AllComplete line service (pairs (kv ∷ m)) h =
        complete-IsComplete line (set_fields fl rd now (blank_event service) (kv ∷ m)) h
          (set_fields-IsUnset (kv ∷ m) (blank_event service) (inl refl))
    pairs_event-AllComplete line service reject h = tt
    pairs_event-AllComplete line service out_of_fuel h = tt

    or_plain-IsComplete :
        (o : Option LogEvent) (plain : LogEvent)
        → AllComplete o
        → IsComplete plain
        → IsComplete (or_plain o plain)
    or_plain-IsComplete none plain h k = k
    or_plain-IsComplete (some ev) plain h k = h

    either_IsComplete :
        (b : Bool) {x y : LogEvent} → IsComplete x → IsComplete y → IsComplete (if b then x else y)
    either_IsComplete true h k = h
    either_IsComplete false h k = k

    -- Whatever the configured format, the line and what the JSON and time readers say, a line that is
    -- not empty becomes an event with one of the four levels, a body, and a time that is set.
    pub parse-IsComplete :
        (format line service : Str)
        → line ≢ []
        → IsComplete (parse fl rd js now format line service)
    unfolding parse parse_logfmt
    parse-IsComplete format line service h =
        either_IsComplete _
          (or_plain-IsComplete (parse_json js fl rd now line service) (parse_plain now line service)
            (parse_json-AllComplete line service h) plain)
          (either_IsComplete _
            (or_plain-IsComplete (parse_logfmt fl rd now line service)
              (parse_plain now line service)
              (pairs_event-AllComplete line service (parse_pairs line) h) plain)
            plain)
      where
        plain : IsComplete (parse_plain now line service)
        plain = parse_plain-IsComplete line service h
