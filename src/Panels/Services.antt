-- ===== src/Panels/Services.antt =====
-- internal/tui/panels/services.go: the list of services, the active one, and the slowest spans. The list
-- widget keeps the index; the text of package fmt is left out.
pub mod Active
use taplytix.Prelude.{
  ℕ, ◌+◌, ◌*◌, Bool, true, false, not, ◌&&◌, Option, none, some, List, [], ◌∷◌, ◌++◌, map, length,
  take, flat, get_elem?, if◌then◌else◌, ltb, leb, ◌==◌, Str, bytes, str_eq,
}
use taplytix.Prelude.Int.{ℤ, pos, ltb_ℤ, leb_ℤ}
use taplytix.Prelude.Sort.{sort_by}
use taplytix.Clock.{Time, second, is_zero, sub_time}
use taplytix.Floats.{Floats}
use taplytix.Model.{SpanEvent}
use taplytix.Store.Percentile.{percentile}
use taplytix.Store.TraceMap.{TraceMap, recent}
use taplytix.Store.Services.{
  Store, ServiceStatus, service_status, service_names, traces_for, metrics_for,
}
use taplytix.Panels.Overview.{collect_spans, millis, lookup_heap}

pub record ServiceEntry (F : Type 0) : Type 0 where
  pub name : Str
  pub status : ServiceStatus F

pub record ServicesPanel (F : Type 0) : Type 0 where
  pub services : List (ServiceEntry F)
  pub active : Str
  -- `p.slist.Index()`
  pub index : ℕ

abbrev pub new_services : {F : Type 0} → Str → ServicesPanel F
new_services active = record { services = []; active = active; index = 0 }

-- The loop of `refresh` that looks for the active service, from the index `i` on; the last match stays.
unfoldable pub select_from : {F : Type 0} → Str → ℕ → List (ServiceEntry F) → Option ℕ
select_from active i [] = none
select_from active i (e ∷ entries) = elim (select_from active (i + 1) entries) [
  | some k ↦ some k
  | none ↦ if str_eq e.name active then some i else none
]

abbrev pub select_index : ℕ → Option ℕ → ℕ
select_index old none = old
select_index old (some i) = i

-- What the panel asks of the program besides its own change.
pub data Cmd : Type 0 where
  send_service : Str → Cmd

module _ {F : Type 0} (fl : Floats F) (now : Time) where
  abbrev pub entries_of : Store F → List (ServiceEntry F)
  entries_of st =
      map (λ n. record { name = n; status = service_status fl now st n }) (service_names st)

  unfoldable pub refresh : Store F → ServicesPanel F → ServicesPanel F
  unfolding select_from
  refresh st p = record p {
    services = entries_of st;
    index = select_index p.index (select_from p.active 0 (entries_of st));
  }

-- A refresh, a change of service, the enter key, and any other message, which the list turns into an
-- index.
pub data Msg : Type 0 where
  refresh_msg : Msg
  service_changed : Str → Msg
  enter : Msg
  other_msg : ℕ → Msg

module _ {F : Type 0} where
  -- `next != p.active`
  abbrev pub activate : Option (ServiceEntry F) → ServicesPanel F → ServicesPanel F × Option Cmd
  activate none p = (p, none)
  activate (some e) p =
      if str_eq e.name p.active
      then (p, none)
      else (record p { active = e.name }, some (send_service e.name))

module _ {F : Type 0} (fl : Floats F) (now : Time) where
  unfoldable pub update : Store F → Msg → ServicesPanel F → ServicesPanel F × Option Cmd
  unfolding refresh
  update st refresh_msg p = (refresh fl now st p, none)
  update st (service_changed svc) p = (refresh fl now st (record p { active = svc }), none)
  update st enter p = activate (get_elem? p.services p.index) p
  update st (other_msg i) p = (record p { index = i }, none)

-- The spans of the newest traces of a service; 0 asks for all of them.
unfoldable pub spans_of : {F : Type 0} → Store F → Str → ℤ → List SpanEvent
spans_of st service n = elim (traces_for st service) [
  | none ↦ []
  | some tm ↦ flat collect_spans (recent tm n)
]

abbrev pub longer : SpanEvent → SpanEvent → Bool
longer a b = ltb_ℤ b.duration a.duration

-- The spans that `renderSlowSpans` lists.
unfoldable pub slow_spans : {F : Type 0} → Store F → Str → List SpanEvent
unfolding spans_of
slow_spans st service = take 3 (sort_by longer (spans_of st service (pos 20)))

-- The numbers of `renderMiniCards`.
pub record MiniCards (F : Type 0) : Type 0 where
  pub p99 : F
  pub heap : F
  pub error_rate : F

unfoldable pub mini_cards : {F : Type 0} → Floats F → Time → Store F → Str → MiniCards F
unfolding spans_of
mini_cards fl now st service = record {
  p99 = percentile fl (map (millis fl) (spans_of st service (pos 0))) (fl.of_int (pos 99));
  heap = lookup_heap fl (metrics_for st service);
  error_rate = (service_status fl now st service).error_rate;
}

-- `dotForStatus`
pub data Dot : Type 0 where
  muted green yellow red : Dot

unfoldable pub dot_for_status : {F : Type 0} → Time → ServiceStatus F → Dot
dot_for_status now st =
    let age = sub_time now st.last_seen in
    if is_zero st.last_seen
    then muted
    else if leb_ℤ age (pos (5 * second))
    then green
    else if leb_ℤ age (pos (10 * second))
    then yellow
    else red
