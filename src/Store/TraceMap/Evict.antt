-- ===== src/Store/TraceMap/Evict.antt =====
-- `Evict` removes the traces that ended before the cutoff, keeps the others, and counts what it
-- removes.
use taplytix.Prelude.{
  ◌+◌, ◌≡◌, refl, [], ◌∷◌, length, arith, Option, none, some, if◌then◌else◌, Str, str_eq_iff,
}
use taplytix.Prelude.Int.{pos, ◌-ℤ◌}
use taplytix.Prelude.Maps.{IsMap, lookup}
use taplytix.Clock.{Time, Duration, before, add_time}
use taplytix.Model.{Trace}
use taplytix.Store.TraceMap.{TraceMap, trace_latest_end, evict_before, evict, get}

-- What a lookup shows of a trace after the eviction.
abbrev pub survivor : Time → Option Trace → Option Trace
survivor cutoff none = none
survivor cutoff (some t) = if before (trace_latest_end t) cutoff then none else some t

lookup-evict_before :
    (cutoff : Time) (k : Str) (m : TraceMap)
    → IsMap m
    → lookup k (evict_before cutoff m).0 ≡ survivor cutoff (lookup k m)
unfolding evict_before lookup
lookup-evict_before cutoff k [] h = refl
lookup-evict_before cutoff k ((j, t) ∷ m) h =
    ground (arith, h.0, str_eq_iff j k, lookup-evict_before cutoff k m h.1)

length-evict_before :
    (cutoff : Time) (m : TraceMap)
    → length (evict_before cutoff m).0 + (evict_before cutoff m).1 ≡ length m
unfolding evict_before
length-evict_before cutoff [] = omega arith
length-evict_before cutoff ((j, t) ∷ m) = ground (arith, length-evict_before cutoff m)

-- After `Evict`, `Get` misses exactly the traces whose latest end lies before `now - ttl` and finds
-- every other one as it was, and the count returned is the number of traces that are gone.
pub evict_lem :
    (now : Time) (ttl : Duration) (m : TraceMap)
    → IsMap m
    → let (m', removed) = evict now m ttl in
      ((id : Str) → get m' id ≡ survivor (add_time now (pos 0 -ℤ ttl)) (get m id))
      × (length m' + removed ≡ length m)
unfolding evict get
evict_lem now ttl m h = (
  λ id. lookup-evict_before (add_time now (pos 0 -ℤ ttl)) id m h,
  length-evict_before (add_time now (pos 0 -ℤ ttl)) m,
)
