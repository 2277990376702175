-- ===== src/Tests/Rings.antt =====
-- Rings, series, percentiles and the bus on small inputs.
use taplytix.Prelude.{ℕ, ◌≡◌, refl, List, [], ◌∷◌, false}
use taplytix.Prelude.Int.{pos, negsuc}
use taplytix.Floats.Exact.{Exact, milli, exact}
use taplytix.Floats.{float_less}
use taplytix.Store.Ring.{new_ring, push_all, slice}
use taplytix.Store.Ring.Window.{slice-history}
use taplytix.Store.Percentile.{percentile, raw_index}
use taplytix.Prelude.Sort.{sort_by}
use taplytix.Bus.{Bus}
use taplytix.Bus.Delivery.{BusOp, published, received}

abbrev three : List ℕ
three = 7 ∷ 8 ∷ 9 ∷ []

slice-history_example : slice 0 (push_all (new_ring 0 (pos 2)) three) ≡ 8 ∷ 9 ∷ []
slice-history_example = slice-history 0 (pos 2) three

-- A capacity below 1 is 1.
slice_of_small : slice 0 (push_all (new_ring 0 (negsuc 4)) three) ≡ 9 ∷ []
slice_of_small = slice-history 0 (negsuc 4) three

abbrev samples : List Exact
samples = milli 4000 ∷ milli 1000 ∷ milli 3000 ∷ []

percentile_50 : percentile exact (milli 2000 ∷ samples) (milli 50000) ≡ milli 2000
unfolding percentile float_less sort_by raw_index
percentile_50 = refl

abbrev traffic : List (BusOp ℕ)
traffic = published 4 ∷ received 0 ∷ published 5 ∷ received 1 ∷ published 6 ∷ []

abbrev small_bus : Bus ℕ ℕ
small_bus = record { subscribers = [] ∷ []; buf_size = 1; has_program = false; sent = [] }
