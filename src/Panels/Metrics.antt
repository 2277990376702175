-- ===== src/Panels/Metrics.antt =====
-- internal/tui/panels/metrics.go: the list of metrics with its filter and its selection. The list and
-- the text input are widgets of package bubbles: what they make of a key is an argument.
pub mod Selection
use taplytix.Prelude.{
  ℕ, suc, ◌+◌, ◌-◌, Bool, true, false, not, ◌&&◌, ◌||◌, Option, none, some, List, [], ◌∷◌, ◌++◌,
  map, length, drop, flat, get_elem?, keep_if, if◌then◌else◌, ltb, leb, ◌==◌, Str, bytes, str_eq,
  str_less,
}
use taplytix.Prelude.Int.{ℤ, pos, pos_part, leb_ℤ}
use taplytix.Prelude.Text.{contains_text, trim_space, to_lower}
use taplytix.Prelude.Sort.{sort_by}
use taplytix.Floats.{Floats}
use taplytix.Store.Series.{Series, values}
use taplytix.Store.Percentile.{percentile}
use taplytix.Store.Services.{Store, service_names, metrics_for}

pub record MetricRef (F : Type 0) : Type 0 where
  pub service : Str
  pub key : Str
  pub series : Series F

pub record MetricsPanel (F : Type 0) : Type 0 where
  pub service : Str
  pub all_keys : List (MetricRef F)
  pub vis_keys : List (MetricRef F)
  pub selected : ℕ
  -- The text of the filter, and whether keys go to it.
  pub filter : Str
  pub filtering : Bool

module _ {F : Type 0} where
  unfoldable pub new_metrics : MetricsPanel F
  new_metrics = record {
    service = [];
    all_keys = [];
    vis_keys = [];
    selected = 0;
    filter = [];
    filtering = false;
  }

  abbrev pub query : MetricsPanel F → Str
  query p = to_lower (trim_space p.filter)

  abbrev pub is_visible : Str → MetricRef F → Bool
  is_visible q r = str_eq q [] || contains_text (to_lower (r.service ++ (bytes " " ++ r.key))) q

  -- `applyFilter`
  unfoldable pub apply_filter : MetricsPanel F → MetricsPanel F
  apply_filter p = record p { vis_keys = keep_if (is_visible (query p)) p.all_keys }

  -- `service + "::" + key`
  abbrev pub ref_key : MetricRef F → Str
  ref_key r = r.service ++ (bytes "::" ++ r.key)

  -- `prevKey`, empty where nothing is selected.
  abbrev pub selected_key : MetricsPanel F → Str
  selected_key p = elim (get_elem? p.vis_keys p.selected) [ none ↦ [] | some r ↦ ref_key r ]

  abbrev pub metric_less : MetricRef F → MetricRef F → Bool
  metric_less a b =
      if str_eq a.service b.service then str_less a.key b.key else str_less a.service b.service

  abbrev pub refs_for : Store F → Str → List (MetricRef F)
  refs_for st svc =
      map (λ e. record { service = svc; key = e.0; series = e.1 }) (metrics_for st svc)

  abbrev pub services_shown : Store F → MetricsPanel F → List Str
  services_shown st p = if str_eq p.service [] then service_names st else p.service ∷ []

  -- The loop that restores the selection, from the index `i` on; it stays where the key is not found.
  unfoldable pub find_key : Str → ℕ → ℕ → List (MetricRef F) → ℕ
  find_key key stay i [] = stay
  find_key key stay i (r ∷ refs) =
      let rest = find_key key stay (i + 1) refs in if str_eq (ref_key r) key then i else rest

  unfoldable pub refresh : Store F → MetricsPanel F → MetricsPanel F
  unfolding apply_filter find_key metrics_for
  refresh st p =
      let prev = selected_key p in
      let p' =
        apply_filter (record p {
          all_keys = sort_by metric_less (flat (refs_for st) (services_shown st p));
        }) in
      if str_eq prev [] then p' else record p' { selected = find_key prev p.selected 0 p'.vis_keys }

-- A message to the panel. A key comes with the text that the text input makes of it, and with the
-- index that the list then has.
pub data Msg : Type 0 where
  refresh_msg : Msg
  service_changed : Str → Msg
  key : Str → Str → ℕ → Msg
  -- Any other message goes to the list.
  other_msg : ℕ → Msg

-- What `renderDetail` shows: a notice where there are no metrics, nothing where the selection is past
-- the end, and otherwise a metric.
pub data Detail (F : Type 0) : Type 0 where
  no_metrics blank : Detail F
  of_metric : MetricRef F → Detail F

module _ {F : Type 0} where
  abbrev pub list_key : ℕ → MetricsPanel F → MetricsPanel F
  list_key index p = record p { selected = index }

  abbrev pub filter_key : Str → Str → MetricsPanel F → MetricsPanel F
  filter_key k text p =
      if str_eq k (bytes "esc")
      then apply_filter (record p { filtering = false; filter = [] })
      else if str_eq k (bytes "enter")
      then record p { filtering = false }
      else apply_filter (record p { filter = text })

  unfoldable pub update : Store F → Msg → MetricsPanel F → MetricsPanel F
  unfolding refresh
  update st refresh_msg p = refresh st p
  update st (service_changed svc) p = refresh st (record p { service = svc })
  update st (key k text index) p =
      if p.filtering
      then filter_key k text p
      else if str_eq k (bytes "/")
      then record p { filtering = true }
      else list_key index p
  update st (other_msg index) p = list_key index p

  abbrev pub detail_at : Option (MetricRef F) → Detail F
  detail_at none = blank
  detail_at (some r) = of_metric r

  unfoldable pub detail : MetricsPanel F → Detail F
  detail p =
      if length p.vis_keys == 0 then no_metrics else detail_at (get_elem? p.vis_keys p.selected)

-- `tail`
unfoldable pub tail {ℓ} : {A : Type ℓ} → List A → ℤ → List A
tail values n =
    if leb_ℤ n (pos 0) || leb_ℤ (pos (length values)) n
    then values
    else drop (length values - pos_part n) values

module _ {F : Type 0} (fl : Floats F) where
  -- The numbers of `renderWindowTable`, row by row.
  pub record WindowRow : Type 0 where
    pub samples : ℤ
    pub p50 : F
    pub p95 : F
    pub p99 : F

  abbrev pub window_row : List F → ℤ → WindowRow
  window_row values n =
      let win = tail values n in
      record {
        samples = n;
        p50 = percentile fl win (fl.of_int (pos 50));
        p95 = percentile fl win (fl.of_int (pos 95));
        p99 = percentile fl win (fl.of_int (pos 99));
      }

  unfoldable pub window_table : List F → List WindowRow
  unfolding tail
  window_table values = map (window_row values) (pos 60 ∷ pos 300 ∷ pos 900 ∷ [])
