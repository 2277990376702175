-- ===== src/Panels/Logs.antt =====
-- internal/tui/panels/logs.go: the filter and the list of events that the panel shows.
pub mod Shown
pub mod Updates
use taplytix.Prelude.{
  ℕ, Bool, true, false, not, ◌&&◌, ◌||◌, Option, none, some, List, [], ◌∷◌, ◌++◌, length, drop,
  if◌then◌else◌, Str, bytes, str_eq, keep_if,
}
use taplytix.Prelude.Maps.{Map}
use taplytix.Prelude.Sort.{sort_by}
use taplytix.Prelude.Text.{has_prefix, contains_text, trim_space, to_lower, to_upper, join, fields}
use taplytix.Clock.{before}
use taplytix.Model.{LogEvent}
use taplytix.Store.Services.{Store, service_names, logs_for}

pub record Filter : Type 0 where
  pub words : List Str
  pub level : Str
  pub service : Str

-- One token of the filter.
abbrev pub add_token : Filter → Str → Filter
add_token f tok =
    if has_prefix tok (bytes "level:")
    then record f { level = to_upper (drop 6 tok) }
    else if has_prefix tok (bytes "service:")
    then record f { service = drop 8 tok }
    else record f { words = f.words ++ tok ∷ [] }

unfoldable pub add_tokens : Filter → List Str → Filter
add_tokens f [] = f
add_tokens f (tok ∷ toks) = add_tokens (add_token f tok) toks

abbrev pub no_filter : Filter
no_filter = record { words = []; level = []; service = [] }

-- `parseFilterExpr`, with the words not joined yet.
unfoldable pub parse_filter : Str → Filter
unfolding fields add_tokens trim_space
parse_filter s = add_tokens no_filter (fields (trim_space s))

abbrev pub body_of : Filter → Str
body_of f = to_lower (join b' ' f.words)

abbrev pub attrs_match : Map Str → Str → Bool
attrs_match [] q = false
attrs_match ((k, v) ∷ m) q = contains_text (to_lower (k ++ (b'=' ∷ v))) q || attrs_match m q

unfoldable pub matches_body : LogEvent → Str → Bool
matches_body ev q = contains_text (to_lower ev.body) q || attrs_match ev.attrs q

-- The three tests of the loop that filters; `strings.EqualFold` compares in lower case.
unfoldable pub passes : Filter → LogEvent → Bool
unfolding matches_body
passes f ev =
    (str_eq f.level [] || str_eq ev.level f.level)
    && ((str_eq f.service [] || str_eq (to_lower ev.service) (to_lower f.service))
        && (str_eq (body_of f) [] || matches_body ev (body_of f)))

abbrev pub older : LogEvent → LogEvent → Bool
older a b = before a.timestamp b.timestamp

unfoldable pub logs_of : {F : Type 0} → Store F → List Str → List LogEvent
logs_of st [] = []
logs_of st (svc ∷ svcs) = logs_for st svc ++ logs_of st svcs

pub record LogsPanel : Type 0 where
  -- Empty for all services.
  pub service : Str
  -- The text of the filter's input.
  pub filter : Str
  pub shown : List LogEvent
  pub total_count : ℕ
  pub shown_count : ℕ

abbrev pub services_of : {F : Type 0} → Store F → LogsPanel → List Str
services_of st p = if str_eq p.service [] then service_names st else p.service ∷ []

unfoldable pub refresh : {F : Type 0} → Store F → LogsPanel → LogsPanel
unfolding logs_of parse_filter passes
refresh st p =
    let all = sort_by older (logs_of st (services_of st p)) in
    let filtered = keep_if (passes (parse_filter p.filter)) all in
    record p { shown = filtered; total_count = length all; shown_count = length filtered }
