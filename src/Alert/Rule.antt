-- ===== src/Alert/Rule.antt =====
-- internal/alert/rule.go: rules, alerts, validation and the threshold test.
pub mod Compare
use taplytix.Prelude.{
  ℕ, Bool, true, false, not, ◌||◌, Option, none, some, List, [], ◌∷◌, ◌++◌, if◌then◌else◌, Str,
  bytes, str_eq,
}
use taplytix.Prelude.Int.{ℤ, pos, ltb_ℤ}
use taplytix.Clock.{Time, Duration, zero_time}
use taplytix.Floats.{Floats, le}

-- `Op` is a string type: a config may hold any text.
abbrev pub Op : Type 0
Op = Str

abbrev pub op_gt : Op
op_gt = bytes ">"

abbrev pub op_lt : Op
op_lt = bytes "<"

abbrev pub op_gte : Op
op_gte = bytes ">="

abbrev pub op_lte : Op
op_lte = bytes "<="

abbrev pub op_eq : Op
op_eq = bytes "=="

abbrev pub op_neq : Op
op_neq = bytes "!="

pub record Rule (F : Type 0) : Type 0 where
  pub name : Str
  pub metric : Str
  pub percentile : ℤ
  pub op : Op
  pub threshold : F
  pub for_at_least : Duration
  pub notify : List Str

pub record Alert (F : Type 0) : Type 0 where
  pub rule : Rule F
  pub service : Str
  pub value : F
  pub fired_at : Time
  pub resolved_at : Option Time

-- `FiredMsg` and `ResolvedMsg`
pub data AlertMsg (F : Type 0) : Type 0 where
  fired_msg : Alert F → AlertMsg F
  resolved_msg : Alert F → AlertMsg F

pub data RuleError : Type 0 where
  name_required : RuleError
  metric_required : Str → RuleError
  percentile_range : Str → RuleError
  unknown_op : Str → Op → RuleError

-- The cases of the `switch` on `r.Op`.
unfoldable pub known_op : Op → Bool
known_op op =
    str_eq op op_gt
    || str_eq op op_lt
    || str_eq op op_gte
    || str_eq op op_lte
    || str_eq op op_eq
    || str_eq op op_neq

unfoldable pub validate : {F : Type 0} → Rule F → Option RuleError
unfolding known_op
validate r =
    if str_eq r.name []
    then some name_required
    else if str_eq r.metric []
    then some (metric_required r.name)
    else if ltb_ℤ r.percentile (pos 0) || ltb_ℤ (pos 100) r.percentile
    then some (percentile_range r.name)
    else if known_op r.op
    then none
    else some (unknown_op r.name r.op)

-- `Compare`
unfoldable pub compare_op : {F : Type 0} → Floats F → F → F → Op → Bool
compare_op fl value threshold op =
    if str_eq op op_gt
    then fl.lt threshold value
    else if str_eq op op_lt
    then fl.lt value threshold
    else if str_eq op op_gte
    then le fl threshold value
    else if str_eq op op_lte
    then le fl value threshold
    else if str_eq op op_eq
    then fl.eq value threshold
    else if str_eq op op_neq
    then not (fl.eq value threshold)
    else false

-- `alertKey` of internal/tui/app.go, and the key that the engine builds.
unfoldable pub key_of : Str → Str → Str
key_of rule_name service = rule_name ++ (bytes "::" ++ service)

abbrev pub alert_key : {F : Type 0} → Alert F → Str
alert_key a = key_of a.rule.name a.service

-- The zero value of `Alert`.
abbrev pub zero_alert : {F : Type 0} → Floats F → Alert F
zero_alert fl = record {
  rule = record {
    name = [];
    metric = [];
    percentile = pos 0;
    op = [];
    threshold = fl.of_int (pos 0);
    for_at_least = pos 0;
    notify = [];
  };
  service = [];
  value = fl.of_int (pos 0);
  fired_at = zero_time;
  resolved_at = none;
}
