-- ===== src/Alert/Rule/Compare.antt =====
-- What `Validate` lets through, and what `Compare` makes of it.
use mathlib.Core.Path.{subst, sym}
use taplytix.Prelude.{
  ◌≡◌, ◌≢◌, refl, ◌↔◌, inl, inr, true, false, not, none, [], str_eq, str_eq_iff, arith, Bool-cases,
}
use taplytix.Prelude.Int.{pos, ◌≤ℤ◌}
use taplytix.Floats.{Floats, IsOrdered, is_nan}
use taplytix.Alert.Rule.{
  Op, op_gt, op_lt, op_gte, op_lte, op_eq, op_neq, Rule, known_op, validate, compare_op,
}

-- The six operators, as the documentation lists them.
pub data IsOp : Op → Type 0 where
  gt : IsOp op_gt
  lt : IsOp op_lt
  gte : IsOp op_gte
  lte : IsOp op_lte
  eq : IsOp op_eq
  neq : IsOp op_neq

-- The operator that holds exactly when the given one does not.
abbrev pub opposite : {op : Op} → IsOp op → Op
opposite gt = op_lte
opposite lt = op_gte
opposite gte = op_lt
opposite lte = op_gt
opposite eq = op_neq
opposite neq = op_eq

-- For two values that are not NaN, each operator and its opposite split all cases.
pub compare-opposite :
    {F : Type 0} (fl : Floats F) (value threshold : F) {op : Op} (o : IsOp op)
    → IsOrdered fl
    → is_nan fl value ≡ false
    → is_nan fl threshold ≡ false
    → compare_op fl value threshold (opposite o) ≡ not (compare_op fl value threshold op)
unfolding compare_op str_eq
compare-opposite fl value threshold gt w h k =
    ground (arith, w.trichotomy value threshold h k, w.lt_asym value threshold)
compare-opposite fl value threshold lt w h k =
    ground (arith, w.trichotomy threshold value k h, w.lt_asym threshold value)
compare-opposite fl value threshold gte w h k =
    ground (arith, w.trichotomy threshold value k h, w.lt_asym threshold value)
compare-opposite fl value threshold lte w h k =
    ground (arith, w.trichotomy value threshold h k, w.lt_asym value threshold)
compare-opposite fl value threshold eq w h k = refl
compare-opposite fl value threshold neq w h k = ground arith

-- What the configuration asks of a rule.
pub record IsUsable {F : Type 0} (r : Rule F) : Type 0 where
  pub named : r.name ≢ []
  pub measured : r.metric ≢ []
  pub low : pos 0 ≤ℤ r.percentile
  pub high : r.percentile ≤ℤ pos 100
  pub operator : IsOp r.op

same_op : {op c : Op} → str_eq op c ≡ true → IsOp c → IsOp op
same_op {op} {c} e o = subst IsOp (sym ((str_eq_iff op c).0 e)) o

known_op-IsOp : (op : Op) → known_op op ≡ true → IsOp op
unfolding known_op
known_op-IsOp op h = elim (Bool-cases (str_eq op op_gt)) [
  | inl e0 ↦ same_op e0 gt
  | inr n0 ↦ elim (Bool-cases (str_eq op op_lt)) [
    | inl e1 ↦ same_op e1 lt
    | inr n1 ↦ elim (Bool-cases (str_eq op op_gte)) [
      | inl e2 ↦ same_op e2 gte
      | inr n2 ↦ elim (Bool-cases (str_eq op op_lte)) [
        | inl e3 ↦ same_op e3 lte
        | inr n3 ↦ elim (Bool-cases (str_eq op op_eq)) [
          | inl e4 ↦ same_op e4 eq
          | inr n4 ↦ elim (Bool-cases (str_eq op op_neq)) [
            | inl e5 ↦ same_op e5 neq
            | inr n5 ↦ let bad : ⊥ = ground (arith, h) in absurd bad
          ]
        ]
      ]
    ]
  ]
]

IsOp-known_op : {op : Op} → IsOp op → known_op op ≡ true
unfolding known_op str_eq
IsOp-known_op gt = refl
IsOp-known_op lt = refl
IsOp-known_op gte = refl
IsOp-known_op lte = refl
IsOp-known_op eq = refl
IsOp-known_op neq = refl

-- `Validate` accepts a rule exactly when it has a name and a metric, a percentile from 0 to 100, and
-- one of the six operators.
pub validate_iff : {F : Type 0} (r : Rule F) → (validate r ≡ none) ↔ IsUsable r
unfolding validate
validate_iff r = (accepted, complete)
  where
    accepted : validate r ≡ none → IsUsable r
    accepted h = record {
      named = λ e. ground (arith, (str_eq_iff r.name []).1 e);
      measured = λ e. ground (arith, (str_eq_iff r.metric []).1 e);
      low = ground arith;
      high = ground arith;
      operator = known_op-IsOp r.op (ground arith);
    }

    complete : IsUsable r → validate r ≡ none
    complete u = ground (
      arith,
      IsOp-known_op u.operator,
      u.low,
      u.high,
      u.named,
      u.measured,
      str_eq_iff r.name [],
      str_eq_iff r.metric [],
    )
