-- ===== src/Query/Cost.antt =====
-- internal/query/cost.go: the predicted cost of a rule against its ceilings. A number of type uint64
-- wraps at 2^64 where it is added.
pub mod Ceiling
use clickhouse_ruler.Base.{
  ℕ, ◌+◌, ◌*◌, ◌/◌, ◌%◌, ◌-◌, Bool, true, false, ◌&&◌, ◌||◌, not, String, List, [], ◌∷◌, ◌++◌,
  Option, none, some, if◌then◌else◌, nat_beq, ltb, leb, leb_ℤ, ltb_ℤ, Duration, pos, two_64,
  is_some,
}
use clickhouse_ruler.Text.{concat, join, decimal}
use clickhouse_ruler.Lint.{Severity, is_off}
use clickhouse_ruler.Policy.{Policy, Setting, setting_for, defaults}
use clickhouse_ruler.Policy.Limits.{limit}

-- Go's float64, as much of it as the rates use: conversion from uint64, division, the seconds of a
-- duration, the comparison, and `%.0f`; and the text of a duration.
pub record Floats : Type 1 where
  pub Float : Type 0
  pub of_nat : ℕ → Float
  pub div : Float → Float → Float
  pub seconds : Duration → Float
  pub gt : Float → Float → Bool
  pub whole : Float → String
  pub print_duration : Duration → String

pub record Estimate : Type 0 where
  pub database : String
  pub table : String
  pub parts : ℕ
  pub rows : ℕ
  pub marks : ℕ

pub data CostStatus : Type 0 where
  estimated no_parts refused shards_unknown : CostStatus

pub record CostEstimate : Type 0 where
  pub rows : ℕ
  pub status : CostStatus
  pub shards : ℕ

-- fanout of distributed.go.
pub record Fanout : Type 0 where
  pub shards : ℕ
  pub counted : Bool

-- math.MaxUint64
abbrev pub max_uint64 : ℕ
max_uint64 = 18446744073709551615

unfoldable pub scaled : ℕ → ℕ → ℕ
scaled rows shards =
    if leb shards 1 || nat_beq rows 0
    then rows
    else if ltb (max_uint64 / shards) rows
    then max_uint64
    else rows * shards

rows_from : ℕ → List Estimate → ℕ
rows_from total [] = total
rows_from total (e ∷ est) = rows_from ((total + e.rows) % two_64) est

unfoldable pub estimated_rows : List Estimate → ℕ
unfolding rows_from
estimated_rows est = rows_from 0 est

abbrev pub no_cost : CostEstimate
no_cost = record { rows = 0; status = estimated; shards = 0 }

unfoldable pub cost_from : List Estimate → Fanout → CostEstimate
unfolding scaled estimated_rows
cost_from [] f = record no_cost { status = no_parts }
cost_from (e ∷ est) f =
    if not f.counted then record no_cost { status = shards_unknown } else record {
      rows = scaled (estimated_rows (e ∷ est)) f.shards;
      status = estimated;
      shards = f.shards;
    }

abbrev pub check_rule_cost : String
check_rule_cost = "rule/cost"

abbrev pub limit_rows_read : String
limit_rows_read = "max-rows-read"

abbrev pub limit_rows_per_second : String
limit_rows_per_second = "max-rows-per-second"

-- The value of a ceiling, or the shipped one.
abbrev pub or_shipped : String → Option ℕ → ℕ
or_shipped name (some n) = n
or_shipped name none = elim (limit name (setting_for (some defaults) check_rule_cost).keys) [
  | some n ↦ n
  | none ↦ 0
]

module _ (F : Floats) where
  -- Cost: `max_rows_per_second` is a float64.
  pub record Cost : Type 0 where
    pub max_rows : ℕ
    pub max_rows_per_second : F.Float

  unfoldable pub cost_from_policy : Option Policy → Option Cost
  unfolding setting_for limit
  cost_from_policy p =
      let setting = setting_for p check_rule_cost in
      let rows = limit limit_rows_read setting.keys in
      let rate = limit limit_rows_per_second setting.keys in
      if is_off setting.severity
      then none
      else if not (is_some rows) && not (is_some rate)
      then none
      else some (record {
        max_rows = or_shipped limit_rows_read rows;
        max_rows_per_second = F.of_nat (or_shipped limit_rows_per_second rate);
      })

  unfoldable pub rows_per_second : ℕ → Duration → F.Float
  rows_per_second rows interval =
      if leb_ℤ interval (pos 0) then F.of_nat 0 else F.div (F.of_nat rows) (F.seconds interval)

  -- The ceilings that are passed, as both `overCost` say it.
  unfoldable pub over_ceilings : ℕ → F.Float → Cost → List String
  unfolding concat decimal
  over_ceilings rows rate limits =
      (if ltb limits.max_rows rows
        then concat (decimal rows ∷ " rows against a ceiling of " ∷ decimal limits.max_rows ∷ [])
          ∷ []
        else [])
      ++ (if F.gt rate limits.max_rows_per_second
          then concat (
              F.whole rate
              ∷ " rows a second against a ceiling of "
              ∷ F.whole limits.max_rows_per_second
              ∷ [])
            ∷ []
          else [])

  unfoldable pub with_fanout : String → ℕ → String
  unfolding concat decimal
  with_fanout detail shards =
      if leb shards 1
      then detail
      else concat (
          detail
          ∷ ". EXPLAIN ESTIMATE answers for the parts on the node the ruler connected to, so this number is that answer multiplied by the "
          ∷ decimal shards
          ∷ " shards of the cluster, which assumes they hold roughly the same amount"
          ∷ [])

  unfoldable pub over_text : List String → Duration → ℕ → String
  unfolding concat join with_fanout
  over_text [] interval shards = ""
  over_text (x ∷ xs) interval shards =
      let detail = concat ("the query is estimated to read " ∷ join " and " (x ∷ xs) ∷ []) in
      let timed =
        if ltb_ℤ (pos 0) interval
        then concat (detail ∷ ", every " ∷ F.print_duration interval ∷ " this group evaluates" ∷ [])
        else detail in
      with_fanout
        (concat (
          timed ∷ ", and the estimate is the optimiser's prediction rather than a measurement"
          ∷ []))
        shards

  abbrev pub is_estimated : CostStatus → Bool
  is_estimated estimated = true
  is_estimated _ = false

  -- overCost
  unfoldable pub over_cost : CostEstimate → Option Cost → Duration → String
  unfolding over_ceilings rows_per_second over_text
  over_cost cost none interval = ""
  over_cost cost (some limits) interval =
      if not (is_estimated cost.status)
      then ""
      else over_text (over_ceilings cost.rows (rows_per_second cost.rows interval) limits) interval
          cost.shards
