-- ===== src/Scheduler/Drift.antt =====
-- internal/scheduler/drift.go: what a running ruler finds about a rule. `drift.prev` is the map `prev`.
use clickhouse_ruler.Base.{
  ◌&&◌, ◌||◌, String, List, [], ◌∷◌, ◌++◌, Option, none, some, if◌then◌else◌, string_eq, Time,
  Duration, pos, ltb_ℤ,
}
use clickhouse_ruler.GoMap.{Map, get, put}
use clickhouse_ruler.Text.{concat, join}
use clickhouse_ruler.Lint.{error, is_off, Problem}
use clickhouse_ruler.Lint.Checks.{configurable}
use clickhouse_ruler.Policy.{Setting, no_setting, setting_for, merge}
use clickhouse_ruler.Source.{Source, exempts}
use clickhouse_ruler.Query.{Column, Usage, Finding}
use clickhouse_ruler.Query.Cost.{
  Floats, check_rule_cost, cost_from_policy, rows_per_second, over_ceilings,
}
use clickhouse_ruler.Query.Shape.{differences}
use clickhouse_ruler.Ruleset.{LoadedRule}

abbrev pub check_rule_columns : String
check_rule_columns = "rule/columns"

abbrev pub check_rule_execution : String
check_rule_execution = "rule/execution"

abbrev pub check_rule_source_schema : String
check_rule_source_schema = "rule/source-schema"

-- evaluated, and failed with the text of its error.
pub record EvaluatedSource : Type 0 where
  pub source : Source
  pub shape : List Column
  pub usage : Usage

pub record FailedSource : Type 0 where
  pub source : Source
  pub err : String

-- The scheduler's Finding.
pub record RuleFinding : Type 0 where
  pub problem : Problem
  pub err : Option String
  pub source : String

-- runtimeProblem
unfoldable pub runtime_problem : LoadedRule → Source → Time → Finding → List Problem
unfolding configurable setting_for merge exempts concat
runtime_problem r src now f =
    let settable = configurable f.check in
    let origin =
      if settable
      then setting_for (some (merge (r.policy ∷ src.policy ∷ []))) f.check
      else no_setting in
    let severity = if settable then origin.severity else error in
    let p : Problem = record {
      file = r.file;
      line = r.rule.lines.start;
      subject = r.rule.alert;
      check = f.check;
      severity = severity;
      text = concat ("against source " ∷ src.name ∷ ": " ∷ f.detail ∷ []);
      policy_file = origin.file;
      policy_line = origin.line;
    } in
    if settable && (is_off severity || exempts src.exemptions f.check now) then [] else p ∷ []

abbrev pub at_source : String → Option String → List Problem → List RuleFinding
at_source name err [] = []
at_source name err (p ∷ ps) =
    record { problem = p; err = err; source = name } ∷ at_source name err ps

-- drift.problem
unfoldable pub problem : LoadedRule → Source → Time → Finding → List RuleFinding
unfolding runtime_problem
problem r src now f = at_source src.name none (runtime_problem r src now f)

unfoldable pub columns_finding : List String → Finding
unfolding concat join
columns_finding diff = record {
  check = check_rule_columns;
  detail = concat (
      "what this rule returns changed without the file changing, so it no longer means what it was reviewed as: "
      ∷ join "; " diff
      ∷ []);
}

unfoldable pub execution_finding : String → Finding
unfolding concat
execution_finding err = record {
  check = check_rule_execution;
  detail =
      concat ("the query failed, so this rule is evaluating nothing and cannot fire: " ∷ err ∷ []);
}

-- The shape against that of the source's last evaluation.
unfoldable pub column_drift :
    LoadedRule → Time → Option (List Column) → EvaluatedSource → List RuleFinding
unfolding differences problem columns_finding
column_drift r now none e = []
column_drift r now (some prev) e =
    elim (differences prev e.shape "the last evaluation" "this one") [
      | [] ↦ []
      | d ∷ ds ↦ problem r e.source now (columns_finding (d ∷ ds))
    ]

unfoldable pub failure_problems : LoadedRule → Time → List FailedSource → List RuleFinding
unfolding problem execution_finding
failure_problems r now [] = []
failure_problems r now (f ∷ failures) =
    problem r f.source now (execution_finding f.err) ++ failure_problems r now failures

unfoldable pub differing : EvaluatedSource → List EvaluatedSource → List String
unfolding differences concat
differing reference [] = []
differing reference (other ∷ evals) =
    differences reference.shape other.shape (concat ("source " ∷ reference.source.name ∷ []))
      (concat ("source " ∷ other.source.name ∷ []))
    ++ differing reference evals

unfoldable pub schema_problem : LoadedRule → Setting → List String → Problem
unfolding concat join
schema_problem r setting found = record {
  file = r.file;
  line = r.rule.lines.start;
  subject = r.rule.alert;
  check = check_rule_source_schema;
  severity = setting.severity;
  text = concat (
      "the sources this rule matched do not agree on what it returns, so it cannot mean the same thing on all of them: "
      ∷ join "; " found
      ∷ []);
  policy_file = setting.file;
  policy_line = setting.line;
}

unfoldable pub disagreements : LoadedRule → List EvaluatedSource → List RuleFinding
unfolding setting_for differing schema_problem
disagreements r [] = []
disagreements r (reference ∷ []) = []
disagreements r (reference ∷ other ∷ evals) =
    let setting = setting_for r.policy check_rule_source_schema in
    let reported : List RuleFinding = elim (differing reference (other ∷ evals)) [
      | [] ↦ []
      | d ∷ ds ↦
          record { problem = schema_problem r setting (d ∷ ds); err = none; source = "" } ∷ []
    ] in
    if is_off setting.severity then [] else reported

module _ (F : Floats) where
  read_text : List String → Duration → String
  unfolding concat join
  read_text [] interval = ""
  read_text (x ∷ xs) interval =
      let detail = concat ("this evaluation read " ∷ join " and " (x ∷ xs) ∷ []) in
      if ltb_ℤ (pos 0) interval
      then concat (detail ∷ ", and the group evaluates every " ∷ F.print_duration interval ∷ [])
      else detail

  -- drift.overCost: the ceilings that the evaluation passed, none where it is within them.
  unfoldable pub over_read : LoadedRule → EvaluatedSource → List String
  unfolding cost_from_policy merge rows_per_second over_ceilings
  over_read r e = elim (cost_from_policy F (some (merge (r.policy ∷ e.source.policy ∷ [])))) [
    | none ↦ []
    | some limits ↦
        over_ceilings F e.usage.read_rows (rows_per_second F e.usage.read_rows r.group.interval)
          limits
  ]

  unfoldable pub cost_drift : LoadedRule → Time → EvaluatedSource → List RuleFinding
  unfolding over_read problem read_text
  cost_drift r now e = elim (over_read r e) [
    | [] ↦ []
    | x ∷ xs ↦
        problem r e.source now
          (record { check = check_rule_cost; detail = read_text (x ∷ xs) r.group.interval })
  ]

  -- The loop over the sources that answered.
  unfoldable pub inspect_evals :
      LoadedRule
      → Time
      → Map String (List Column)
      → List EvaluatedSource
      → Map String (List Column) × List RuleFinding
  unfolding get put column_drift cost_drift
  inspect_evals r now prev [] = (prev, [])
  inspect_evals r now prev (e ∷ evals) =
      let (prev', rest) = inspect_evals r now (put e.source.name e.shape prev) evals in
      (prev', column_drift r now (get e.source.name prev) e ++ cost_drift r now e ++ rest)

  -- inspect
  unfoldable pub inspect :
      LoadedRule
      → Time
      → Map String (List Column)
      → List EvaluatedSource
      → List FailedSource
      → Map String (List Column) × List RuleFinding
  unfolding inspect_evals failure_problems disagreements
  inspect r now prev evals failures =
      let (prev', found) = inspect_evals r now prev evals in
      (prev', found ++ failure_problems r now failures ++ disagreements r evals)
