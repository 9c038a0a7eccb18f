-- ===== src/Scheduler/Reload/Build.antt =====
-- internal/scheduler/scheduler.go: the evaluators that build makes of the rules of a group.
use clickhouse_ruler.Base.{
  ℕ, suc, ◌&&◌, String, List, [], ◌∷◌, if◌then◌else◌, string_eq, nat_eq, ◌==◌, Duration,
}
use clickhouse_ruler.GoMap.{Map}
use clickhouse_ruler.Alert.Annotate.{Engine}
use clickhouse_ruler.Ruleset.{LoadedRule}
use clickhouse_ruler.Scheduler.Evaluate.Results.{RuleEval}
use clickhouse_ruler.Scheduler.Reload.{RuleKey, reaches}

-- How many rules of a list reach a source and have the alert name.
abbrev pub count_of : String → List LoadedRule → ℕ
count_of alert [] = 0
count_of alert (r ∷ rules) =
    let rest = count_of alert rules in
    if reaches r.sources && (alert == r.rule.alert) then suc rest else rest

module _ (E : Engine) (name : String) (kept : Duration) (prev : Map RuleKey RuleEval) where
  abbrev pub key_of : LoadedRule → ℕ → RuleKey
  key_of r n = record { group = name; alert = r.rule.alert; occurrence = n }
