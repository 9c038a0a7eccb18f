-- ===== src/Rule/Validate.antt =====
-- internal/rule/validate.go: Validate, which goes through the groups of a parsed file and the rules of each.
pub mod Clean
mod Tests
use clickhouse_ruler.Base.{
  ℕ, String, List, [], ◌∷◌, ◌++◌, Option, none, some, if◌then◌else◌, string_eq, ◌==◌,
}
use clickhouse_ruler.GoMap.{Map, get, put}
use clickhouse_ruler.Text.{concat, decimal}
use clickhouse_ruler.Lint.{error, Problem, line_of}
use clickhouse_ruler.Policy.{Policy, defaults}
use clickhouse_ruler.Rule.{Rule, Group, RuleFile}
use clickhouse_ruler.Rule.Checks.{Library, add, rule_checks}

module _ (L : Library) (file : String) (policy_for : Rule → Option Policy) where
  unfoldable pub add_group : Group → ℕ → String → List String → Problem
  unfolding concat
  add_group g line check text = record {
    file = file;
    line = line;
    subject = g.name;
    check = check;
    severity = error;
    text = concat text;
    policy_file = "";
    policy_line = 0;
  }

  unfoldable pub group_name : Group → Map String ℕ → List Problem × Map String ℕ
  unfolding line_of add_group decimal get put
  group_name g group_at =
      let line = line_of g.lines ("name" ∷ []) in
      if g.name == ""
      then (add_group g line "rule/group-name" ("group name is empty" ∷ []) ∷ [], group_at)
      else elim (get g.name group_at) [
        | some first ↦ (
          add_group g line "rule/group-name" (
                "duplicate group name "
                ∷ L.quote g.name
                ∷ ", first defined on line "
                ∷ decimal first
                ∷ [])
              ∷ [],
          group_at,
        )
        | none ↦ ([], put g.name line group_at)
      ]

  unfoldable pub rule_name : Group → Rule → Map String ℕ → List Problem × Map String ℕ
  unfolding line_of add decimal get put
  rule_name g r named_at =
      let line = line_of r.lines ("alert" ∷ []) in
      if r.alert == ""
      then (add L file policy_for r line "rule/name" ("alert name is empty" ∷ []) ∷ [], named_at)
      else elim (get r.alert named_at) [
        | some first ↦ (
          add L file policy_for r line "rule/name" (
                "duplicate alert name "
                ∷ L.quote r.alert
                ∷ " in group "
                ∷ L.quote g.name
                ∷ ", first defined on line "
                ∷ decimal first
                ∷ [])
              ∷ [],
          named_at,
        )
        | none ↦ ([], put r.alert line named_at)
      ]

  -- validator.group
  unfoldable pub group_rules : Group → List Rule → Map String ℕ → List Problem
  unfolding rule_name rule_checks
  group_rules g [] named_at = []
  group_rules g (r ∷ rules) named_at =
      let (problems, named) = rule_name g r named_at in
      problems ++ rule_checks L file policy_for g r ++ group_rules g rules named

  unfoldable pub validate_groups : List Group → Map String ℕ → List Problem
  unfolding group_name group_rules
  validate_groups [] group_at = []
  validate_groups (g ∷ groups) group_at =
      let (problems, at) = group_name g group_at in
      problems ++ group_rules g g.rules [] ++ validate_groups groups at

-- policyFor, where Validate is given none.
abbrev pub or_defaults : Option (Rule → Option Policy) → Rule → Option Policy
or_defaults none r = some defaults
or_defaults (some policy_for) r = policy_for r

-- Validate
unfoldable pub validate : Library → RuleFile → Option (Rule → Option Policy) → List Problem
unfolding validate_groups
validate L f policy_for = validate_groups L f.file (or_defaults policy_for) f.groups []
