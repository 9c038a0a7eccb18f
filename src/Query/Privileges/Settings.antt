-- ===== src/Query/Privileges/Settings.antt =====
-- internal/query/privileges.go: what the rows of system.settings say of the limits that the ruler sends.
use clickhouse_ruler.Base.{
  ℕ, Bool, true, false, ◌||◌, not, String, List, [], ◌∷◌, ◌++◌, Option, none, some, map,
  if◌then◌else◌, string_eq, ◌==◌, nat_beq, is_some,
}
use clickhouse_ruler.GoMap.{Map, get}
use clickhouse_ruler.Text.{concat, join, sort_strings}
use clickhouse_ruler.Query.Privileges.Answers.{
  Assertion, passes, fails, inconclusive, readonly, constraints,
}

-- A setting that the ruler sends, and whether a bound is enough behind it.
abbrev pub constrained : Map String Bool
constrained =
    ("max_execution_time", true)
    ∷ ("max_memory_usage", true)
    ∷ ("max_result_rows", true)
    ∷ ("result_overflow_mode", false)
    ∷ ("timeout_overflow_mode", false)
    ∷ ("skip_unavailable_shards", false)
    ∷ []

pub record SettingRow : Type 0 where
  pub name : String
  pub value : String
  pub min : Option String
  pub max : Option String
  pub readonly : ℕ

-- settingRow.constant, settingRow.bounded
unfoldable pub constant : SettingRow → Bool
constant r = nat_beq r.readonly 1

unfoldable pub bounded : SettingRow → Bool
unfolding constant
bounded r = is_some r.min || is_some r.max || constant r

unfoldable pub row_named : List SettingRow → String → Option SettingRow
row_named [] name = none
row_named (r ∷ rows) name =
    let rest = row_named rows name in if r.name == name then some r else rest

unfoldable pub eval_readonly : List SettingRow → Assertion
unfolding row_named constant concat
eval_readonly rows = elim (row_named rows readonly) [
  | none ↦ record {
    name = readonly;
    status = inconclusive;
    detail = "system.settings returned no row for readonly";
  }
  | some row ↦
      if not (row.value == "2")
      then record {
        name = readonly;
        status = fails;
        detail = concat (
            "readonly is " ∷ row.value
            ∷ ", want 2: 0 lets a rule write, 1 refuses the settings the ruler sends" ∷ []);
      }
      else if not (constant row)
      then record {
        name = readonly;
        status = fails;
        detail = "readonly is 2 but not const, so a query can lower it";
      }
      else record { name = readonly; status = passes; detail = "" }
]

-- The names of `constrained`, sorted.
unfoldable pub constrained_names : List String
unfolding sort_strings
constrained_names = sort_strings (map (λ entry. entry.0) constrained)

-- What one round of the loop of evalConstraints adds.
unfoldable pub unconstrained_one : Option SettingRow → String → Option Bool → List String
unfolding bounded constant concat
unconstrained_one none name bound = concat (name ∷ " (not reported by system.settings)" ∷ []) ∷ []
unconstrained_one (some row) name (some true) =
    if not (bounded row) then concat (name ∷ " (no min, max or const constraint)" ∷ []) ∷ [] else []
unconstrained_one (some row) name (some false) =
    if not (constant row) then concat (name ∷ " (not const)" ∷ []) ∷ [] else []
unconstrained_one (some row) name none =
    if not (constant row) then concat (name ∷ " (not const)" ∷ []) ∷ [] else []

unfoldable pub unconstrained : List SettingRow → List String → List String
unfolding row_named get unconstrained_one
unconstrained rows [] = []
unconstrained rows (name ∷ names) =
    unconstrained_one (row_named rows name) name (get name constrained) ++ unconstrained rows names

unfoldable pub constraints_verdict : List String → Assertion
unfolding concat join
constraints_verdict [] = record { name = constraints; status = passes; detail = "" }
constraints_verdict (u ∷ us) = record {
  name = constraints;
  status = fails;
  detail = concat ("a rule can raise these in its own SETTINGS clause: " ∷ join ", " (u ∷ us) ∷ []);
}

unfoldable pub eval_constraints : List SettingRow → Assertion
unfolding constrained_names unconstrained constraints_verdict
eval_constraints rows = constraints_verdict (unconstrained rows constrained_names)
