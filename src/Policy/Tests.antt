-- ===== src/Policy/Tests.antt =====
-- Two scopes that set the same checks.
use mathlib.Core.List.{Permᴰ}
use clickhouse_ruler.Base.{◌<◌, refl, List, [], ◌∷◌, Option, none, some, length, arith, string_eq}
use clickhouse_ruler.GoMap.{get}
use clickhouse_ruler.Lint.{error, off}
use clickhouse_ruler.Policy.{Setting, Policy, merge}
use clickhouse_ruler.Policy.Strictest.{asked}
use clickhouse_ruler.Policy.Merged.{Merged, merge-Merged}
use clickhouse_ruler.Policy.Order.{Agree, merge_order}

abbrev joins : Setting
joins = record { severity = error; keys = "max-joins:3" ∷ []; file = "policy.yml"; line = 2 }

abbrev fewer_joins : Setting
fewer_joins = record {
  severity = off;
  keys = "max-joins:1" ∷ [];
  file = "team/policy.yml";
  line = 2;
}

abbrev instance_scope : Policy
instance_scope = record { file = "policy.yml"; checks = ("rule/complexity", joins) ∷ [] }

abbrev team_scope : Policy
team_scope = record { file = "team/policy.yml"; checks = ("rule/complexity", fewer_joins) ∷ [] }

abbrev scopes : List (Option Policy)
scopes = some instance_scope ∷ none ∷ some team_scope ∷ []

abbrev turned : List (Option Policy)
turned = none ∷ some instance_scope ∷ some team_scope ∷ []

abbrev asked_twice : List Setting
asked_twice = joins ∷ fewer_joins ∷ []

asked_is_positive : 0 < length (asked "rule/complexity" scopes)
unfolding get
asked_is_positive = omega arith

merge-Merged_example :
    Merged "rule/complexity"
      (asked "rule/complexity" scopes)
      (get "rule/complexity" ((merge scopes).checks))
unfolding get
merge-Merged_example =
    merge-Merged "rule/complexity" scopes ((refl, tt), (tt, ((refl, tt), tt))) asked_is_positive

merge_order_example :
    Agree
      (get "rule/complexity" ((merge scopes).checks))
      (get "rule/complexity" ((merge turned).checks))
unfolding get
merge_order_example =
    merge_order "rule/complexity" scopes turned (Permᴰ.swap refl refl)
      ((refl, tt), (tt, ((refl, tt), tt))) (tt, ((refl, tt), ((refl, tt), tt)))
