-- ===== src/Query/Privileges/Contract.antt =====
-- internal/query/privileges.go: which assertions Privileges makes.
use mathlib.Core.List.{map-append}
use clickhouse_ruler.Base.{
  ◌≡◌, refl, ◌∙◌, ap, Bool, String, List, [], ◌∷◌, map, keep_if, arith, Bool-cases, Result-cases,
  inl, inr, string_eq, All,
}
use clickhouse_ruler.Policy.{contains}
use clickhouse_ruler.Query.Privileges.{
  Connection, assertion_order, selected, assert_one, assert_all, privileges, assert_sources_revoked,
  revoked_verdict, run_probes, assert_readonly, setting_rows, assert_constraints,
  assert_table_readable, assert_clusters_readable, probes,
}
use clickhouse_ruler.Query.Privileges.Settings.{
  eval_readonly, eval_constraints, constraints_verdict, unconstrained, constrained_names,
}
use clickhouse_ruler.Query.Privileges.Answers.{
  Assertion, sources_revoked, readonly, constraints, table_readable, clusters_readable,
}

revoked_verdict-name : (l : List String × List String) → (revoked_verdict l).name ≡ sources_revoked
unfolding revoked_verdict
revoked_verdict-name ([], []) = refl
revoked_verdict-name ([], u ∷ us) = refl
revoked_verdict-name (g ∷ gs, us) = refl

constraints_verdict-name : (us : List String) → (constraints_verdict us).name ≡ constraints
unfolding constraints_verdict
constraints_verdict-name [] = refl
constraints_verdict-name (u ∷ us) = refl

abbrev one_name : String → List String
one_name name = name ∷ []

All-keep_if :
    (P : String → Type 0) (p : String → Bool) (xs : List String) → All P xs → All P (keep_if p xs)
All-keep_if P p [] h = tt
All-keep_if P p (x ∷ xs) h = elim (Bool-cases (p x)) [
  | inl e ↦ rw e (h.0, All-keep_if P p xs h.1)
  | inr e ↦ rw e (All-keep_if P p xs h.1)
]

module _ (c : Connection) where
  name-sources_revoked : (assert_sources_revoked c).name ≡ sources_revoked
  unfolding assert_sources_revoked
  name-sources_revoked = revoked_verdict-name (run_probes c probes)

  name-readonly : (assert_readonly c).name ≡ readonly
  unfolding assert_readonly eval_readonly
  name-readonly = ground arith

  name-constraints : (assert_constraints c).name ≡ constraints
  unfolding assert_constraints eval_constraints
  name-constraints = elim (Result-cases (setting_rows c constrained_names)) [
    | inl (rows, h) ↦
        rw (assert_constraints, h) (constraints_verdict-name (unconstrained rows constrained_names))
    | inr (e, h) ↦ rw (assert_constraints, h) refl
  ]

  name-table : (assert_table_readable c).name ≡ table_readable
  unfolding assert_table_readable
  name-table = refl

  name-clusters : (assert_clusters_readable c).name ≡ clusters_readable
  unfolding assert_clusters_readable
  name-clusters = ground arith

  -- The assertion that is made for a name of the contract bears that name.
  abbrev IsNamed : String → Type 0
  IsNamed name = map (λ a. a.name) (assert_one c name) ≡ name ∷ []

  assertion_order-IsNamed : All IsNamed assertion_order
  unfolding assert_one
  assertion_order-IsNamed = (
    ap one_name name-sources_revoked,
    (
      ap one_name name-readonly,
      (ap one_name name-constraints, (ap one_name name-table, (ap one_name name-clusters, tt))),
    ),
  )

  names-assert_all :
      (names : List String) → All IsNamed names → map (λ a. a.name) (assert_all c names) ≡ names
  unfolding assert_all
  names-assert_all [] h = refl
  names-assert_all (name ∷ names) h =
      map-append (λ (a : Assertion). a.name) (assert_one c name) (assert_all c names)
      ∙ rw (h.0, names-assert_all names h.1) refl

-- Privileges makes each assertion of the contract that is asked for once, in the order of a report, whatever the
-- order and the repetitions of the request, and drops the other names.
pub names-privileges :
    (c : Connection) (require : List String)
    → map (λ a. a.name) (privileges c require)
      ≡ keep_if (λ name. contains name require) assertion_order
unfolding privileges selected
names-privileges c require = names-assert_all c (selected require) (
    All-keep_if (IsNamed c) (λ name. contains name require) assertion_order
      (assertion_order-IsNamed c))
