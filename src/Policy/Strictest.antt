-- ===== src/Policy/Strictest.antt =====
-- internal/policy/merge.go: what Merge gives a check, from the settings that the scopes give it.
use clickhouse_ruler.Base.{
  ◌≡◌, refl, String, List, [], ◌∷◌, Option, none, some, if◌then◌else◌, string_eq, ◌==◌, All, arith,
  eq_iff, Option-cases, inl, inr,
}
use clickhouse_ruler.GoMap.{Map, get, WellKeyed}
use clickhouse_ruler.GoMap.Laws.{get-put}
use clickhouse_ruler.Lint.Checks.{is_allowlist_check}
use clickhouse_ruler.Policy.{
  Setting, Policy, strictest, first_setting, merge_check, merge_checks, merge_into,
}

abbrev pub start_of : String → Setting → Option Setting → Setting
start_of name s none = first_setting name s
start_of name s (some current) = current

-- A check's setting after one more scope that sets it.
abbrev pub fold_in : String → Option Setting → Setting → Setting
fold_in name o s = strictest (start_of name s o) s (is_allowlist_check name)

abbrev fold_option : String → Option Setting → Option Setting → Option Setting
fold_option name o none = o
fold_option name o (some s) = some (fold_in name o s)

-- The settings that the scopes give a check, in their order.
abbrev add_setting : Option Setting → List Setting → List Setting
add_setting none ss = ss
add_setting (some s) ss = s ∷ ss

abbrev pub asked : String → List (Option Policy) → List Setting
asked name [] = []
asked name (none ∷ scopes) = asked name scopes
asked name (some p ∷ scopes) = add_setting (get name p.checks) (asked name scopes)

abbrev pub fold_all : String → Option Setting → List Setting → Option Setting
fold_all name o [] = o
fold_all name o (s ∷ ss) = fold_all name (some (fold_in name o s)) ss

abbrev pub ScopeKeyed : Option Policy → Type 0
ScopeKeyed none = Unit
ScopeKeyed (some p) = WellKeyed p.checks

get-merge_check :
    (k name : String) (s : Setting) (out : Map String Setting)
    → get k (merge_check name s out)
      ≡ (if k == name then some (fold_in name (get name out) s) else get k out)
unfolding merge_check
get-merge_check k name s out = elim (Option-cases (get name out)) [
  | inl e ↦
      rw (merge_check, e)
        (get-put k name (strictest (first_setting name s) s (is_allowlist_check name)) out)
  | inr e ↦ rw (merge_check, e.1) (get-put k name (strictest e.0 s (is_allowlist_check name)) out)
]

get-merge_checks :
    (k : String) (checks out : Map String Setting)
    → WellKeyed checks
    → get k (merge_checks checks out) ≡ fold_option k (get k out) (get k checks)
unfolding merge_checks get
get-merge_checks k [] out w = refl
get-merge_checks k ((name, s) ∷ checks) out w = ground (
  arith,
  w.0,
  get-merge_checks k checks (merge_check name s out) w.1,
  get-merge_check k name s out,
  eq_iff k name,
)

pub get-merge_into :
    (name : String) (scopes : List (Option Policy)) (out : Map String Setting)
    → All ScopeKeyed scopes
    → get name (merge_into scopes out) ≡ fold_all name (get name out) (asked name scopes)
unfolding merge_into
get-merge_into name [] out w = refl
get-merge_into name (none ∷ scopes) out w = get-merge_into name scopes out w.1
get-merge_into name (some p ∷ scopes) out w = elim (Option-cases (get name p.checks)) [
  | inl e ↦
      rw
        (
          get-merge_into name scopes (merge_checks p.checks out) w.1,
          get-merge_checks name p.checks out w.0,
          e,
        )
        refl
  | inr e ↦
      rw
        (
          get-merge_into name scopes (merge_checks p.checks out) w.1,
          get-merge_checks name p.checks out w.0,
          e.1,
        )
        refl
]
