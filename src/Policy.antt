-- ===== src/Policy.antt =====
-- internal/policy: the settings of the configurable checks, and how the scopes that apply to a rule
-- combine. A `range` over a map visits it in any order: here the order of the association list.
pub mod Keys
pub mod Limits
pub mod Merged
pub mod Order
pub mod Strictest
mod Tests
use clickhouse_ruler.Base.{
  ℕ, Bool, true, false, ◌&&◌, ◌||◌, not, String, List, [], ◌∷◌, ◌++◌, Option, none, some,
  if◌then◌else◌, string_eq, ◌==◌, keep_if,
}
use clickhouse_ruler.GoMap.{Map, get, put}
use clickhouse_ruler.Text.{sort_strings}
use clickhouse_ruler.Lint.{Severity, off, warning, error, severity_gt}
use clickhouse_ruler.Lint.Checks.{
  lookup, is_configurable, is_allowlist_check, is_ceiling_check, configurables,
}

pub record Setting : Type 0 where
  pub severity : Severity
  pub keys : List String
  pub file : String
  pub line : ℕ

pub record Policy : Type 0 where
  pub file : String
  pub checks : Map String Setting

abbrev pub no_setting : Setting
no_setting = record { severity = off; keys = []; file = ""; line = 0 }

-- defaultFor
unfoldable pub default_for : String → Option Setting
unfolding lookup
default_for check = elim (lookup check) [
  | none ↦ none
  | some c ↦
      if is_configurable c
      then some (record no_setting { severity = c.default; keys = c.keys })
      else none
]

-- Policy.For: a scope's own setting, the shipped one, or an error where the check takes no setting.
unfoldable pub setting_for : Option Policy → String → Setting
unfolding get default_for
setting_for p check =
    let own : Option Setting = elim p [ none ↦ none | some q ↦ get check q.checks ] in
    elim own [
      | some s ↦ s
      | none ↦ elim (default_for check) [
        | some s ↦ s
        | none ↦ record no_setting { severity = error }
      ]
    ]

unfoldable pub contains : String → List String → Bool
contains k [] = false
contains k (j ∷ ks) = (k == j) || contains k ks

-- slices.Compact: runs of equal entries become one.
unfoldable compact_from : String → List String → List String
compact_from k [] = k ∷ []
compact_from k (j ∷ ks) = let rest = compact_from j ks in if k == j then rest else k ∷ rest

unfoldable pub compact : List String → List String
unfolding compact_from
compact [] = []
compact (k ∷ ks) = compact_from k ks

-- The entries of both lists.
unfoldable pub intersect : List String → List String → List String
unfolding contains compact sort_strings
intersect a b = compact (sort_strings (keep_if (λ k. contains k a) b))

-- The keys of the set that `union` builds.
unfoldable pub distinct : List String → List String
unfolding contains
distinct [] = []
distinct (k ∷ ks) = let rest = distinct ks in if contains k ks then rest else k ∷ rest

unfoldable pub union : List String → List String → List String
unfolding distinct sort_strings
union a [] = a
union a (k ∷ ks) = sort_strings (distinct (a ++ k ∷ ks))

unfoldable pub strictest : Setting → Setting → Bool → Setting
unfolding intersect union
strictest current incoming allowlist =
    let merged =
      if severity_gt incoming.severity current.severity
      then record current {
        severity = incoming.severity;
        file = incoming.file;
        line = incoming.line;
      }
      else current in
    record merged {
      keys =
          if allowlist
          then intersect current.keys incoming.keys
          else union current.keys incoming.keys;
    }

-- The setting that a check starts from when the first scope sets it.
unfoldable pub first_setting : String → Setting → Setting
unfolding default_for
first_setting name incoming =
    if is_allowlist_check name || is_ceiling_check name
    then record no_setting { keys = incoming.keys }
    else elim (default_for name) [
      | none ↦ no_setting
      | some d ↦ record no_setting { keys = d.keys }
    ]

unfoldable pub merge_check : String → Setting → Map String Setting → Map String Setting
unfolding get put strictest first_setting
merge_check name incoming out =
    let current : Setting = elim (get name out) [
      | some s ↦ s
      | none ↦ first_setting name incoming
    ] in
    put name (strictest current incoming (is_allowlist_check name)) out

unfoldable pub merge_checks : Map String Setting → Map String Setting → Map String Setting
unfolding merge_check
merge_checks [] out = out
merge_checks ((name, incoming) ∷ checks) out = merge_checks checks (merge_check name incoming out)

-- Merge: a nil scope is skipped.
unfoldable pub merge_into : List (Option Policy) → Map String Setting → Map String Setting
unfolding merge_checks
merge_into [] out = out
merge_into (none ∷ scopes) out = merge_into scopes out
merge_into (some p ∷ scopes) out = merge_into scopes (merge_checks p.checks out)

unfoldable pub merge : List (Option Policy) → Policy
unfolding merge_into
merge scopes = record { file = ""; checks = merge_into scopes [] }

-- Defaults
unfoldable default_checks : List String → Map String Setting
unfolding default_for put
default_checks [] = []
default_checks (name ∷ names) =
    let rest = default_checks names in
    elim (default_for name) [ none ↦ rest | some s ↦ put name s rest ]

unfoldable pub defaults : Policy
unfolding default_checks configurables
defaults = record { file = ""; checks = default_checks configurables }

-- ParseSeverity
unfoldable pub parse_severity : String → Option Severity
parse_severity s =
    if s == "off"
    then some off
    else if (s == "warn") || (s == "warning")
    then some warning
    else if s == "error"
    then some error
    else none
