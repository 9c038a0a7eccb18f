-- ===== src/Policy/Merged.antt =====
-- internal/policy/merge.go: the severity and the keys of a merged check.
use clickhouse_ruler.Base.{
  ℕ, ◌<◌, max, ◌≡◌, refl, Bool, true, false, ◌&&◌, ◌||◌, String, List, [], ◌∷◌, Option, none, some,
  if◌then◌else◌, All, arith, Option-cases, inl, inr, length, string_eq,
}
use clickhouse_ruler.GoMap.{get}
use clickhouse_ruler.Lint.{severity_rank}
use clickhouse_ruler.Lint.Checks.{is_allowlist_check, is_ceiling_check}
use clickhouse_ruler.Policy.{
  Setting, Policy, default_for, contains, strictest, first_setting, merge,
}
use clickhouse_ruler.Policy.Keys.{contains-union, contains-intersect}
use clickhouse_ruler.Policy.Strictest.{fold_in, asked, fold_all, ScopeKeyed, get-merge_into}

strictest-rank :
    (current incoming : Setting) (allowlist : Bool)
    → severity_rank ((strictest current incoming allowlist).severity)
      ≡ max (severity_rank current.severity) (severity_rank incoming.severity)
unfolding strictest
strictest-rank current incoming allowlist = ground arith

abbrev both_or_any : Bool → Bool → Bool → Bool
both_or_any allowlist a b = if allowlist then a && b else (a || b)

strictest-keys :
    (k : String) (current incoming : Setting) (allowlist : Bool)
    → contains k ((strictest current incoming allowlist).keys)
      ≡ both_or_any allowlist (contains k current.keys) (contains k incoming.keys)
unfolding strictest
strictest-keys k current incoming true = contains-intersect k current.keys incoming.keys
strictest-keys k current incoming false = contains-union k current.keys incoming.keys

-- The highest severity of the settings, and whether a key is in all of them, or in one.
abbrev pub highest : List Setting → ℕ
highest [] = 0
highest (s ∷ ss) = max (severity_rank s.severity) (highest ss)

abbrev pub in_all : String → List Setting → Bool
in_all k [] = true
in_all k (s ∷ ss) = contains k s.keys && in_all k ss

abbrev pub in_any : String → List Setting → Bool
in_any k [] = false
in_any k (s ∷ ss) = contains k s.keys || in_any k ss

record Folded (name : String) (c : Setting) (ss : List Setting) : Type 0 where
  pub setting : Setting
  pub result : fold_all name (some c) ss ≡ some setting
  pub severity_eq : severity_rank setting.severity ≡ max (severity_rank c.severity) (highest ss)
  pub keys_eq :
      (k : String)
      → contains k setting.keys ≡ (
          if is_allowlist_check name
          then contains k c.keys && in_all k ss
          else (contains k c.keys || in_any k ss))

fold_all-Folded : (name : String) (c : Setting) (ss : List Setting) → Folded name c ss
fold_all-Folded name c [] = record {
  setting = c;
  result = refl;
  severity_eq = omega arith;
  keys_eq = λ k. ground arith;
}
fold_all-Folded name c (s ∷ ss) =
    let al = is_allowlist_check name in
    let ih = fold_all-Folded name (fold_in name (some c) s) ss in
    record {
      setting = ih.setting;
      result = ih.result;
      severity_eq = omega (ih.severity_eq, strictest-rank c s al, arith);
      keys_eq = λ k. ground (arith, ih.keys_eq k, strictest-keys k c s al);
    }

-- A key that the table ships for a check. An allowlist and a list of ceilings start from the scopes.
abbrev pub shipped : String → String → Bool
shipped name k =
    if is_ceiling_check name
    then false
    else elim (default_for name) [ none ↦ false | some d ↦ contains k d.keys ]

-- What a merge makes of the settings `ss` of a check: the highest of their severities, and as keys, for an
-- allowlist those that are in every setting, and for any other list those that are in one or shipped.
pub record Merged (name : String) (ss : List Setting) (o : Option Setting) : Type 0 where
  pub setting : Setting
  pub result : o ≡ some setting
  pub severity_eq : severity_rank setting.severity ≡ highest ss
  pub keys_eq :
      (k : String)
      → contains k setting.keys
        ≡ (if is_allowlist_check name then in_all k ss else (shipped name k || in_any k ss))

first-rank : (name : String) (s : Setting) → severity_rank ((first_setting name s).severity) ≡ 0
unfolding first_setting
first-rank name s = elim (Option-cases (default_for name)) [
  | inl e ↦ rw (first_setting, e) (ground arith)
  | inr e ↦ rw (first_setting, e.1) (ground arith)
]

contains-nil : (k : String) → contains k [] ≡ false
unfolding contains
contains-nil k = refl

first-keys :
    (name k : String) (s : Setting)
    → contains k ((first_setting name s).keys) ≡ (
        if is_allowlist_check name || is_ceiling_check name
        then contains k s.keys
        else shipped name k)
unfolding first_setting
first-keys name k s = elim (Option-cases (default_for name)) [
  | inl e ↦ rw (first_setting, shipped, e) (ground (arith, contains-nil k))
  | inr e ↦ rw (first_setting, shipped, e.1) (ground arith)
]

Merged-from :
    (name : String) (ss : List Setting) → 0 < length ss → Merged name ss (fold_all name none ss)
Merged-from name [] h = ground arith
Merged-from name (s ∷ ss) h =
    let al = is_allowlist_check name in
    let first = first_setting name s in
    let f = fold_all-Folded name (strictest first s al) ss in
    record {
      setting = f.setting;
      result = f.result;
      severity_eq = omega (f.severity_eq, strictest-rank first s al, first-rank name s, arith);
      keys_eq = λ k. ground (arith, f.keys_eq k, strictest-keys k first s al, first-keys name k s);
    }

-- Merge takes the strictest setting of each check: where at least one scope sets the check, its merged
-- severity is the highest that a scope gives it, whatever the shipped severity; an allowlist keeps the keys
-- that every scope which sets the check lists; and any other check keeps the keys that one of them lists, and
-- the shipped keys too unless the keys are ceilings. A scope sets a check at most once.
pub merge-Merged :
    (name : String) (scopes : List (Option Policy))
    → All ScopeKeyed scopes
    → 0 < length (asked name scopes)
    → Merged name (asked name scopes) (get name ((merge scopes).checks))
unfolding merge get
merge-Merged name scopes w h =
    rw (merge, get-merge_into name scopes [] w) (Merged-from name (asked name scopes) h)
