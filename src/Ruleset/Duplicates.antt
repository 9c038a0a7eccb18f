-- ===== src/Ruleset/Duplicates.antt =====
-- internal/ruleset/ruleset.go: duplicateAlerts and sourceMatch.
use clickhouse_ruler.Base.{
  ◌≡◌, refl, Bool, true, false, ◌&&◌, not, String, List, [], ◌∷◌, ◌++◌, Option, none, some,
  if◌then◌else◌, string_eq, ◌==◌, arith, sym, ap, ◌∙◌, eq_iff,
}
use clickhouse_ruler.GoMap.{Map, get, put}
use clickhouse_ruler.GoMap.Laws.{get-put}
use clickhouse_ruler.Text.{concat, decimal}
use clickhouse_ruler.Lint.{is_off, Problem, line_of}
use clickhouse_ruler.Policy.{Policy, Setting, merge, setting_for}
use clickhouse_ruler.Rule.{Rule}
use clickhouse_ruler.Source.{Source}
use clickhouse_ruler.Ruleset.{LoadedRule, policy_for, alert_identity}

abbrev pub check_duplicate_alert : String
check_duplicate_alert = "rule/duplicate-alert"

abbrev pub check_source_match : String
check_source_match = "rule/source-match"

-- The setting that a pair of rules is reported under: both are on the hook.
unfoldable pub pair_setting : List Source → LoadedRule → LoadedRule → Setting
unfolding merge setting_for policy_for
pair_setting sources prev r =
    setting_for
      (some (
        merge (
          some (policy_for prev.rule sources prev.policy)
          ∷ some (policy_for r.rule sources r.policy)
          ∷ [])))
      check_duplicate_alert

unfoldable pub duplicate_problem : Setting → LoadedRule → LoadedRule → Problem
unfolding line_of concat decimal
duplicate_problem setting prev r = record {
  file = r.file;
  line = line_of r.rule.lines ("alert" ∷ []);
  subject = r.rule.alert;
  check = check_duplicate_alert;
  severity = setting.severity;
  text = concat (
      "this rule and the one at "
      ∷ prev.file
      ∷ ":"
      ∷ decimal (line_of prev.rule.lines ("alert" ∷ []))
      ∷ " produce the same alert: same name, same labels, and the same sources, so Alertmanager and the resend cadence cannot tell them apart and a resolve from either ends the other. Give one of them a label the other does not carry, narrow one selector, or delete the rule that is redundant"
      ∷ []);
  policy_file = setting.file;
  policy_line = setting.line;
}

abbrev pub reaches_any : List Source → Bool
reaches_any [] = false
reaches_any (s ∷ ss) = true

-- One round of the loop: what it reports, and `first` after it.
unfoldable pub duplicate_of :
    List Source → Map String LoadedRule → LoadedRule → List Problem × Map String LoadedRule
unfolding get put alert_identity pair_setting duplicate_problem
duplicate_of sources first r =
    let key = alert_identity r in
    if not (reaches_any r.sources) then ([], first) else elim (get key first) [
      | none ↦ ([], put key r first)
      | some prev ↦
          let setting = pair_setting sources prev r in
          (if is_off setting.severity then [] else duplicate_problem setting prev r ∷ [], first)
    ]

unfoldable pub duplicates_from :
    List Source → Map String LoadedRule → List LoadedRule → List Problem
unfolding duplicate_of
duplicates_from sources first [] = []
duplicates_from sources first (r ∷ rules) =
    let (found, first') = duplicate_of sources first r in
    found ++ duplicates_from sources first' rules

-- duplicateAlerts, over the sources of the loader.
unfoldable pub duplicate_alerts : List Source → List LoadedRule → List Problem
unfolding duplicates_from
duplicate_alerts sources rules = duplicates_from sources [] rules

-- sourceMatch
unfoldable pub source_match : String → Rule → List Source → Option Policy → List Problem
unfolding setting_for line_of
source_match file r (s ∷ matched) p = []
source_match file r [] p =
    let setting = setting_for p check_source_match in
    let unmatched : Problem = record {
      file = file;
      line = line_of r.lines ("labels" ∷ []);
      subject = r.alert;
      check = check_source_match;
      severity = setting.severity;
      text =
          "the sources selector matches no source, so this ruler will never evaluate the rule. That is expected when the sources for its cluster live on a different ruler, or when a cluster is being added and its source has not landed yet. An empty selector matches nothing on purpose";
      policy_file = setting.file;
      policy_line = setting.line;
    } in
    if is_off setting.severity then [] else unmatched ∷ []

-- The earliest of the rules that reaches a source and has the identity `k`.
abbrev pub first_with : String → List LoadedRule → Option LoadedRule
first_with k [] = none
first_with k (r ∷ rules) =
    let rest = first_with k rules in
    if reaches_any r.sources && (k == alert_identity r) then some r else rest

-- A rule is reported against the first of the rules before it that has its identity.
abbrev report_on : List Source → Option LoadedRule → LoadedRule → List Problem
report_on sources none r = []
report_on sources (some prev) r =
    let setting = pair_setting sources prev r in
    if is_off setting.severity then [] else duplicate_problem setting prev r ∷ []

abbrev pub reports_after : List Source → List LoadedRule → List LoadedRule → List Problem
reports_after sources before [] = []
reports_after sources before (r ∷ rules) =
    (if reaches_any r.sources
      then report_on sources (first_with (alert_identity r) before) r
      else [])
    ++ reports_after sources (before ++ r ∷ []) rules

abbrev or_this : String → LoadedRule → Option LoadedRule → Option LoadedRule
or_this k r (some q) = some q
or_this k r none = if reaches_any r.sources && (k == alert_identity r) then some r else none

first_with-snoc :
    (k : String) (before : List LoadedRule) (r : LoadedRule)
    → first_with k (before ++ r ∷ []) ≡ or_this k r (first_with k before)
first_with-snoc k [] r = refl
first_with-snoc k (q ∷ before) r = ground (arith, first_with-snoc k before r)

module _ (sources : List Source) (first : Map String LoadedRule) (r : LoadedRule) where
  duplicate_of-report :
      (duplicate_of sources first r).0
      ≡ (if reaches_any r.sources then report_on sources (get (alert_identity r) first) r else [])
  unfolding duplicate_of
  duplicate_of-report = ground arith

  duplicate_of-get :
      (k : String) → get k (duplicate_of sources first r).1 ≡ or_this k r (get k first)
  unfolding duplicate_of
  duplicate_of-get k =
      ground (arith, get-put k (alert_identity r) r first, eq_iff k (alert_identity r))

duplicates_from_lem :
    (sources : List Source) (first : Map String LoadedRule) (before rules : List LoadedRule)
    → ((k : String) → get k first ≡ first_with k before)
    → duplicates_from sources first rules ≡ reports_after sources before rules
unfolding duplicates_from
duplicates_from_lem sources first before [] h = refl
duplicates_from_lem sources first before (r ∷ rules) h =
    ap (λ found. found ++ duplicates_from sources (duplicate_of sources first r).1 rules)
      (duplicate_of-report sources first r
        ∙ ap (λ prev. if reaches_any r.sources then report_on sources prev r else [])
            (h (alert_identity r)))
    ∙ ap
        (λ rest.
          (if reaches_any r.sources
            then report_on sources (first_with (alert_identity r) before) r
            else [])
          ++ rest)
        (duplicates_from_lem sources (duplicate_of sources first r).1 (before ++ r ∷ []) rules (λ k.
          duplicate_of-get sources first r k
          ∙ ap (or_this k r) (h k)
          ∙ sym (first_with-snoc k before r)))

-- A rule that reaches a source is reported, once, exactly where an earlier rule that reaches a source has the
-- same identity and the check is not off for the two, against the first such rule; no other rule is.
pub duplicate_alerts_lem :
    (sources : List Source) (rules : List LoadedRule)
    → duplicate_alerts sources rules ≡ reports_after sources [] rules
unfolding duplicate_alerts get
duplicate_alerts_lem sources rules = duplicates_from_lem sources [] [] rules (λ k. refl)
