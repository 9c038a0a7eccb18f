-- ===== src/Rule/Checks/Clean.antt =====
-- internal/rule/validate.go: when the checks of a rule have no finding.
use clickhouse_ruler.Base.{
  ℕ, ◌≡◌, refl, ◌∙◌, ap, Bool, true, false, ◌&&◌, ◌||◌, not, String, List, [], ◌∷◌, ◌++◌, Option,
  none, some, Result, ok, err, if◌then◌else◌, string_eq, ◌==◌, Duration, pos, ltb_ℤ, arith, is_nil,
  is_nil-append,
}
use clickhouse_ruler.GoMap.{Map, get}
use clickhouse_ruler.Text.{codes, has_prefix}
use clickhouse_ruler.Lint.{is_off, line_of, Problem}
use clickhouse_ruler.Policy.{Policy, setting_for}
use clickhouse_ruler.Rule.{Rule, Group, effective_labels}
use clickhouse_ruler.Rule.Expr.{uses_bound, expr_vars}
use clickhouse_ruler.Rule.Template.{Node, template_fields, contains}
use clickhouse_ruler.Rule.Checks.{
  Library, add_policy, bound_missing, unknown_fields, rule_expr, expr_template, runbook_url,
  required_key, required_from, required_keys, opens, annotations_runbook, bad_template,
  bad_templates, annotation_text, annotations_template, protected_names, annotations_protected,
  is_shorter, has_key, rule_for, rule_window, rule_checks, sorted_names, reserved_annotation_prefix,
}

abbrev pub every : (String → Bool) → List String → Bool
every p [] = true
every p (x ∷ xs) = p x && every p xs

-- A value that is there and not empty.
abbrev pub filled : Option String → Bool
filled none = false
filled (some value) = not (value == "")

abbrev pub parses : Result String Node → Bool
parses (ok root) = true
parses (err e) = false

abbrev pub reads_only : List String → Result String Node → Bool
reads_only vars (ok root) = every (λ field. contains field vars) (template_fields root)
reads_only vars (err e) = false

abbrev pub is_reserved : String → Bool
is_reserved name = has_prefix (codes name) (codes reserved_annotation_prefix)

pub nil_both :
    (xs ys : List Problem) {a b : Bool}
    → is_nil xs ≡ a
    → is_nil ys ≡ b
    → is_nil (xs ++ ys) ≡ (a && b)
nil_both xs ys {a} {b} p q = is_nil-append xs ys ∙ ap (λ x. x && is_nil ys) p ∙ ap (λ x. a && x) q

or_false : (b : Bool) → b ≡ (b || false)
or_false true = refl
or_false false = refl

or_true : (b : Bool) → true ≡ (b || true)
or_true true = refl
or_true false = refl

is_nil-optional : (b : Bool) (ps : List Problem) → is_nil (if b then [] else ps) ≡ (b || is_nil ps)
is_nil-optional true ps = refl
is_nil-optional false ps = refl

is_nil-if : (b : Bool) (p : Problem) → is_nil (if b then [] else p ∷ []) ≡ b
is_nil-if true p = refl
is_nil-if false p = refl

is_nil-unless :
    (b : Bool) (p : Problem) (ps : List Problem)
    → is_nil (if b then p ∷ [] else ps) ≡ (not b && is_nil ps)
is_nil-unless true p ps = refl
is_nil-unless false p ps = refl

is_nil-when : (b : Bool) (ps : List Problem) → is_nil (if b then ps else []) ≡ (is_nil ps || not b)
is_nil-when true [] = refl
is_nil-when true (p ∷ ps) = refl
is_nil-when false [] = refl
is_nil-when false (p ∷ ps) = refl

is_nil-unless_or :
    (b c : Bool) (ps : List Problem) → is_nil (if b || c then [] else ps) ≡ (is_nil ps || b || c)
is_nil-unless_or b c [] = ground arith
is_nil-unless_or b c (p ∷ ps) = ground arith

module _ (L : Library) (file : String) (policy_for : Rule → Option Policy) (r : Rule) where
  abbrev pub silent : String → Bool
  silent check = is_off (setting_for (policy_for r) check).severity

  -- What the checks ask of a rule.
  abbrev pub sound_expr : Bool
  sound_expr =
      not (r.expr == "")
      && (uses_bound ".From" r.expr
          && uses_bound ".To" r.expr
          && reads_only expr_vars (L.parse "expr" r.expr))

  abbrev pub sound_block : String → Map String String → Bool
  sound_block check have =
      every (λ key. silent check || filled (get key have)) (setting_for (policy_for r) check).keys

  abbrev pub sound_runbook : Option String → Bool
  sound_runbook none = true
  sound_runbook (some raw) =
      silent "annotations/runbook" || raw == "" || opens L file policy_for (L.parse_url raw)

  abbrev pub sound_annotation : String → Bool
  sound_annotation name =
      silent "annotations/template"
      || parses (L.parse name (annotation_text L file policy_for r name))

  abbrev pub sound_duration : String → Duration → Duration → Bool
  sound_duration check d interval =
      not (ltb_ℤ d (pos 0)) && (silent check || not (is_shorter L file policy_for d interval))

  abbrev pub sound : Group → Bool
  sound g =
      sound_expr
      && sound_block "labels/required" (effective_labels g r)
      && sound_block "annotations/required" r.annotations
      && sound_runbook (get "runbook_url" r.annotations)
      && every sound_annotation (sorted_names r.annotations)
      && every (λ name. not (is_reserved name)) (sorted_names r.annotations)
      && (not (has_key r "for") || sound_duration "rule/for" r.for_duration g.interval)
      && sound_duration "rule/window" r.window g.interval

  is_nil-add_policy :
      (line : ℕ) (check : String) (text : List String)
      → is_nil (add_policy L file policy_for r line check text) ≡ silent check
  unfolding add_policy
  is_nil-add_policy line check text = is_nil-if (silent check) _

  is_nil-unknown_fields :
      (line : ℕ) (fields : List String)
      → is_nil (unknown_fields L file policy_for r line fields)
        ≡ every (λ field. contains field expr_vars) fields
  unfolding unknown_fields
  is_nil-unknown_fields line [] = refl
  is_nil-unknown_fields line (f ∷ fields) = ground (arith, is_nil-unknown_fields line fields)

  is_nil-bound_missing :
      (line : ℕ) (field name reason : String)
      → is_nil (bound_missing L file policy_for r line field name reason) ≡ uses_bound field r.expr
  unfolding bound_missing
  is_nil-bound_missing line field name reason = ground arith

  is_nil-expr_template :
      (line : ℕ) (parsed : Result String Node)
      → is_nil (expr_template L file policy_for r line parsed) ≡ reads_only expr_vars parsed
  unfolding expr_template
  is_nil-expr_template line (err e) = refl
  is_nil-expr_template line (ok root) = is_nil-unknown_fields line (template_fields root)

  is_nil-rule_expr : is_nil (rule_expr L file policy_for r) ≡ sound_expr
  unfolding rule_expr
  is_nil-rule_expr =
      let line = line_of r.lines ("expr" ∷ []) in
      is_nil-unless (r.expr == "") _ _
      ∙ ap (λ b. not (r.expr == "") && b)
          (nil_both _ _
            (nil_both _ _ (is_nil-bound_missing line ".From" "{{ .From }}" "lower time bound")
              (is_nil-bound_missing line ".To" "{{ .To }}" "upper time bound"))
            (is_nil-expr_template line (L.parse "expr" r.expr)))

  is_nil-required_key :
      (block noun check key : String) (value : Option String)
      → is_nil (required_key L file policy_for r block noun check key value)
        ≡ (silent check || filled value)
  unfolding required_key
  is_nil-required_key block noun check key none =
      is_nil-add_policy _ check ("required " ∷ noun ∷ " " ∷ L.quote key ∷ " is missing" ∷ [])
      ∙ or_false (silent check)
  is_nil-required_key block noun check key (some value) =
      is_nil-when (value == "") _
      ∙ ap (λ b. b || not (value == ""))
          (is_nil-add_policy _ check ("required " ∷ noun ∷ " " ∷ L.quote key ∷ " is empty" ∷ []))

  is_nil-required_from :
      (block noun check : String) (have : Map String String) (keys : List String)
      → is_nil (required_from L file policy_for r block noun check have keys)
        ≡ every (λ key. silent check || filled (get key have)) keys
  unfolding required_from
  is_nil-required_from block noun check have [] = refl
  is_nil-required_from block noun check have (key ∷ keys) =
      is_nil-append (required_key L file policy_for r block noun check key (get key have)) _
      ∙ rw
          (
            is_nil-required_key block noun check key (get key have),
            is_nil-required_from block noun check have keys,
          )
          refl

  is_nil-runbook_url :
      (value : Option String) → is_nil (runbook_url L file policy_for r value) ≡ sound_runbook value
  unfolding runbook_url
  is_nil-runbook_url none = refl
  is_nil-runbook_url (some raw) =
      is_nil-unless_or (raw == "") (opens L file policy_for (L.parse_url raw)) _
      ∙ ap (λ b. b || raw == "" || opens L file policy_for (L.parse_url raw))
          (is_nil-add_policy _ "annotations/runbook"
            ("runbook_url must be an absolute http or https URL, got " ∷ L.quote raw ∷ []))

  is_nil-bad_template :
      (name : String) (parsed : Result String Node)
      → is_nil (bad_template L file policy_for r name parsed)
        ≡ (silent "annotations/template" || parses parsed)
  unfolding bad_template
  is_nil-bad_template name (ok root) = or_true (silent "annotations/template")
  is_nil-bad_template name (err e) =
      is_nil-add_policy _ "annotations/template"
        ("annotation " ∷ L.quote name ∷ " is not a valid template: " ∷ e ∷ [])
      ∙ or_false (silent "annotations/template")

  is_nil-bad_templates :
      (names : List String)
      → is_nil (bad_templates L file policy_for r names) ≡ every sound_annotation names
  unfolding bad_templates
  is_nil-bad_templates [] = refl
  is_nil-bad_templates (name ∷ names) =
      nil_both _ _ (is_nil-bad_template name _) (is_nil-bad_templates names)

  is_nil-protected_names :
      (names : List String)
      → is_nil (protected_names L file policy_for r names)
        ≡ every (λ name. not (is_reserved name)) names
  unfolding protected_names
  is_nil-protected_names [] = refl
  is_nil-protected_names (name ∷ names) = ground (arith, is_nil-protected_names names)

  is_nil-rule_for :
      (g : Group)
      → is_nil (rule_for L file policy_for g r)
        ≡ (not (has_key r "for") || sound_duration "rule/for" r.for_duration g.interval)
  unfolding rule_for
  is_nil-rule_for g =
      is_nil-optional (not (has_key r "for")) _
      ∙ ap (λ b. not (has_key r "for") || b)
          (is_nil-unless (ltb_ℤ r.for_duration (pos 0)) _ _
            ∙ ap (λ b. not (ltb_ℤ r.for_duration (pos 0)) && b)
                (is_nil-when (is_shorter L file policy_for r.for_duration g.interval) _
                  ∙ ap (λ b. b || not (is_shorter L file policy_for r.for_duration g.interval))
                      (is_nil-add_policy _ "rule/for" (
                        "for ("
                        ∷ L.print_duration r.for_duration
                        ∷ ") is shorter than the group interval ("
                        ∷ L.print_duration g.interval
                        ∷ "), so it rounds up to one interval"
                        ∷ []))))

  is_nil-rule_window :
      (g : Group)
      → is_nil (rule_window L file policy_for g r)
        ≡ sound_duration "rule/window" r.window g.interval
  unfolding rule_window
  is_nil-rule_window g =
      is_nil-unless (ltb_ℤ r.window (pos 0)) _ _
      ∙ ap (λ b. not (ltb_ℤ r.window (pos 0)) && b)
          (is_nil-when (is_shorter L file policy_for r.window g.interval) _
            ∙ ap (λ b. b || not (is_shorter L file policy_for r.window g.interval))
                (is_nil-add_policy _ "rule/window" (
                  "window ("
                  ∷ L.print_duration r.window
                  ∷ ") is shorter than the group interval ("
                  ∷ L.print_duration g.interval
                  ∷ "), so data between evaluations is never examined"
                  ∷ [])))

  is_nil-required_keys :
      (block noun check : String) (have : Map String String)
      → is_nil (required_keys L file policy_for r block noun check have) ≡ sound_block check have
  unfolding required_keys
  is_nil-required_keys block noun check have =
      is_nil-required_from block noun check have (setting_for (policy_for r) check).keys

  is_nil-annotations_runbook :
      is_nil (annotations_runbook L file policy_for r)
      ≡ sound_runbook (get "runbook_url" r.annotations)
  unfolding annotations_runbook
  is_nil-annotations_runbook = is_nil-runbook_url (get "runbook_url" r.annotations)

  is_nil-annotations_template :
      is_nil (annotations_template L file policy_for r)
      ≡ every sound_annotation (sorted_names r.annotations)
  unfolding annotations_template
  is_nil-annotations_template = is_nil-bad_templates (sorted_names r.annotations)

  is_nil-annotations_protected :
      is_nil (annotations_protected L file policy_for r)
      ≡ every (λ name. not (is_reserved name)) (sorted_names r.annotations)
  unfolding annotations_protected
  is_nil-annotations_protected = is_nil-protected_names (sorted_names r.annotations)

  -- The checks of a rule, those of its name apart, find nothing exactly where the rule is sound.
  pub is_nil-rule_checks : (g : Group) → is_nil (rule_checks L file policy_for g r) ≡ sound g
  unfolding rule_checks
  is_nil-rule_checks g =
      let labels = is_nil-required_keys "labels" "label" "labels/required" (effective_labels g r) in
      let annotations =
        is_nil-required_keys "annotations" "annotation" "annotations/required" r.annotations in
      let blocks = nil_both _ _ (nil_both _ _ is_nil-rule_expr labels) annotations in
      let runbook = nil_both _ _ blocks is_nil-annotations_runbook in
      let templates = nil_both _ _ runbook is_nil-annotations_template in
      let protected = nil_both _ _ templates is_nil-annotations_protected in
      nil_both _ _ (nil_both _ _ protected (is_nil-rule_for g)) (is_nil-rule_window g)
