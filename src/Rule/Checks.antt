-- ===== src/Rule/Checks.antt =====
-- internal/rule/validate.go: the checks of one rule. What parses a template or a URL, and the formatting of quoted
-- text and durations, is Go's library and a parameter; NewProblem's panics on a check outside the table
-- are left out.
pub mod Clean
use clickhouse_ruler.Base.{
  ℕ, Bool, false, ◌&&◌, ◌||◌, not, String, List, [], ◌∷◌, ◌++◌, Option, none, some, Result, ok, err,
  if◌then◌else◌, string_eq, ◌==◌, Duration, pos, ltb_ℤ, is_some,
}
use clickhouse_ruler.GoMap.{Map, get}
use clickhouse_ruler.Text.{concat, codes, has_prefix, sort_strings}
use clickhouse_ruler.Lint.{error, is_off, Problem, line_of}
use clickhouse_ruler.Policy.{Policy, setting_for}
use clickhouse_ruler.Alert.Annotate.{keys_of}
use clickhouse_ruler.Rule.{Rule, Group, effective_labels}
use clickhouse_ruler.Rule.Expr.{uses_bound, expr_vars, expr_var_list}
use clickhouse_ruler.Rule.Template.{Node, template_fields, contains}

abbrev pub reserved_annotation_prefix : String
reserved_annotation_prefix = "ruler_"

unfoldable pub sorted_names : Map String String → List String
unfolding keys_of sort_strings
sorted_names block = sort_strings (keys_of block)

-- Rule.has
unfoldable pub has_key : Rule → String → Bool
unfolding get
has_key r key = is_some (get key r.lines.keys)

-- text/template's Parse, url.Parse with the scheme and the host of what it returns, `%q`, and
-- Duration's String.
pub record Library : Type 0 where
  pub parse : String → String → Result String Node
  pub parse_url : String → Option (String × String)
  pub quote : String → String
  pub print_duration : Duration → String

module _ (L : Library) (file : String) (policy_for : Rule → Option Policy) where
  -- validator.add
  unfoldable pub add : Rule → ℕ → String → List String → Problem
  unfolding concat
  add r line check text = record {
    file = file;
    line = line;
    subject = r.alert;
    check = check;
    severity = error;
    text = concat text;
    policy_file = "";
    policy_line = 0;
  }

  -- validator.addPolicy
  unfoldable pub add_policy : Rule → ℕ → String → List String → List Problem
  unfolding setting_for concat
  add_policy r line check text =
      let setting = setting_for (policy_for r) check in
      let p : Problem = record {
        file = file;
        line = line;
        subject = r.alert;
        check = check;
        severity = setting.severity;
        text = concat text;
        policy_file = setting.file;
        policy_line = setting.line;
      } in
      if is_off setting.severity then [] else p ∷ []

  unfoldable pub bound_missing : Rule → ℕ → String → String → String → List Problem
  unfolding uses_bound add
  bound_missing r line field name reason =
      if uses_bound field r.expr
      then []
      else add r line "rule/expr"
          ("expr does not reference " ∷ name ∷ ", so the query has no " ∷ reason ∷ [])
        ∷ []

  unfoldable pub unknown_fields : Rule → ℕ → List String → List Problem
  unfolding contains add
  unknown_fields r line [] = []
  unknown_fields r line (field ∷ fields) =
      let rest = unknown_fields r line fields in
      if contains field expr_vars
      then rest
      else add r line "rule/expr" (
          "expr reads {{ ." ∷ field ∷ " }}, which the ruler does not supply; it supplies "
          ∷ expr_var_list ∷ [])
        ∷ rest

  -- What the template of the expression adds.
  unfoldable pub expr_template : Rule → ℕ → Result String Node → List Problem
  unfolding unknown_fields template_fields add
  expr_template r line (err e) =
      add r line "rule/expr" ("expr is not a valid template: " ∷ e ∷ []) ∷ []
  expr_template r line (ok root) = unknown_fields r line (template_fields root)

  unfoldable pub rule_expr : Rule → List Problem
  unfolding line_of bound_missing expr_template add
  rule_expr r =
      let line = line_of r.lines ("expr" ∷ []) in
      if r.expr == ""
      then add r line "rule/expr" ("expr is empty" ∷ []) ∷ []
      else bound_missing r line ".From" "{{ .From }}" "lower time bound"
        ++ bound_missing r line ".To" "{{ .To }}" "upper time bound"
        ++ expr_template r line (L.parse "expr" r.expr)

  -- One key of requiredKeys.
  unfoldable pub required_key :
      Rule → String → String → String → String → Option String → List Problem
  unfolding line_of add_policy concat
  required_key r block noun check key none =
      add_policy r (line_of r.lines (concat (block ∷ "." ∷ key ∷ []) ∷ block ∷ [])) check
        ("required " ∷ noun ∷ " " ∷ L.quote key ∷ " is missing" ∷ [])
  required_key r block noun check key (some value) =
      let p =
        add_policy r (line_of r.lines (concat (block ∷ "." ∷ key ∷ []) ∷ block ∷ [])) check
          ("required " ∷ noun ∷ " " ∷ L.quote key ∷ " is empty" ∷ []) in
      if value == "" then p else []

  unfoldable pub required_from :
      Rule → String → String → String → Map String String → List String → List Problem
  unfolding required_key get
  required_from r block noun check have [] = []
  required_from r block noun check have (key ∷ keys) =
      required_key r block noun check key (get key have)
      ++ required_from r block noun check have keys

  unfoldable pub required_keys : Rule → String → String → String → Map String String → List Problem
  unfolding setting_for required_from
  required_keys r block noun check have =
      required_from r block noun check have (setting_for (policy_for r) check).keys

  -- What annotationsRunbook asks of a URL.
  abbrev pub opens : Option (String × String) → Bool
  opens none = false
  opens (some (scheme, host)) = (scheme == "http" || scheme == "https") && not (host == "")

  unfoldable pub runbook_url : Rule → Option String → List Problem
  unfolding line_of add_policy
  runbook_url r none = []
  runbook_url r (some raw) =
      let p =
        add_policy r (line_of r.lines ("annotations.runbook_url" ∷ "annotations" ∷ []))
          "annotations/runbook"
          ("runbook_url must be an absolute http or https URL, got " ∷ L.quote raw ∷ []) in
      if raw == "" || opens (L.parse_url raw) then [] else p

  unfoldable pub annotations_runbook : Rule → List Problem
  unfolding get runbook_url
  annotations_runbook r = runbook_url r (get "runbook_url" r.annotations)

  unfoldable pub bad_template : Rule → String → Result String Node → List Problem
  unfolding line_of add_policy concat
  bad_template r name (ok root) = []
  bad_template r name (err e) =
      add_policy r (line_of r.lines (concat ("annotations." ∷ name ∷ []) ∷ "annotations" ∷ []))
        "annotations/template"
        ("annotation " ∷ L.quote name ∷ " is not a valid template: " ∷ e ∷ [])

  unfoldable pub annotation_text : Rule → String → String
  unfolding get
  annotation_text r name = elim (get name r.annotations) [ none ↦ "" | some text ↦ text ]

  unfoldable pub bad_templates : Rule → List String → List Problem
  unfolding bad_template annotation_text
  bad_templates r [] = []
  bad_templates r (name ∷ names) =
      bad_template r name (L.parse name (annotation_text r name)) ++ bad_templates r names

  unfoldable pub annotations_template : Rule → List Problem
  unfolding bad_templates sorted_names
  annotations_template r = bad_templates r (sorted_names r.annotations)

  unfoldable pub protected_names : Rule → List String → List Problem
  unfolding has_prefix codes line_of add concat
  protected_names r [] = []
  protected_names r (name ∷ names) =
      let rest = protected_names r names in
      if not (has_prefix (codes name) (codes reserved_annotation_prefix))
      then rest
      else add r (line_of r.lines (concat ("annotations." ∷ name ∷ []) ∷ "annotations" ∷ []))
          "annotations/protected"
          ("annotation "
            ∷ L.quote name
            ∷ " uses the reserved prefix "
            ∷ L.quote reserved_annotation_prefix
            ∷ ", which the ruler writes and would overwrite"
            ∷ [])
        ∷ rest

  unfoldable pub annotations_protected : Rule → List Problem
  unfolding protected_names sorted_names
  annotations_protected r = protected_names r (sorted_names r.annotations)

  -- Shorter than the interval of the group, where both are given.
  abbrev pub is_shorter : Duration → Duration → Bool
  is_shorter d interval = ltb_ℤ (pos 0) d && ltb_ℤ (pos 0) interval && ltb_ℤ d interval

  unfoldable pub rule_for : Group → Rule → List Problem
  unfolding has_key line_of add add_policy
  rule_for g r =
      let line = line_of r.lines ("for" ∷ []) in
      if not (has_key r "for")
      then []
      else if ltb_ℤ r.for_duration (pos 0)
      then add r line "rule/for"
          ("for must not be negative, got " ∷ L.print_duration r.for_duration ∷ [])
        ∷ []
      else if is_shorter r.for_duration g.interval
      then add_policy r line "rule/for" (
          "for ("
          ∷ L.print_duration r.for_duration
          ∷ ") is shorter than the group interval ("
          ∷ L.print_duration g.interval
          ∷ "), so it rounds up to one interval"
          ∷ [])
      else []

  unfoldable pub rule_window : Group → Rule → List Problem
  unfolding line_of add add_policy
  rule_window g r =
      let line = line_of r.lines ("window" ∷ []) in
      if ltb_ℤ r.window (pos 0)
      then add r line "rule/window"
          ("window must not be negative, got " ∷ L.print_duration r.window ∷ [])
        ∷ []
      else if is_shorter r.window g.interval
      then add_policy r line "rule/window" (
          "window ("
          ∷ L.print_duration r.window
          ∷ ") is shorter than the group interval ("
          ∷ L.print_duration g.interval
          ∷ "), so data between evaluations is never examined"
          ∷ [])
      else []

  -- The checks of a rule that follow on its name.
  unfoldable pub rule_checks : Group → Rule → List Problem
  unfolding rule_expr required_keys annotations_runbook annotations_template annotations_protected
      rule_for rule_window effective_labels
  rule_checks g r =
      rule_expr r
      ++ required_keys r "labels" "label" "labels/required" (effective_labels g r)
      ++ required_keys r "annotations" "annotation" "annotations/required" r.annotations
      ++ annotations_runbook r
      ++ annotations_template r
      ++ annotations_protected r
      ++ rule_for g r
      ++ rule_window g r
