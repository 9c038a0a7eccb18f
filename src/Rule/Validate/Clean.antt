-- ===== src/Rule/Validate/Clean.antt =====
-- internal/rule/validate.go: which files Validate has no finding about.
use clickhouse_ruler.Base.{
  ℕ, ◌≡◌, refl, sym, ◌∙◌, ap, Bool, true, false, ◌&&◌, not, String, List, [], ◌∷◌, Option,
  string_eq, ◌==◌, eq_iff, arith, Option-cases, Bool-cases, inl, inr, is_nil, is_some,
}
use clickhouse_ruler.GoMap.{Map, get, put}
use clickhouse_ruler.GoMap.Laws.{get-put}
use clickhouse_ruler.Lint.{line_of}
use clickhouse_ruler.Policy.{Policy}
use clickhouse_ruler.Rule.{Rule, Group, RuleFile}
use clickhouse_ruler.Rule.Checks.{Library}
use clickhouse_ruler.Rule.Checks.Clean.{nil_both, sound, is_nil-rule_checks}
use clickhouse_ruler.Rule.Validate.{
  group_name, rule_name, group_rules, validate_groups, or_defaults, validate,
}

-- A name that is not empty and is none of the others.
abbrev pub is_new : String → List String → Bool
is_new name [] = not (name == "")
is_new name (x ∷ xs) = not (x == name) && is_new name xs

dead : (s x y : Bool) {a b : Bool} → a ≡ false → b ≡ a → (a && s && x) ≡ (b && s && y)
dead s x y p q = ap (λ z. z && s && x) p ∙ sym (ap (λ z. z && s && y) (q ∙ p))

module _ (L : Library) (file : String) (policy_for : Rule → Option Policy) where
  -- The rules of a group, after rules of the names `before`: each name is new, and each rule is sound.
  abbrev pub sound_rules : Group → List String → List Rule → Bool
  sound_rules g before [] = true
  sound_rules g before (r ∷ rules) =
      is_new r.alert before && sound L file policy_for r g && sound_rules g (r.alert ∷ before) rules

  abbrev pub sound_groups : List String → List Group → Bool
  sound_groups before [] = true
  sound_groups before (g ∷ groups) =
      is_new g.name before && sound_rules g [] g.rules && sound_groups (g.name ∷ before) groups

  -- The map of the names so far holds the names of a list.
  abbrev Holds : Map String ℕ → List String → Type 0
  Holds m names =
      (name : String) → is_new name names ≡ (not (name == "") && not (is_some (get name m)))

  Holds-put :
      (m : Map String ℕ) (names : List String) (k : String) (v : ℕ)
      → Holds m names
      → Holds (put k v m) (k ∷ names)
  Holds-put m names k v h name =
      ground (arith, h name, get-put name k v m, eq_iff name k, eq_iff k name)

  -- A name that the map allows.
  abbrev allowed : String → Map String ℕ → Bool
  allowed name m = not (name == "") && not (is_some (get name m))

  is_nil-rule_name :
      (g : Group) (r : Rule) (m : Map String ℕ)
      → is_nil (rule_name L file policy_for g r m).0 ≡ allowed r.alert m
  unfolding rule_name
  is_nil-rule_name g r m = elim (Bool-cases (r.alert == "")) [
    | inl e ↦ rw (rule_name, e) refl
    | inr e ↦ elim (Option-cases (get r.alert m)) [
      | inl n ↦ rw (rule_name, e, n) refl
      | inr (v, n) ↦ rw (rule_name, e, n) refl
    ]
  ]

  rule_name-put :
      (g : Group) (r : Rule) (m : Map String ℕ)
      → allowed r.alert m ≡ true
      → (rule_name L file policy_for g r m).1 ≡ put r.alert (line_of r.lines ("alert" ∷ [])) m
  unfolding rule_name
  rule_name-put g r m h = elim (Bool-cases (r.alert == "")) [
    | inl e ↦ ground (arith, e, h)
    | inr e ↦ elim (Option-cases (get r.alert m)) [
      | inl n ↦ rw (rule_name, e, n) refl
      | inr (v, n) ↦ ground (arith, e, n, h)
    ]
  ]

  is_nil-group_rules :
      (g : Group) (rules : List Rule) (m : Map String ℕ) (names : List String)
      → Holds m names
      → is_nil (group_rules L file policy_for g rules m) ≡ sound_rules g names rules
  unfolding group_rules
  is_nil-group_rules g [] m names h = refl
  is_nil-group_rules g (r ∷ rules) m names h =
      let line = line_of r.lines ("alert" ∷ []) in
      let named =
        nil_both _ _ (is_nil-rule_name g r m) (is_nil-rule_checks L file policy_for r g) in
      elim (Bool-cases (allowed r.alert m)) [
        | inl e ↦
            nil_both _ _ named (
              ap (λ at. is_nil (group_rules L file policy_for g rules at)) (rule_name-put g r m e)
              ∙ is_nil-group_rules g rules (put r.alert line m) (r.alert ∷ names)
                  (Holds-put m names r.alert line h))
            ∙ ap (λ b. (b && sound L file policy_for r g) && sound_rules g (r.alert ∷ names) rules)
                (sym (h r.alert))
        | inr e ↦ nil_both _ _ named refl ∙ dead _ _ _ e (h r.alert)
      ]

  is_nil-group_name :
      (g : Group) (m : Map String ℕ)
      → is_nil (group_name L file policy_for g m).0 ≡ allowed g.name m
  unfolding group_name
  is_nil-group_name g m = elim (Bool-cases (g.name == "")) [
    | inl e ↦ rw (group_name, e) refl
    | inr e ↦ elim (Option-cases (get g.name m)) [
      | inl n ↦ rw (group_name, e, n) refl
      | inr (v, n) ↦ rw (group_name, e, n) refl
    ]
  ]

  group_name-put :
      (g : Group) (m : Map String ℕ)
      → allowed g.name m ≡ true
      → (group_name L file policy_for g m).1 ≡ put g.name (line_of g.lines ("name" ∷ [])) m
  unfolding group_name
  group_name-put g m h = elim (Bool-cases (g.name == "")) [
    | inl e ↦ ground (arith, e, h)
    | inr e ↦ elim (Option-cases (get g.name m)) [
      | inl n ↦ rw (group_name, e, n) refl
      | inr (v, n) ↦ ground (arith, e, n, h)
    ]
  ]

  Holds-nil : Holds [] []
  unfolding get
  Holds-nil name = ground arith

  is_nil-validate_groups :
      (groups : List Group) (m : Map String ℕ) (names : List String)
      → Holds m names
      → is_nil (validate_groups L file policy_for groups m) ≡ sound_groups names groups
  unfolding validate_groups
  is_nil-validate_groups [] m names h = refl
  is_nil-validate_groups (g ∷ groups) m names h =
      let line = line_of g.lines ("name" ∷ []) in
      let named =
        nil_both _ _ (is_nil-group_name g m) (is_nil-group_rules g g.rules [] [] Holds-nil) in
      elim (Bool-cases (allowed g.name m)) [
        | inl e ↦
            nil_both _ _ named (
              ap (λ at. is_nil (validate_groups L file policy_for groups at)) (group_name-put g m e)
              ∙ is_nil-validate_groups groups (put g.name line m) (g.name ∷ names)
                  (Holds-put m names g.name line h))
            ∙ ap (λ b. (b && sound_rules g [] g.rules) && sound_groups (g.name ∷ names) groups)
                (sym (h g.name))
        | inr e ↦ nil_both _ _ named refl ∙ dead _ _ _ e (h g.name)
      ]

-- Validate finds nothing exactly in a file whose groups have distinct names that are not empty, and the rules of each group
-- too, and whose every rule is sound: its expression parses, uses both time bounds and reads only what
-- the ruler supplies; its annotations have no reserved name; its window, and `for` where given, are not
-- negative; and unless the policy turns the check off, it has each required label and annotation,
-- its runbook opens, its annotations parse, and neither duration is shorter than the interval.
pub is_nil-validate :
    (L : Library) (f : RuleFile) (policy_for : Option (Rule → Option Policy))
    → is_nil (validate L f policy_for) ≡ sound_groups L f.file (or_defaults policy_for) [] f.groups
unfolding validate
is_nil-validate L f policy_for =
    is_nil-validate_groups L f.file (or_defaults policy_for) f.groups [] []
      (Holds-nil L f.file (or_defaults policy_for))
