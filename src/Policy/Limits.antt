-- ===== src/Policy/Limits.antt =====
-- internal/policy/checks.go: ceilings and flags read from a key list.
use clickhouse_ruler.Base.{
  ℕ, ◌+◌, ◌-◌, ◌*◌, min, ◌≡◌, refl, ◌∙◌, Bool, true, false, ◌&&◌, ◌||◌, String, List, [], ◌∷◌, ◌++◌,
  Option, none, some, if◌then◌else◌, nat_beq, leb, ltb, ap, sym, subst, max_int64, arith, string_eq,
  ◌==◌, eq_iff, ◌>>=◌, Bool-cases, inl, inr,
}
use clickhouse_ruler.Text.{codes, insert_by, sort_by, sort_strings, str_less}
use clickhouse_ruler.Policy.{contains, distinct, union}

-- strings.Cut(key, ":"), on code points.
unfoldable cut : List ℕ → Option (List ℕ × List ℕ)
cut [] = none
cut (c ∷ cs) =
    let rest = cut cs in
    if nat_beq c 58 then some ([], cs) else elim rest [ none ↦ none | some p ↦ some (c ∷ p.0, p.1) ]

unfoldable same_codes : List ℕ → List ℕ → Bool
same_codes [] [] = true
same_codes [] (d ∷ ds) = false
same_codes (c ∷ cs) [] = false
same_codes (c ∷ cs) (d ∷ ds) = nat_beq c d && same_codes cs ds

-- The digits after those that make up `n`.
unfoldable digits_from : ℕ → List ℕ → Option ℕ
digits_from n [] = some n
digits_from n (c ∷ cs) =
    let rest = digits_from (n * 10 + (c - 48)) cs in if leb 48 c && leb c 57 then rest else none

unfoldable digits : List ℕ → Option ℕ
unfolding digits_from
digits [] = none
digits (c ∷ cs) = digits_from 0 (c ∷ cs)

-- strconv.Atoi, where the value is not negative; a negative one is none here, as an error is, since Limit skips
-- both. `-0` is 0.
unfoldable atoi : List ℕ → Option ℕ
unfolding digits
atoi [] = none
atoi (c ∷ cs) =
    if nat_beq c 45
    then (digits cs >>= λ n. if nat_beq n 0 then some 0 else none)
    else ((if nat_beq c 43 then digits cs else digits (c ∷ cs)) >>= λ n.
        if leb n max_int64 then some n else none)

-- The ceiling that one key of the list is for `name`.
unfoldable pub ceiling_of : String → String → Option ℕ
unfolding cut same_codes atoi codes
ceiling_of name key =
    cut (codes key) >>= λ p. if same_codes p.0 (codes name) then atoi p.1 else none

-- The loop of Limit, on what it has found so far.
unfoldable limit_from : String → List String → Option ℕ → Option ℕ
unfolding ceiling_of
limit_from name [] found = found
limit_from name (key ∷ keys) found = limit_from name keys (elim (ceiling_of name key) [
  | none ↦ found
  | some n ↦ elim found [ none ↦ some n | some out ↦ if ltb n out then some n else some out ]
])

-- Setting.Limit
unfoldable pub limit : String → List String → Option ℕ
unfolding limit_from
limit name keys = limit_from name keys none

-- Setting.Flag
unfoldable pub flag : String → List String → Bool
unfolding contains
flag name keys = contains name keys

-- The lower of two ceilings, where both are set.
abbrev pub lower : Option ℕ → Option ℕ → Option ℕ
lower none o = o
lower (some a) none = some a
lower (some a) (some b) = some (min a b)

lower_assoc : (a b c : Option ℕ) → lower (lower a b) c ≡ lower a (lower b c)
lower_assoc none b c = refl
lower_assoc (some a) none c = refl
lower_assoc (some a) (some b) none = refl
lower_assoc (some a) (some b) (some c) = ap some (omega arith)

lower_comm : (a b : Option ℕ) → lower a b ≡ lower b a
lower_comm none none = refl
lower_comm none (some b) = refl
lower_comm (some a) none = refl
lower_comm (some a) (some b) = ap some (omega arith)

lower_self : (a : Option ℕ) → lower a a ≡ a
lower_self none = refl
lower_self (some a) = ap some (omega arith)

lower_swap : (y x r : Option ℕ) → lower y (lower x r) ≡ lower x (lower y r)
lower_swap y x r =
    sym (lower_assoc y x r) ∙ ap (λ o. lower o r) (lower_comm y x) ∙ lower_assoc x y r

-- The reference: the lowest of the ceilings that the keys give.
abbrev pub lowest : String → List String → Option ℕ
lowest name [] = none
lowest name (key ∷ keys) = lower (ceiling_of name key) (lowest name keys)

keep_lower :
    (o found : Option ℕ)
    → elim o [
      | none ↦ found
      | some n ↦ elim found [ none ↦ some n | some out ↦ if ltb n out then some n else some out ]
    ]
      ≡ lower found o
keep_lower none none = refl
keep_lower none (some a) = refl
keep_lower (some n) none = refl
keep_lower (some n) (some out) = ground arith

limit_from-lowest :
    (name : String) (keys : List String) (found : Option ℕ)
    → limit_from name keys found ≡ lower found (lowest name keys)
unfolding limit_from
limit_from-lowest name [] none = refl
limit_from-lowest name [] (some a) = refl
limit_from-lowest name (key ∷ keys) found =
    limit_from-lowest name keys _
    ∙ ap (λ o. lower o (lowest name keys)) (keep_lower (ceiling_of name key) found)
    ∙ lower_assoc found (ceiling_of name key) (lowest name keys)

limit-lowest : (name : String) (keys : List String) → limit name keys ≡ lowest name keys
unfolding limit
limit-lowest name keys = limit_from-lowest name keys none

lowest-append :
    (name : String) (a b : List String)
    → lowest name (a ++ b) ≡ lower (lowest name a) (lowest name b)
lowest-append name [] b = refl
lowest-append name (k ∷ a) b =
    ap (lower (ceiling_of name k)) (lowest-append name a b)
    ∙ sym (lower_assoc (ceiling_of name k) (lowest name a) (lowest name b))

lowest-insert_by :
    (name k : String) (less : String → String → Bool) (keys : List String)
    → lowest name (insert_by less k keys) ≡ lower (ceiling_of name k) (lowest name keys)
unfolding insert_by
lowest-insert_by name k less [] = refl
lowest-insert_by name k less (j ∷ keys) = elim (Bool-cases (less j k)) [
  | inl e ↦
      rw (insert_by, e)
        (ap (lower (ceiling_of name j)) (lowest-insert_by name k less keys)
          ∙ lower_swap (ceiling_of name j) (ceiling_of name k) (lowest name keys))
  | inr e ↦ rw (insert_by, e) refl
]

lowest-sort_by :
    (name : String) (less : String → String → Bool) (keys : List String)
    → lowest name (sort_by less keys) ≡ lowest name keys
unfolding sort_by
lowest-sort_by name less [] = refl
lowest-sort_by name less (k ∷ keys) =
    lowest-insert_by name k less (sort_by less keys)
    ∙ ap (lower (ceiling_of name k)) (lowest-sort_by name less keys)

lowest-contains :
    (name k : String) (keys : List String)
    → contains k keys ≡ true
    → lower (ceiling_of name k) (lowest name keys) ≡ lowest name keys
unfolding contains
lowest-contains name k [] h = ground arith
lowest-contains name k (j ∷ keys) h =
    let x = ceiling_of name k in
    let y = ceiling_of name j in
    let r = lowest name keys in
    elim (Bool-cases (k == j)) [
      | inl e ↦
          subst (λ i. lower x (lower (ceiling_of name i) r) ≡ lower (ceiling_of name i) r)
            ((eq_iff k j).0 e) (sym (lower_assoc x x r) ∙ ap (λ o. lower o r) (lower_self x))
      | inr e ↦
          lower_swap x y r
          ∙ ap (lower y) (lowest-contains name k keys (sym (ap (λ t. t || contains k keys) e) ∙ h))
    ]

lowest-distinct :
    (name : String) (keys : List String) → lowest name (distinct keys) ≡ lowest name keys
unfolding distinct
lowest-distinct name [] = refl
lowest-distinct name (k ∷ keys) = elim (Bool-cases (contains k keys)) [
  | inl e ↦ rw (distinct, e) (lowest-distinct name keys ∙ sym (lowest-contains name k keys e))
  | inr e ↦ rw (distinct, e) (ap (lower (ceiling_of name k)) (lowest-distinct name keys))
]

-- A merge of two key lists binds at the lower ceiling: a ceiling of the union of two lists is set where one of the
-- lists sets it, and is the lower one where both do.
pub limit-union :
    (name : String) (a b : List String)
    → limit name (union a b) ≡ lower (limit name a) (limit name b)
unfolding union sort_strings
limit-union name a [] =
    limit-lowest name a
    ∙ sym (
        ap (λ o. lower o (limit name [])) (limit-lowest name a)
        ∙ ap (lower (lowest name a)) (limit-lowest name [])
        ∙ lower_comm (lowest name a) none)
limit-union name a (k ∷ ks) =
    let b = k ∷ ks in
    rw (limit-lowest, limit-lowest name a, limit-lowest name b)
      (lowest-sort_by name str_less (distinct (a ++ b))
        ∙ lowest-distinct name (a ++ b)
        ∙ lowest-append name a b)
