-- ===== src/Query/KeySample/OneKey.antt =====
-- internal/query/sample.go: what resolveKeys makes of one key of a rule.
use clickhouse_ruler.Base.{
  ◌≡◌, ◌⊎◌, refl, sym, ◌∙◌, ap, true, false, String, List, [], ◌∷◌, ◌++◌, Option, none, some,
  if◌then◌else◌, string_eq, Bool-cases, inl, inr,
}
use clickhouse_ruler.Query.{Column}
use clickhouse_ruler.Query.KeySample.{
  MapKey, MapKeySkip, is_map_type, types_of, column_of, resolve_one, skip_numeric_key,
  skip_other_table, skip_not_a_map,
}
use clickhouse_ruler.Query.KeySample.Columns.{
  MapTyped, HasColumn, NoColumn, is_map_type_iff, column_of_iff, column_of-none, no_column,
}

abbrev pub In : {A : Type 0} → A → List A → Type 0
In x [] = ⊥
In x (y ∷ ys) = (x ≡ y) ⊎ In x ys

-- A key that is asked for, for one of the rule.
abbrev pub AskedFor : List Column → MapKey → MapKey → Type 0
AskedFor table k j =
    (k.numeric ≡ false)
    × ((j ≡ record { column = j.column; key = k.key; numeric = false })
        × ((typ : String) × (HasColumn table k.column j.column typ × MapTyped typ)))

-- A key that is reported as skipped, for one of the rule, and why.
abbrev pub SkippedFor : List Column → MapKey → MapKeySkip → Type 0
SkippedFor table k s =
    ((k.numeric ≡ true)
      × ((s.reason ≡ skip_numeric_key)
          × ((typ : String) × (HasColumn table k.column s.column typ × MapTyped typ))))
    ⊎ (((k.numeric ≡ false)
          × ((s ≡ record { column = k.column; reason = skip_other_table })
              × NoColumn table k.column))
        ⊎ ((k.numeric ≡ false)
            × ((s.reason ≡ skip_not_a_map)
                × ((typ : String) × (HasColumn table k.column s.column typ × (¬ MapTyped typ))))))

-- What one key adds to the two lists.
abbrev pub asked_one : MapKey → String × Option String → List MapKey
asked_one k (name, none) = []
asked_one k (name, some t) =
    if k.numeric then [] else if is_map_type t then record k { column = name } ∷ [] else []

abbrev pub skipped_one : MapKey → String × Option String → List MapKeySkip
skipped_one k (name, none) =
    if k.numeric then [] else record { column = name; reason = skip_other_table } ∷ []
skipped_one k (name, some t) =
    if k.numeric
    then (if is_map_type t then record { column = name; reason = skip_numeric_key } ∷ [] else [])
    else if is_map_type t
    then []
    else record { column = name; reason = skip_not_a_map } ∷ []

pub resolve_one_lem :
    (k : MapKey) (column : String × Option String) (r : List MapKey × List MapKeySkip)
    → resolve_one k column r ≡ (asked_one k column ++ r.0, skipped_one k column ++ r.1)
unfolding resolve_one
resolve_one_lem k (name, none) (out, skipped) = elim (Bool-cases k.numeric) [
  | inl n ↦ rw (resolve_one, n) refl
  | inr n ↦ rw (resolve_one, n) refl
]
resolve_one_lem k (name, some t) (out, skipped) = elim (Bool-cases k.numeric) [
  | inl n ↦ elim (Bool-cases (is_map_type t)) [
    | inl m ↦ rw (resolve_one, n, m) refl
    | inr m ↦ rw (resolve_one, n, m) refl
  ]
  | inr n ↦ elim (Bool-cases (is_map_type t)) [
    | inl m ↦ rw (resolve_one, n, m) refl
    | inr m ↦ rw (resolve_one, n, m) refl
  ]
]

true-false : (true ≡ false) → ⊥
true-false h = cc

module _ (table : List Column) (k : MapKey) where
  abbrev pub found : String × Option String
  found = column_of k.column (types_of table [])

  pub asked_one-to :
      (j : MapKey) (q : String × Option String)
      → found ≡ q
      → In j (asked_one k q)
      → AskedFor table k j
  asked_one-to j (name, none) q h = absurd h
  asked_one-to j (name, some t) q h = elim (Bool-cases k.numeric) [
    | inl n ↦ absurd (rw n at h)
    | inr n ↦ elim (Bool-cases (is_map_type t)) [
      | inr m ↦ absurd (rw (n, m) at h)
      | inl m ↦
          let h' : (j ≡ record { column = name; key = k.key; numeric = false }) ⊎ ⊥ =
            rw (n, m) at h in
          elim h' [
            | inr z ↦ absurd z
            | inl e ↦
                let c : j.column ≡ name = ap (λ r. r.column) e in
                (
                  n,
                  (
                    e ∙ ap (λ d. record { column = d; key = k.key; numeric = false }) (sym c),
                    (
                      t,
                      (
                        (column_of_iff table k.column j.column t).0 (rw c q),
                        (is_map_type_iff t).0 m,
                      ),
                    ),
                  ),
                )
          ]
    ]
  ]

  pub asked_one-from : (j : MapKey) → AskedFor table k j → In j (asked_one k found)
  asked_one-from j (n, (e, (typ, (column, m)))) =
      rw ((column_of_iff table k.column j.column typ).1 column, n, (is_map_type_iff typ).1 m)
        (inl e)

  named :
      (s : MapKeySkip) (name reason : String)
      → s ≡ record { column = name; reason = reason }
      → (s.column ≡ name) × (s.reason ≡ reason)
  named s name reason e = (ap (λ r. r.column) e, ap (λ r. r.reason) e)

  pub skipped_one-to :
      (s : MapKeySkip) (q : String × Option String)
      → found ≡ q
      → In s (skipped_one k q)
      → SkippedFor table k s
  skipped_one-to s (name, none) q h = elim (Bool-cases k.numeric) [
    | inl n ↦ absurd (rw n at h)
    | inr n ↦
        let h' : (s ≡ record { column = name; reason = skip_other_table }) ⊎ ⊥ = rw n at h in
        let (absent, c) = no_column table k.column name q in
        elim h' [ inr z ↦ absurd z | inl e ↦ inr (inl (n, (rw (sym c) e, absent))) ]
  ]
  skipped_one-to s (name, some t) q h = elim (Bool-cases k.numeric) [
    | inl n ↦ elim (Bool-cases (is_map_type t)) [
      | inr m ↦ absurd (rw (n, m) at h)
      | inl m ↦
          let h' : (s ≡ record { column = name; reason = skip_numeric_key }) ⊎ ⊥ = rw (n, m) at h in
          elim h' [
            | inr z ↦ absurd z
            | inl e ↦
                let (c, r) = named s name skip_numeric_key e in
                inl (
                  n,
                  (
                    r,
                    (
                      t,
                      (
                        (column_of_iff table k.column s.column t).0 (rw c q),
                        (is_map_type_iff t).0 m,
                      ),
                    ),
                  ),
                )
          ]
    ]
    | inr n ↦ elim (Bool-cases (is_map_type t)) [
      | inl m ↦ absurd (rw (n, m) at h)
      | inr m ↦
          let h' : (s ≡ record { column = name; reason = skip_not_a_map }) ⊎ ⊥ = rw (n, m) at h in
          elim h' [
            | inr z ↦ absurd z
            | inl e ↦
                let (c, r) = named s name skip_not_a_map e in
                inr (
                  inr (
                    n,
                    (
                      r,
                      (
                        t,
                        (
                          (column_of_iff table k.column s.column t).0 (rw c q),
                          λ typed. true-false (sym ((is_map_type_iff t).1 typed) ∙ m),
                        ),
                      ),
                    ),
                  ))
          ]
    ]
  ]

  pub skipped_one-from : (s : MapKeySkip) → SkippedFor table k s → In s (skipped_one k found)
  skipped_one-from s (inl (n, (r, (typ, (column, m))))) =
      rw ((column_of_iff table k.column s.column typ).1 column, n, (is_map_type_iff typ).1 m)
        (inl (ap (λ x. record { column = s.column; reason = x }) r))
  skipped_one-from s (inr (inl (n, (e, absent)))) =
      rw (column_of-none table k.column absent, n) (inl e)
  skipped_one-from s (inr (inr (n, (r, (typ, (column, m)))))) =
      elim (Bool-cases (is_map_type typ)) [
        | inl t ↦ absurd (m ((is_map_type_iff typ).0 t))
        | inr f ↦
            rw ((column_of_iff table k.column s.column typ).1 column, n, f)
              (inl (ap (λ x. record { column = s.column; reason = x }) r))
      ]
