-- ===== src/Query/Shape/Agree.antt =====
-- internal/query/shape.go: two results differ exactly where a column's name or type does.
use clickhouse_ruler.Base.{
  ◌≡◌, refl, ap, sym, ◌∙◌, ◌↔◌, inl, inr, String, List, [], ◌∷◌, ◌++◌, Option, none, some,
  string_eq, ◌==◌, eq_iff, All, arith, Bool-cases, Option-cases,
}
use clickhouse_ruler.GoMap.{Map, get, put, put_all, WellKeyed}
use clickhouse_ruler.GoMap.Laws.{get-put, get-put_all, put-WellKeyed, or_else}
use clickhouse_ruler.Text.{str_less, insert_by, sort_by, sort_strings}
use clickhouse_ruler.Alert.Annotate.{keys_of}
use clickhouse_ruler.Query.{Column, last_type}
use clickhouse_ruler.Query.Shape.{
  types_from, types_by_name, column_names, difference_at, differences_over, differences,
}

All-of_insert_by :
    (P : String → Type 0) (x : String) (xs : List String)
    → All P (insert_by str_less x xs)
    → P x × All P xs
unfolding insert_by
All-of_insert_by P x [] h = h
All-of_insert_by P x (y ∷ ys) h = elim (Bool-cases (str_less y x)) [
  | inl e ↦
      let h' : P y × All P (insert_by str_less x ys) = rw (e, insert_by) at h in
      let (hx, hs) = All-of_insert_by P x ys h'.1 in (hx, (h'.0, hs))
  | inr e ↦ rw (e, insert_by) at h
]

All-of_sort : (P : String → Type 0) (xs : List String) → All P (sort_by str_less xs) → All P xs
unfolding sort_by
All-of_sort P [] h = tt
All-of_sort P (x ∷ xs) h =
    let (hx, hs) = All-of_insert_by P x (sort_by str_less xs) h in (hx, All-of_sort P xs hs)

All-at_key :
    {V : Type 0} (P : String → Type 0) (k : String) (v : V) (m : Map String V)
    → All P (keys_of m)
    → get k m ≡ some v
    → P k
unfolding keys_of get
All-at_key P k v [] h e = cc
All-at_key P k v ((j, w) ∷ m) h e = elim (Bool-cases (k == j)) [
  | inl same ↦ rw ((eq_iff k j).0 same) h.0
  | inr other ↦ All-at_key P k v m h.1 (ground arith)
]

difference_at-eq-nil :
    (a_name b_name name : String) (t u : Option String)
    → (difference_at a_name b_name name t u ≡ []) ↔ (t ≡ u)
unfolding difference_at
difference_at-eq-nil a_name b_name name none none = (λ h. refl, λ h. refl)
difference_at-eq-nil a_name b_name name (some t) none = (λ h. cc, λ h. cc)
difference_at-eq-nil a_name b_name name none (some u) = (λ h. cc, λ h. cc)
difference_at-eq-nil a_name b_name name (some t) (some u) = ground (arith, eq_iff t u)

append-eq-nil : (xs ys : List String) → xs ++ ys ≡ [] → (xs ≡ []) × (ys ≡ [])
append-eq-nil [] ys h = (refl, h)
append-eq-nil (x ∷ xs) ys h = cc

differences_over-eq-nil :
    (a b : Map String String) (a_name b_name : String) (names : List String)
    → (differences_over a b a_name b_name names ≡ []) ↔ All (λ k. get k a ≡ get k b) names
unfolding differences_over
differences_over-eq-nil a b a_name b_name [] = (λ h. tt, λ h. refl)
differences_over-eq-nil a b a_name b_name (k ∷ ks) =
    let (to, from) = difference_at-eq-nil a_name b_name k (get k a) (get k b) in
    let (to', from') = differences_over-eq-nil a b a_name b_name ks in
    (
      λ h. let (head, tail) = append-eq-nil _ _ h in (to head, to' tail),
      λ h. rw (from h.0, from' h.1) refl,
    )

types_from-WellKeyed :
    (out : Map String String) (cols : List Column) → WellKeyed out → WellKeyed (types_from out cols)
unfolding types_from
types_from-WellKeyed out [] h = h
types_from-WellKeyed out (c ∷ cols) h =
    types_from-WellKeyed (put c.name c.typ out) cols (put-WellKeyed c.name c.typ out h)

-- The names of both results, where the two maps hold different things.
names_cover :
    (P : String → Type 0) (a b : Map String String)
    → WellKeyed a
    → WellKeyed b
    → ((k : String) → get k a ≡ none → get k b ≡ none → P k)
    → All P (column_names a b)
    → (k : String) → P k
unfolding column_names sort_strings
names_cover P a b wa wb absent h k =
    let m = put_all (put_all [] a) b in
    let seen : get k m ≡ or_else (get k b) (or_else (get k a) (get k [])) =
      get-put_all k (put_all [] a) b wb ∙ ap (or_else (get k b)) (get-put_all k [] a wa) in
    elim (Option-cases (get k m)) [
      | inl e ↦ absent k (ground arith) (ground arith)
      | inr (v, e) ↦ All-at_key P k v m (All-of_sort P (keys_of m) h) e
    ]

types_by_name-WellKeyed : (cols : List Column) → WellKeyed (types_by_name cols)
unfolding types_by_name
types_by_name-WellKeyed cols = types_from-WellKeyed [] cols tt

All-everywhere : (P : String → Type 0) (ks : List String) → ((k : String) → P k) → All P ks
All-everywhere P [] h = tt
All-everywhere P (k ∷ ks) h = (h k, All-everywhere P ks h)

get-types_from :
    (k : String) (out : Map String String) (cols : List Column)
    → get k (types_from out cols) ≡ or_else (last_type k cols) (get k out)
unfolding types_from
get-types_from k out [] = refl
get-types_from k out (c ∷ cols) =
    get-types_from k (put c.name c.typ out) cols
    ∙ ground (arith, get-put k c.name c.typ out, eq_iff k c.name)

or_none : (o : Option String) → or_else o none ≡ o
or_none none = refl
or_none (some t) = refl

get-types_by_name :
    (k : String) (cols : List Column) → get k (types_by_name cols) ≡ last_type k cols
unfolding types_by_name get
get-types_by_name k cols = get-types_from k [] cols ∙ or_none (last_type k cols)

-- Two results are reported to differ exactly where, for some name, one has a column of the name and the other has not,
-- or the last columns of the name in the two have different types.
pub differences-eq-nil :
    (a b : List Column) (a_name b_name : String)
    → (differences a b a_name b_name ≡ []) ↔ ((k : String) → last_type k a ≡ last_type k b)
unfolding differences
differences-eq-nil a b a_name b_name =
    let x = types_by_name a in
    let y = types_by_name b in
    let (to, from) = differences_over-eq-nil x y a_name b_name (column_names x y) in
    (
      λ h k.
          sym (get-types_by_name k a)
          ∙ names_cover (λ k. get k x ≡ get k y) x y (types_by_name-WellKeyed a)
              (types_by_name-WellKeyed b) (λ k e f. e ∙ sym f) (to h) k
          ∙ get-types_by_name k b,
      λ h. from (
          All-everywhere (λ k. get k x ≡ get k y) (column_names x y)
            (λ k. get-types_by_name k a ∙ h k ∙ sym (get-types_by_name k b))),
    )
