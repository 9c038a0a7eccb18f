-- ===== src/Alert/Labels/Same.antt =====
-- `same_labels` is an equivalence on label sets, and holds exactly where every label reads alike.
use clickhouse_ruler.Base.{
  ◌≡◌, refl, sym, ◌∙◌, ◌↔◌, true, String, string_eq, Bool-cases, inl, inr, arith,
}
use clickhouse_ruler.GoMap.{get, WellKeyed}
use clickhouse_ruler.GoMap.Same.{map_equal_iff}
use clickhouse_ruler.Alert.Data.{LabelSet}
use clickhouse_ruler.Alert.Labels.{same_labels}

-- `sameLabels` holds of two label sets exactly where every label reads alike in both; each has a label once.
pub same_labels_iff :
    (a b : LabelSet)
    → WellKeyed a
    → WellKeyed b
    → (same_labels a b ≡ true) ↔ ((k : String) → get k a ≡ get k b)
unfolding same_labels
same_labels_iff a b wa wb = map_equal_iff a b wa wb

pub same_labels_refl : (a : LabelSet) → WellKeyed a → same_labels a a ≡ true
same_labels_refl a wa = (same_labels_iff a a wa wa).1 (λ k. refl)

pub same_labels_sym :
    (a b : LabelSet) → WellKeyed a → WellKeyed b → same_labels a b ≡ true → same_labels b a ≡ true
same_labels_sym a b wa wb h =
    (same_labels_iff b a wb wa).1 (λ k. sym ((same_labels_iff a b wa wb).0 h k))

pub same_labels_trans :
    (a b c : LabelSet)
    → WellKeyed a
    → WellKeyed b
    → WellKeyed c
    → same_labels a b ≡ true
    → same_labels b c ≡ true
    → same_labels a c ≡ true
same_labels_trans a b c wa wb wc h k =
    (same_labels_iff a c wa wc).1
      (λ j. (same_labels_iff a b wa wb).0 h j ∙ (same_labels_iff b c wb wc).0 k j)

-- Two label sets that are the same compare alike to a third.
pub same_labels_cong :
    (a b c : LabelSet)
    → WellKeyed a
    → WellKeyed b
    → WellKeyed c
    → same_labels b c ≡ true
    → same_labels a b ≡ same_labels a c
same_labels_cong a b c wa wb wc h = elim (Bool-cases (same_labels a b)) [
  | inl e ↦ e ∙ sym (same_labels_trans a b c wa wb wc e h)
  | inr e ↦ elim (Bool-cases (same_labels a c)) [
    | inl k ↦
        let both = same_labels_trans a c b wa wc wb k (same_labels_sym b c wb wc h) in ground arith
    | inr k ↦ e ∙ sym k
  ]
]
