-- ===== src/Alert/State/Rows.antt =====
-- The rows of one evaluation: their labels hold each label once, and a result that is not refused has
-- no two rows with the same labels.
use clickhouse_ruler.Base.{
  ℕ, ◌≡◌, refl, sym, subst, ◌∙◌, true, false, List, [], ◌∷◌, ◌++◌, none, Result, ok, All,
  All-append, map, arith, string_eq, nat_eq, nat_beq_iff, Bool-cases, inl, inr, ◌==◌,
}
use mathlib.Core.List.{append_assoc, append-nil}
use clickhouse_ruler.GoMap.{put, WellKeyed}
use clickhouse_ruler.GoMap.Laws.{put-WellKeyed, put_all-WellKeyed}
use clickhouse_ruler.Rule.{Rule}
use clickhouse_ruler.Source.{Source}
use clickhouse_ruler.Alert.Data.{LabelSet, Sample, Labelled, label_team}
use clickhouse_ruler.Alert.Labels.{same_labels, overlay_columns, labels_for}
use clickhouse_ruler.Alert.Labels.Same.{same_labels_sym, same_labels_cong}
use clickhouse_ruler.Alert.State.{
  State, DuplicateLabelSet, clashes, any_clash, label_row, resolve_from, resolve_labels,
}
use clickhouse_ruler.Alert.State.Machine.{row_for, Respects}

overlay-WellKeyed : (dst cols : LabelSet) → WellKeyed dst → WellKeyed (overlay_columns dst cols)
unfolding overlay_columns
overlay-WellKeyed dst [] w = w
overlay-WellKeyed dst ((k, v) ∷ cols) w = elim (Bool-cases (k == label_team)) [
  | inl e ↦ rw (e, overlay_columns) (overlay-WellKeyed dst cols w)
  | inr e ↦ rw (e, overlay_columns) (overlay-WellKeyed (put k v dst) cols (put-WellKeyed k v dst w))
]

pub labels_for-WellKeyed :
    (base : LabelSet) (r : Rule) (src : Source) (smpl : Sample)
    → WellKeyed (labels_for base r src smpl)
unfolding labels_for
labels_for-WellKeyed base r src smpl = put-WellKeyed _ _ _ (
    put-WellKeyed _ _ _ (
      put_all-WellKeyed _ src.labels
        (overlay-WellKeyed _ smpl.labels (put_all-WellKeyed [] base tt))))

-- A row's fingerprint is the hash of its labels.
abbrev pub IsRow : (LabelSet → ℕ) → Labelled → Type 0
IsRow hash l = WellKeyed l.labels × (l.fp ≡ hash l.labels)

pub label_row-IsRow : (s : State) (smpl : Sample) → IsRow s.hash (label_row s smpl)
unfolding label_row
label_row-IsRow s smpl = (labels_for-WellKeyed s.base s.rule s.src smpl, refl)

pub rows-IsRow :
    (s : State) (samples : List Sample) → All (IsRow s.hash) (map (label_row s) samples)
rows-IsRow s [] = tt
rows-IsRow s (smpl ∷ samples) = (label_row-IsRow s smpl, rows-IsRow s samples)

abbrev pub DistinctRows : List Labelled → Type 0
DistinctRows [] = Unit
DistinctRows (l ∷ rows) = (row_for l.labels rows ≡ none) × DistinctRows rows

-- The row of an identity does not depend on how its labels are written.
pub row_for-cong :
    (a b : LabelSet) (rows : List Labelled) (hash : LabelSet → ℕ)
    → WellKeyed a
    → WellKeyed b
    → All (IsRow hash) rows
    → same_labels a b ≡ true
    → row_for a rows ≡ row_for b rows
unfolding row_for
row_for-cong a b [] hash wa wb h e = refl
row_for-cong a b (l ∷ rows) hash wa wb h e =
    ground
      (arith, same_labels_cong l.labels a b h.0.0 wa wb e, row_for-cong a b rows hash wa wb h.1 e)

ok-injective :
    {a b : List Labelled} → ◌≡◌ {A = Result DuplicateLabelSet (List Labelled)} (ok a) (ok b) → a ≡ b
ok-injective e = cc

module _ (s : State) (respects : Respects s.hash) where
  row_for-snoc :
      (ls : LabelSet) (rows : List Labelled) (l : Labelled)
      → row_for ls rows ≡ none
      → same_labels l.labels ls ≡ false
      → row_for ls (rows ++ l ∷ []) ≡ none
  unfolding row_for
  row_for-snoc ls [] l e f = ground arith
  row_for-snoc ls (x ∷ rows) l e f = ground (arith, row_for-snoc ls rows l)

  apart :
      (x l : Labelled)
      → IsRow s.hash x
      → IsRow s.hash l
      → clashes l x ≡ false
      → same_labels l.labels x.labels ≡ false
  apart x l wx wl e = ground (
    arith,
    nat_beq_iff x.fp l.fp,
    same_labels_sym l.labels x.labels wl.0 wx.0,
    respects x.labels l.labels wx.0 wl.0,
  )

  DistinctRows-snoc :
      (rows : List Labelled) (l : Labelled)
      → All (IsRow s.hash) rows
      → IsRow s.hash l
      → DistinctRows rows
      → any_clash l rows ≡ false
      → DistinctRows (rows ++ l ∷ [])
  unfolding any_clash row_for
  DistinctRows-snoc [] l h w d e = (refl, tt)
  DistinctRows-snoc (x ∷ rows) l h w d e =
      let clear : clashes l x ≡ false = ground arith in
      (
        row_for-snoc x.labels rows l d.0 (apart x l h.0 w clear),
        DistinctRows-snoc rows l h.1 w d.1 (ground arith),
      )

  resolve_from-ok :
      (out : List Labelled) (samples : List Sample) {rows : List Labelled}
      → All (IsRow s.hash) out
      → DistinctRows out
      → resolve_from s out samples ≡ ok rows
      → (rows ≡ out ++ map (label_row s) samples) × DistinctRows rows
  unfolding resolve_from
  resolve_from-ok out [] h d e =
      let same = ok-injective e in (sym same ∙ sym (append-nil out), subst DistinctRows same d)
  resolve_from-ok out (smpl ∷ samples) h d e =
      elim (Bool-cases (any_clash (label_row s smpl) out)) [
        | inl c ↦ cc
        | inr c ↦
            let l = label_row s smpl in
            let w = label_row-IsRow s smpl in
            let (same, distinct) =
              resolve_from-ok (out ++ l ∷ []) samples
                (All-append (IsRow s.hash) out (l ∷ []) h (w, tt)) (DistinctRows-snoc out l h w d c)
                (rw (c, resolve_from) at e) in
            (same ∙ append_assoc out (l ∷ []) (map (label_row s) samples), distinct)
      ]

  pub resolve_labels-ok :
      (samples : List Sample) {rows : List Labelled}
      → resolve_labels s samples ≡ ok rows
      → (rows ≡ map (label_row s) samples) × DistinctRows rows
  unfolding resolve_labels
  resolve_labels-ok samples e = resolve_from-ok [] samples tt tt e
