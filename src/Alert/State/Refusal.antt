-- ===== src/Alert/State/Refusal.antt =====
-- When an evaluation is refused: exactly where two of its rows are one alert; and then nothing moves.
use clickhouse_ruler.Base.{
  ℕ, ◌≡◌, ◌≢◌, refl, sym, ◌∙◌, ap, subst, true, List, [], ◌∷◌, ◌++◌, none, Result, ok, err, All,
  All-append, map, arith, string_eq, nat_eq, ◌⊎◌, inl, inr, ◌↔◌, Bool-cases, Result-cases,
}
use mathlib.Core.List.{append_assoc, append-nil}
use clickhouse_ruler.Alert.Data.{LabelSet, Sample, Labelled}
use clickhouse_ruler.Alert.Labels.{same_labels}
use clickhouse_ruler.Alert.Annotate.{Engine}
use clickhouse_ruler.Alert.State.{
  State, DuplicateLabelSet, label_row, resolve_labels, resolve_from, any_clash, clashes,
}
use clickhouse_ruler.Alert.State.Step.{Evaluated, eval}
use clickhouse_ruler.Alert.State.Machine.{row_for, Respects}
use clickhouse_ruler.Alert.State.Rows.{IsRow, DistinctRows, label_row-IsRow, resolve_labels-ok}
use clickhouse_ruler.Alert.Labels.Same.{same_labels_sym}

row_for_hit :
    (ls : LabelSet) (rows : List Labelled) (l : Labelled) (rest : List Labelled)
    → same_labels l.labels ls ≡ true
    → row_for ls (rows ++ l ∷ rest) ≢ none
unfolding row_for
row_for_hit ls [] l rest e = ground arith
row_for_hit ls (x ∷ rows) l rest e = ground (arith, row_for_hit ls rows l rest e)

ok_not_err :
    (r : Evaluated) (d : DuplicateLabelSet)
    → Path (Result DuplicateLabelSet Evaluated) (ok r) (err d)
    → ⊥
ok_not_err r d e = ground arith

module _ (s : State) where
  clashes_same :
      (l x : Labelled)
      → IsRow s.hash l
      → IsRow s.hash x
      → clashes l x ≡ true
      → same_labels l.labels x.labels ≡ true
  clashes_same l x wl wx c = ground (arith, same_labels_sym x.labels l.labels wx.0 wl.0)

  any_clash-not-Distinct :
      (out : List Labelled) (l : Labelled) (rest : List Labelled)
      → All (IsRow s.hash) out
      → IsRow s.hash l
      → any_clash l out ≡ true
      → ¬ DistinctRows (out ++ l ∷ rest)
  unfolding any_clash
  any_clash-not-Distinct [] l rest h w e d = cc
  any_clash-not-Distinct (x ∷ out) l rest h w e d = elim (Bool-cases (clashes l x)) [
    | inl c ↦ row_for_hit x.labels out l rest (clashes_same l x w h.0 c) d.0
    | inr c ↦ any_clash-not-Distinct out l rest h.1 w (rw (c, any_clash) at e) d.1
  ]

  resolve_from_distinct :
      (out : List Labelled) (samples : List Sample)
      → All (IsRow s.hash) out
      → DistinctRows (out ++ map (label_row s) samples)
      → resolve_from s out samples ≡ ok (out ++ map (label_row s) samples)
  unfolding resolve_from
  resolve_from_distinct out [] h d = ap ok (sym (append-nil out))
  resolve_from_distinct out (smpl ∷ samples) h d = elim (Bool-cases (any_clash l out)) [
    | inl c ↦ absurd (any_clash-not-Distinct out l rest h w c d)
    | inr c ↦
        rw (c, resolve_from)
          (resolve_from_distinct (out ++ l ∷ []) samples
              (All-append (IsRow s.hash) out (l ∷ []) h (w, tt))
              (subst DistinctRows (sym (append_assoc out (l ∷ []) rest)) d)
            ∙ ap ok (append_assoc out (l ∷ []) rest))
  ]
    where
      l : Labelled
      l = label_row s smpl

      w : IsRow s.hash l
      w = label_row-IsRow s smpl

      rest : List Labelled
      rest = map (label_row s) samples

  pub eval_refused_iff :
      (E : Engine) (now : ℕ) (samples : List Sample)
      → Respects s.hash
      → (((r : Evaluated) × ((eval E s now samples).1 ≡ ok r))
          ↔ DistinctRows (map (label_row s) samples))
        × ((d : DuplicateLabelSet)
            → (eval E s now samples).1 ≡ err d
            → (eval E s now samples).0 ≡ s)
  unfolding eval resolve_labels
  eval_refused_iff E now samples respects = ((through, back), refused)
    where
      through :
          (r : Evaluated) × ((eval E s now samples).1 ≡ ok r)
          → DistinctRows (map (label_row s) samples)
      through (r, e) = elim (Result-cases (resolve_labels s samples)) [
        | inl (rows, f) ↦
            let (same, distinct) = resolve_labels-ok s respects samples f in
            subst DistinctRows same distinct
        | inr (d, f) ↦ absurd (ground arith)
      ]

      back :
          DistinctRows (map (label_row s) samples)
          → (r : Evaluated) × ((eval E s now samples).1 ≡ ok r)
      back d = let f = resolve_from_distinct [] samples tt d in rw (f, eval) (_, refl)

      refused :
          (d : DuplicateLabelSet) → (eval E s now samples).1 ≡ err d → (eval E s now samples).0 ≡ s
      refused d e = ground arith

  -- An evaluation either goes through, and no two of its rows have the same labels, or is refused, and
  -- two of them do; a refused one leaves the state as it was.
  pub eval_refused_cases :
      (E : Engine) (now : ℕ) (samples : List Sample)
      → Respects s.hash
      → (((r : Evaluated) × ((eval E s now samples).1 ≡ ok r))
          × DistinctRows (map (label_row s) samples))
        ⊎ (((d : DuplicateLabelSet) × ((eval E s now samples).1 ≡ err d))
            × ((¬ DistinctRows (map (label_row s) samples)) × ((eval E s now samples).0 ≡ s)))
  eval_refused_cases E now samples respects =
      let ((through, back), refused) = eval_refused_iff E now samples respects in
      elim (Result-cases (eval E s now samples).1) [
        | inl (r, e) ↦ inl ((r, e), through (r, e))
        | inr (d, e) ↦ inr (
          (d, e),
          (
            (λ distinct. let (r, f) = back distinct in absurd (ok_not_err r d (sym f ∙ e))),
            refused d e,
          ),
        )
      ]
