-- ===== src/Alert/State/Eval.antt =====
-- Eval as a whole: it refines the machine of a single identity, keeps the invariant, and is refused
-- exactly where two rows are one alert.
use clickhouse_ruler.Base.{
  ℕ, ◌≡◌, refl, sym, subst, Result-cases, ◌∙◌, ap, List, [], Option, none, some, ok, All, map,
  arith, string_eq, nat_eq, inl, inr, Bool-cases,
}
use clickhouse_ruler.GoMap.{WellKeyed}
use clickhouse_ruler.Alert.Data.{LabelSet, Sample, Instance, Labelled}
use clickhouse_ruler.Alert.Annotate.{Engine}
use clickhouse_ruler.Alert.State.{
  State, bucket, see, is_resolved, label_row, resolve_labels, clear_marks, clear_mark, expire,
  expire_one,
}
use clickhouse_ruler.Alert.State.Step.{Evaluated, see_row, eval_rows, eval}
use clickhouse_ruler.Alert.State.Machine.{find_labels, find, row_for, advance, Inv, Respects}
use clickhouse_ruler.Alert.State.Bucket.{bind}
use clickhouse_ruler.Alert.State.BucketInv.{Belongs-Keyed, find-expire_bucket, find-clear}
use clickhouse_ruler.Alert.State.Buckets.{
  bucket-clear, bucket-expire, clear-WellKeyed, expire-WellKeyed, bucket-BucketInv,
  clear-BucketsInv, expire-BucketsInv,
}
use clickhouse_ruler.Alert.State.Rows.{IsRow, rows-IsRow, resolve_labels-ok}
use clickhouse_ruler.Alert.State.Refinement.{
  after_rows, eval_rows_fields, eval_rows-Inv, eval_rows-find,
}

module _ (E : Engine) (s : State) (now : ℕ) where
  -- The state with no instance marked as present.
  abbrev cleared : State
  cleared = record s { active = clear_marks s.active }

  abbrev rows_done : List Labelled → State
  rows_done rows = (eval_rows E now (cleared, []) rows).0

  cleared-Inv : Inv s → Inv cleared
  cleared-Inv v = record {
    keyed = clear-WellKeyed s.active v.keyed;
    base_keyed = v.base_keyed;
    buckets = clear-BucketsInv s.hash s.active v.buckets;
  }

  expire-Inv : (t : State) → Inv t → Inv (expire t now).0
  unfolding expire
  expire-Inv t v = record {
    keyed = expire-WellKeyed t.rule.keep_firing_for t.retention now t.active v.keyed;
    base_keyed = v.base_keyed;
    buckets = expire-BucketsInv t.hash t.rule.keep_firing_for t.retention now t.active v.buckets;
  }

  expire-find :
      (t : State) (ls : LabelSet)
      → Inv t
      → WellKeyed ls
      → find ls (expire t now).0
        ≡ bind (find ls t) (expire_one t.rule.keep_firing_for t.retention now)
  unfolding expire find
  expire-find t ls v wls =
      let b = bucket-BucketInv t.hash (t.hash ls) t.active v.buckets in
      ap (find_labels ls)
        (bucket-expire t.rule.keep_firing_for t.retention now (t.hash ls) t.active v.keyed)
      ∙ find-expire_bucket t.rule.keep_firing_for t.retention now ls _ wls
          (Belongs-Keyed t.hash (t.hash ls) _ b.belong) b.distinct

  cleared-find : (ls : LabelSet) → find ls cleared ≡ bind (find ls s) (λ i. some (clear_mark i))
  unfolding find
  cleared-find ls =
      ap (find_labels ls) (bucket-clear (s.hash ls) s.active)
      ∙ find-clear ls (bucket (s.hash ls) s.active)

  -- The rows and the expiry, for one identity.
  advance_lem :
      (row : Option Labelled) (o : Option Instance)
      → bind
          (after_rows E now s row (bind o (λ i. some (clear_mark i))))
          (expire_one s.rule.keep_firing_for s.retention now)
        ≡ advance E s now row o
  unfolding see_row see expire_one
  advance_lem none none = refl
  advance_lem none (some i) = refl
  advance_lem (some l) none = refl
  advance_lem (some l) (some i) = elim (Bool-cases (is_resolved i.alert.phase)) [
    | inl e ↦ rw e
    | inr e ↦ rw e
  ]

  expire_fields :
      (t : State) (ls : LabelSet) {o : Option Instance}
      → (t.rule ≡ s.rule) × (t.retention ≡ s.retention) × (t.hash ≡ s.hash)
      → find_labels ls (bucket (s.hash ls) t.active) ≡ o
      → bind (find ls t) (expire_one t.rule.keep_firing_for t.retention now)
        ≡ bind o (expire_one s.rule.keep_firing_for s.retention now)
  unfolding find
  expire_fields t ls f e = cc

  -- The state after an evaluation that is not refused.
  eval_state :
      (samples : List Sample) {rows : List Labelled}
      → resolve_labels s samples ≡ ok rows
      → (eval E s now samples).0 ≡ (expire (rows_done rows) now).0
  unfolding eval
  eval_state samples e = rw (e, eval)

  eval_resolved :
      (samples : List Sample) {r : Evaluated}
      → (eval E s now samples).1 ≡ ok r
      → (rows : List Labelled) × (resolve_labels s samples ≡ ok rows)
  unfolding eval
  eval_resolved samples h = ground arith

  rows_clear : (samples : List Sample) → All (IsRow cleared.hash) (map (label_row s) samples)
  rows_clear samples = rows-IsRow s samples

  -- Eval is refined by the machine of a single instance: after an evaluation that is not refused, the
  -- instance of any label set is the one before, advanced by the row that has those labels, if there
  -- is one, and expired otherwise.
  pub eval-advance :
      (samples : List Sample) (ls : LabelSet) {r : Evaluated}
      → Respects s.hash
      → Inv s
      → WellKeyed ls
      → (eval E s now samples).1 ≡ ok r
      → find ls (eval E s now samples).0
        ≡ advance E s now (row_for ls (map (label_row s) samples)) (find ls s)
  unfolding find bucket row_for see_row
  eval-advance samples ls respects v wls h =
      let (rows, resolved) = eval_resolved samples h in
      let (same, distinct) = resolve_labels-ok s respects samples resolved in
      let rows_ok = subst (All (IsRow s.hash)) (sym same) (rows-IsRow s samples) in
      let inv = eval_rows-Inv E now cleared [] rows (cleared-Inv v) rows_ok in
      ap (find ls) (eval_state samples resolved)
      ∙ expire-find (rows_done rows) ls inv wls
      ∙ expire_fields (rows_done rows) ls (eval_rows_fields E now cleared [] rows)
          (eval_rows-find E now cleared [] rows ls respects (cleared-Inv v) rows_ok distinct wls)
      ∙ ap
          (λ o.
            bind (after_rows E now s (row_for ls rows) o)
              (expire_one s.rule.keep_firing_for s.retention now))
          (cleared-find ls)
      ∙ advance_lem (row_for ls rows) (find ls s)
      ∙ ap (λ rs. advance E s now (row_for ls rs) (find ls s)) same

  -- An evaluation keeps the invariant, refused or not.
  pub eval-Inv : (samples : List Sample) → Respects s.hash → Inv s → Inv (eval E s now samples).0
  unfolding eval
  eval-Inv samples respects v = elim (Result-cases (resolve_labels s samples)) [
    | inl (rows, e) ↦
        let (same, distinct) = resolve_labels-ok s respects samples e in
        rw (eval_state samples e) (
          expire-Inv _ (
            eval_rows-Inv E now cleared [] rows (cleared-Inv v)
              (subst (All (IsRow s.hash)) (sym same) (rows-IsRow s samples))))
    | inr (d, e) ↦ rw (e, eval) v
  ]
