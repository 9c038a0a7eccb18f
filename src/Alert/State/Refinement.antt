-- ===== src/Alert/State/Refinement.antt =====
-- Eval refines the state machine of a single instance: each identity's instance goes one step of its
-- own, whatever the other rows and instances are.
use clickhouse_ruler.Base.{
  ℕ, String, ◌≡◌, refl, sym, ◌∙◌, ap, true, false, List, [], ◌∷◌, Option, none, some, if◌then◌else◌,
  All, arith, string_eq, nat_eq, nat_beq, nat_beq_iff, Bool-cases, inl, inr, ◌⊎◌,
}
use clickhouse_ruler.GoMap.{Map, WellKeyed}
use clickhouse_ruler.GoMap.Laws.{put-WellKeyed}
use clickhouse_ruler.Alert.Data.{LabelSet, Instance, Labelled}
use clickhouse_ruler.Alert.Labels.{same_labels}
use clickhouse_ruler.Alert.Labels.Same.{same_labels_refl, same_labels_sym, same_labels_cong}
use clickhouse_ruler.Alert.Annotate.{Engine, AnnotationError}
use clickhouse_ruler.Alert.State.{State, bucket, track, see}
use clickhouse_ruler.Alert.State.Step.{Progress, see_row, eval_row, eval_rows}
use clickhouse_ruler.Alert.State.Machine.{find_labels, row_for, renew, Belongs, Inv, Respects}
use clickhouse_ruler.Alert.State.Bucket.{
  Keyed, write, track-renew, track_labels, find-write_same, find-write_other,
}
use clickhouse_ruler.Alert.State.BucketInv.{Belongs-Keyed, write-BucketInv, track-Belongs}
use clickhouse_ruler.Alert.State.Buckets.{bucket-put, bucket-BucketInv, put-BucketsInv}
use clickhouse_ruler.Alert.State.Rows.{IsRow, DistinctRows, row_for-cong}

module _ (E : Engine) (now : ℕ) where
  -- A seen row keeps the labels of the instance.
  see_row_labels :
      (s : State) (l : Labelled) (i : Instance)
      → ((see_row E s now l i).alert.labels ≡ i.alert.labels)
        × ((see_row E s now l i).alert.fingerprint ≡ i.alert.fingerprint)
  unfolding see_row see
  see_row_labels s l i = (refl, refl)

  bucket-Keyed : (s : State) (fp : ℕ) → Inv s → All Keyed (bucket fp s.active)
  bucket-Keyed s fp v =
      Belongs-Keyed s.hash fp _ (bucket-BucketInv s.hash fp s.active v.buckets).belong

  -- The instance that a row writes.
  abbrev seen : State → Labelled → Instance
  seen s l = see_row E s now l (track l now (bucket l.fp s.active)).inst

  bucket-eval_row :
      (s : State) (broken : Map String AnnotationError) (l : Labelled) (fp : ℕ)
      → bucket fp (eval_row E now (s, broken) l).0.active ≡ (
          if nat_beq fp l.fp
          then write l now (seen s l) (bucket l.fp s.active)
          else bucket fp s.active)
  unfolding eval_row
  bucket-eval_row s broken l fp =
      bucket-put fp l.fp (write l now (seen s l) (bucket l.fp s.active)) s.active

  seen_labels :
      (s : State) (l : Labelled)
      → Inv s
      → IsRow s.hash l
      → (same_labels (seen s l).alert.labels l.labels ≡ true) × Keyed (seen s l)
  unfolding see_row see
  seen_labels s l v w =
      track_labels l now w.0 _ (bucket-Keyed s l.fp v) (same_labels_refl l.labels w.0)

  -- A row is its own identity's: the instance goes its step.
  eval_row-find_same :
      (s : State) (broken : Map String AnnotationError) (l : Labelled) (ls : LabelSet)
      → Inv s
      → IsRow s.hash l
      → WellKeyed ls
      → same_labels l.labels ls ≡ true
      → s.hash ls ≡ l.fp
      → find_labels ls (bucket l.fp (eval_row E now (s, broken) l).0.active)
        ≡ some (see_row E s now l (renew l now (find_labels ls (bucket l.fp s.active))))
  eval_row-find_same s broken l ls v w wls e f =
      let insts = bucket l.fp s.active in
      let keyed = bucket-Keyed s l.fp v in
      let own = seen_labels s l v w in
      let same = same_labels_cong (seen s l).alert.labels l.labels ls own.1 w.0 wls e in
      rw (bucket-eval_row s broken l l.fp, (nat_beq_iff l.fp l.fp).1 refl)
        (rw (find-write_same l now w.0 (seen s l) ls insts wls keyed e (sym same ∙ own.0))
          (ap (λ i. some (see_row E s now l i)) (track-renew l now w.0 ls insts wls keyed e)))

  -- No other identity is touched.
  eval_row-find_other :
      (s : State) (broken : Map String AnnotationError) (l : Labelled) (ls : LabelSet) (fp : ℕ)
      → Inv s
      → IsRow s.hash l
      → WellKeyed ls
      → same_labels l.labels ls ≡ false
      → find_labels ls (bucket fp (eval_row E now (s, broken) l).0.active)
        ≡ find_labels ls (bucket fp s.active)
  eval_row-find_other s broken l ls fp v w wls e =
      let insts = bucket l.fp s.active in
      let keyed = bucket-Keyed s l.fp v in
      let own = seen_labels s l v w in
      let apart : same_labels (seen s l).alert.labels ls ≡ false = ground (
        arith,
        same_labels_cong ls l.labels (seen s l).alert.labels wls w.0 own.1
            (same_labels_sym (seen s l).alert.labels l.labels own.1 w.0 own.0),
        same_labels_sym (seen s l).alert.labels ls own.1 wls,
        same_labels_sym ls l.labels wls w.0,
      ) in
      ground (
        arith,
        bucket-eval_row s broken l fp,
        nat_beq_iff fp l.fp,
        find-write_other l now w.0 (seen s l) ls insts wls keyed e apart,
      )

  seen-Belongs :
      (s : State) (l : Labelled) → Inv s → IsRow s.hash l → Belongs s.hash l.fp (seen s l)
  unfolding see_row see
  seen-Belongs s l v w =
      track-Belongs s.hash l.fp l now _ w.0 (sym w.1) refl
        (bucket-BucketInv s.hash l.fp s.active v.buckets).belong

  eval_row-Inv :
      (s : State) (broken : Map String AnnotationError) (l : Labelled)
      → Inv s
      → IsRow s.hash l
      → Inv (eval_row E now (s, broken) l).0
  unfolding eval_row
  eval_row-Inv s broken l v w = record {
    keyed = put-WellKeyed l.fp _ s.active v.keyed;
    base_keyed = v.base_keyed;
    buckets =
        put-BucketsInv s.hash l.fp _ s.active
          (write-BucketInv s.hash l.fp l now w.0 (seen s l) (bucket l.fp s.active)
            (seen-Belongs s l v w) (seen_labels s l v w).0
            (bucket-BucketInv s.hash l.fp s.active v.buckets))
          v.buckets;
  }

  -- What the rows do to one identity.
  abbrev pub after_rows : State → Option Labelled → Option Instance → Option Instance
  after_rows s none o = o
  after_rows s (some l) o = some (see_row E s now l (renew l now o))

  -- The rows write to the buckets alone.
  pub eval_rows_fields :
      (s : State) (broken : Map String AnnotationError) (rows : List Labelled)
      → let t = (eval_rows E now (s, broken) rows).0 in
        (t.rule ≡ s.rule) × (t.retention ≡ s.retention) × (t.hash ≡ s.hash)
  unfolding eval_rows eval_row
  eval_rows_fields s broken [] = (refl, refl, refl)
  eval_rows_fields s broken (l ∷ rows) =
      let next = eval_row E now (s, broken) l in eval_rows_fields next.0 next.1 rows

  pub eval_rows-Inv :
      (s : State) (broken : Map String AnnotationError) (rows : List Labelled)
      → Inv s
      → All (IsRow s.hash) rows
      → Inv (eval_rows E now (s, broken) rows).0
  unfolding eval_rows
  eval_rows-Inv s broken [] v w = v
  eval_rows-Inv s broken (l ∷ rows) v w =
      let next = eval_row E now (s, broken) l in
      eval_rows-Inv next.0 next.1 rows (eval_row-Inv s broken l v w.0) (rows_kept w.1)
    where
      rows_kept : All (IsRow s.hash) rows → All (IsRow (eval_row E now (s, broken) l).0.hash) rows
      rows_kept h = unfold eval_row in h

  pub eval_rows-find :
      (s : State) (broken : Map String AnnotationError) (rows : List Labelled) (ls : LabelSet)
      → Respects s.hash
      → Inv s
      → All (IsRow s.hash) rows
      → DistinctRows rows
      → WellKeyed ls
      → find_labels ls (bucket (s.hash ls) (eval_rows E now (s, broken) rows).0.active)
        ≡ after_rows s (row_for ls rows) (find_labels ls (bucket (s.hash ls) s.active))
  unfolding eval_rows row_for eval_row see_row see
  eval_rows-find s broken [] ls respects v w d wls = refl
  eval_rows-find s broken (l ∷ rows) ls respects v w d wls =
      eval_rows-find next.0 next.1 rows ls respects (eval_row-Inv s broken l v w.0) w.1 d.1 wls
      ∙ first_row (Bool-cases (same_labels l.labels ls))
    where
      next : Progress
      next = eval_row E now (s, broken) l

      first_row :
          (same_labels l.labels ls ≡ true) ⊎ (same_labels l.labels ls ≡ false)
          → after_rows s (row_for ls rows) (find_labels ls (bucket (s.hash ls) next.0.active))
            ≡ after_rows s (row_for ls (l ∷ rows)) (find_labels ls (bucket (s.hash ls) s.active))
      first_row (inl e) =
          let fp_eq : s.hash ls ≡ l.fp = sym (respects l.labels ls w.0.0 wls e) ∙ sym w.0.1 in
          let later : row_for ls rows ≡ none =
            sym (row_for-cong l.labels ls rows s.hash w.0.0 wls w.1 e) ∙ d.0 in
          rw (e, row_for) (rw later (rw fp_eq (eval_row-find_same s broken l ls v w.0 wls e fp_eq)))
      first_row (inr e) =
          rw (e, row_for)
            (ap (after_rows s (row_for ls rows))
              (eval_row-find_other s broken l ls (s.hash ls) v w.0 wls e))
