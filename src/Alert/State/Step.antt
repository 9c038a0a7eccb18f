-- ===== src/Alert/State/Step.antt =====
-- internal/alert/state.go: New, Adopt and Eval.
use clickhouse_ruler.Base.{
  ℕ, Bool, true, false, not, ◌||◌, String, List, [], ◌∷◌, if◌then◌else◌, ◌==◌, string_eq, nat_eq,
  Result, ok, err, Duration,
}
use clickhouse_ruler.GoMap.{Map, put}
use clickhouse_ruler.GoMap.Same.{map_equal}
use clickhouse_ruler.Rule.{Rule}
use clickhouse_ruler.Source.{Source}
use clickhouse_ruler.Alert.Data.{LabelSet, Sample, Alert, Instance, Labelled}
use clickhouse_ruler.Alert.Labels.{base_labels}
use clickhouse_ruler.Alert.Annotate.{Engine, AnnotationError, annotate, parse_annotations}
use clickhouse_ruler.Alert.Fingerprint.{fingerprint}
use clickhouse_ruler.Alert.State.{
  State, DuplicateLabelSet, bucket, track, plug, see, put_failures, clear_marks, resolve_labels,
  expire, sorted_failures,
}

-- One round of the loop of Eval: the tracked instance, written through its slot, and the failures
-- that its annotations add.
abbrev pub Progress : Type 0
Progress = State × Map String AnnotationError

-- The alerts and the annotation failures that an evaluation returns.
pub record Evaluated : Type 0 where
  pub alerts : List Alert
  pub failures : List AnnotationError

module _ (E : Engine) where
  unfoldable pub see_row : State → ℕ → Labelled → Instance → Instance
  unfolding see annotate
  see_row s now l i =
      let i' = see s.rule.for_duration now l.value i in
      record i' {
        alert = record i'.alert {
          annotations = (annotate E s.annotations s.parse_errs i'.alert).0;
        };
      }

  unfoldable pub row_failures : State → ℕ → Labelled → Instance → List AnnotationError
  unfolding see annotate
  row_failures s now l i =
      (annotate E s.annotations s.parse_errs (see s.rule.for_duration now l.value i).alert).1

  unfoldable pub eval_row : ℕ → Progress → Labelled → Progress
  unfolding bucket track see_row row_failures put
  eval_row now (s, broken) l =
      let z = track l now (bucket l.fp s.active) in
      let insts = plug (record z { inst = see_row s now l z.inst }) in
      (
        record s { active = put l.fp insts s.active },
        put_failures broken (row_failures s now l z.inst),
      )

  unfoldable pub eval_rows : ℕ → Progress → List Labelled → Progress
  unfolding eval_row
  eval_rows now p [] = p
  eval_rows now p (l ∷ ls) = eval_rows now (eval_row now p l) ls

  -- The set of pointers is made anew once the labels are resolved.
  unfoldable pub eval : State → ℕ → List Sample → State × Result DuplicateLabelSet Evaluated
  unfolding eval_rows clear_marks resolve_labels expire sorted_failures
  eval s now samples = elim (resolve_labels s samples) [
    | err e ↦ (s, err e)
    | ok labelled ↦
        let (s', broken) =
          eval_rows now (record s { active = clear_marks s.active }, []) labelled in
        let (s'', alerts) = expire s' now in
        (s'', ok (record { alerts = alerts; failures = sorted_failures broken }))
  ]

  unfoldable pub new_state : Rule → LabelSet → Source → Duration → State
  unfolding base_labels parse_annotations
  new_state r group_labels src retention =
      let (parsed, errs) = parse_annotations E r.annotations in
      record {
        rule = r;
        src = src;
        base = base_labels r group_labels;
        active = [];
        annotations = parsed;
        parse_errs = errs;
        retention = retention;
        hash = fingerprint;
      }

  -- Whether the reloaded definition is the same alert, and the state after it.
  unfoldable pub adopt : State → Rule → LabelSet → Source → Duration → State × Bool
  unfolding base_labels parse_annotations map_equal
  adopt s r group_labels src retention =
      let base = base_labels r group_labels in
      let (parsed, errs) = parse_annotations E r.annotations in
      if not (r.alert == s.rule.alert) || not (map_equal base s.base)
      then (s, false)
      else if not (src.name == s.src.name) || not (map_equal src.labels s.src.labels)
      then (s, false)
      else (
        record s {
          rule = r;
          base = base;
          src = src;
          annotations = parsed;
          parse_errs = errs;
          retention = retention;
        },
        true,
      )
