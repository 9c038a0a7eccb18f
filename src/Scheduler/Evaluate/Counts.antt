-- ===== src/Scheduler/Evaluate/Counts.antt =====
-- internal/scheduler/ruleeval.go: the errors of an evaluation, and the states that it leaves alone.
use clickhouse_ruler.Base.{
  ◌≡◌, ◌≢◌, refl, ◌∙◌, ap, sym, inl, inr, false, String, List, [], ◌∷◌, ◌++◌, Option, none, some,
  string_eq, ◌==◌, eq_iff, arith, Time, ok, err, Option-cases, Result-cases,
}
use clickhouse_ruler.GoMap.{Map, get, put}
use clickhouse_ruler.GoMap.Laws.{get-put, get-put_self}
use clickhouse_ruler.Alert.Data.{Sample}
use clickhouse_ruler.Alert.Annotate.{Engine}
use clickhouse_ruler.Alert.State.{State, DuplicateLabelSet}
use clickhouse_ruler.Alert.State.Step.{eval}
use clickhouse_ruler.Source.{Source}
use clickhouse_ruler.Query.Cost.{Floats}
use clickhouse_ruler.Scheduler.Evaluate.{evaluate, evaluate_source, evaluate_sources, pass_result}
use clickhouse_ruler.Scheduler.Evaluate.Carry.{Unnamed, DistinctNames, Among, Unnamed-Among}
use clickhouse_ruler.Scheduler.Evaluate.Results.{
  Reply, no_connection, abandoned, came_back, SourceError, EvalError, no_querier, queue_abandoned,
  query_failed, duplicate, RuleEval, errors_of, error_of,
}
use clickhouse_ruler.Scheduler.Limits.{QueryLimits}
use clickhouse_ruler.Scheduler.SendQueue.{SendQueue}

eval_refused_keeps :
    (E : Engine) (s : State) (now : Time) (samples : List Sample) (d : DuplicateLabelSet)
    → (eval E s now samples).1 ≡ err d
    → (eval E s now samples).0 ≡ s
unfolding eval
eval_refused_keeps E s now samples d e = ground arith

module _ (E : Engine) (now : Time) where
  -- Why a source failed, from what became of its query and the state of its alerts: none where its rows were evaluated.
  abbrev pub cause : Reply → State → Option EvalError
  cause no_connection s = some no_querier
  cause abandoned s = some queue_abandoned
  cause (came_back w (err e)) s = some (query_failed e)
  cause (came_back w (ok evaluation)) s = elim (eval E s now evaluation.samples).1 [
    | err d ↦ some (duplicate d)
    | ok done ↦ none
  ]

  abbrev named_cause : String → Option EvalError → List SourceError
  named_cause name none = []
  named_cause name (some e) = record { source = name; err = e } ∷ []

  -- The failure of each source, by itself, on the states before the evaluation.
  abbrev pub causes : (String → Reply) → Map String State → List Source → List SourceError
  causes reply states [] = []
  causes reply states (src ∷ sources) =
      elim (get src.name states) [
        | none ↦ []
        | some s ↦ named_cause src.name (cause (reply src.name) s)
      ]
      ++ causes reply states sources

  error_of_lem : (name : String) (o : Option EvalError) → error_of name o ≡ named_cause name o
  error_of_lem name none = refl
  error_of_lem name (some e) = refl

  evaluate_source-err : (s : State) (r : Reply) → (evaluate_source E now s r).1.err ≡ cause r s
  unfolding evaluate_source
  evaluate_source-err s no_connection = refl
  evaluate_source-err s abandoned = refl
  evaluate_source-err s (came_back w (err e)) = refl
  evaluate_source-err s (came_back w (ok evaluation)) =
      elim (Result-cases (eval E s now evaluation.samples).1) [
        | inl (done, h) ↦ rw (evaluate_source, cause, h) refl
        | inr (d, h) ↦ rw (evaluate_source, cause, h) refl
      ]

  -- A source that failed keeps its state.
  evaluate_source-keeps :
      (s : State) (r : Reply) → cause r s ≢ none → (evaluate_source E now s r).0 ≡ s
  unfolding evaluate_source
  evaluate_source-keeps s no_connection h = refl
  evaluate_source-keeps s abandoned h = refl
  evaluate_source-keeps s (came_back w (err e)) h = refl
  evaluate_source-keeps s (came_back w (ok evaluation)) h =
      elim (Result-cases (eval E s now evaluation.samples).1) [
        | inl (done, k) ↦ absurd (h (rw (cause, k) refl))
        | inr (d, k) ↦ eval_refused_keeps E s now evaluation.samples d k
      ]

  module _ (reply : String → Reply) where
    causes-put :
        (name : String) (s : State) (states : Map String State) (sources : List Source)
        → Unnamed name sources
        → causes reply (put name s states) sources ≡ causes reply states sources
    causes-put name s states [] h = refl
    causes-put name s states (src ∷ sources) h =
        let e : get src.name (put name s states) ≡ get src.name states = ground (
          arith,
          get-put src.name name s states,
          h.0,
          eq_iff name src.name,
          eq_iff src.name name,
        ) in
        rw (e, causes-put name s states sources h.1) refl

    errors_of-evaluate_sources :
        (sources : List Source) (states : Map String State)
        → DistinctNames sources
        → errors_of (evaluate_sources E now reply sources states).1 ≡ causes reply states sources
    unfolding errors_of evaluate_sources
    errors_of-evaluate_sources [] states d = refl
    errors_of-evaluate_sources (src ∷ sources) states d =
        elim (Option-cases (get src.name states)) [
          | inl e ↦ rw (e, evaluate_sources) (errors_of-evaluate_sources sources states d.1)
          | inr (s, e) ↦
              let s' = (evaluate_source E now s (reply src.name)).0 in
              rw
                (
                  e,
                  evaluate_sources,
                  errors_of,
                  evaluate_source-err s (reply src.name),
                  errors_of-evaluate_sources sources (put src.name s' states) d.1,
                  causes-put src.name s' states sources d.0,
                  error_of_lem src.name (cause (reply src.name) s),
                )
                refl
        ]

    -- A source of the list, and what the loop leaves as its state.
    evaluate_sources-other :
        (name : String) (sources : List Source) (states : Map String State)
        → Unnamed name sources
        → get name (evaluate_sources E now reply sources states).0 ≡ get name states
    unfolding evaluate_sources
    evaluate_sources-other name [] states h = refl
    evaluate_sources-other name (src ∷ sources) states h =
        elim (Option-cases (get src.name states)) [
          | inl e ↦ rw (e, evaluate_sources) (evaluate_sources-other name sources states h.1)
          | inr (s, e) ↦
              let s' = (evaluate_source E now s (reply src.name)).0 in
              rw (e, evaluate_sources)
                (evaluate_sources-other name sources (put src.name s' states) h.1
                  ∙ ground (arith, get-put name src.name s' states, h.0))
        ]

    evaluate_sources-own :
        (src : Source) (sources : List Source) (states : Map String State) (s : State)
        → DistinctNames sources
        → Among src sources
        → get src.name states ≡ some s
        → get src.name (evaluate_sources E now reply sources states).0
          ≡ some (evaluate_source E now s (reply src.name)).0
    unfolding evaluate_sources
    evaluate_sources-own src [] states s d m e = absurd m
    evaluate_sources-own src (x ∷ sources) states s d (inl same) e =
        let f : get x.name states ≡ some s = rw (sym same) e in
        let s' = (evaluate_source E now s (reply x.name)).0 in
        rw (same, f, evaluate_sources)
          (evaluate_sources-other x.name sources (put x.name s' states) d.0
            ∙ get-put_self x.name s' states)
    evaluate_sources-own src (x ∷ sources) states s d (inr m) e =
        elim (Option-cases (get x.name states)) [
          | inl f ↦ rw (f, evaluate_sources) (evaluate_sources-own src sources states s d.1 m e)
          | inr (u, f) ↦
              let s' = (evaluate_source E now u (reply x.name)).0 in
              let apart : (src.name == x.name) ≡ false = ground (
                arith,
                Unnamed-Among src sources x.name d.0 m,
                eq_iff src.name x.name,
                eq_iff x.name src.name,
              ) in
              let g : get src.name (put x.name s' states) ≡ some s =
                ground (arith, get-put src.name x.name s' states, apart, e) in
              rw (f, evaluate_sources)
                (evaluate_sources-own src sources (put x.name s' states) s d.1 m g)
        ]

-- The errors of an evaluation are those of its sources, in their order and under their names, each from what became of the
-- source's own query and the state of its alerts: there was no connection, the shutdown came first, the query
-- failed, or two rows have the same labels. A source that failed keeps its state, and so its timers, and
-- so does a name that is no source's. The sources have distinct names.
pub evaluate-keeps :
    (E : Engine) (F : Floats) (l : QueryLimits) (reply : String → Reply) (now queued_at : Time)
    (e : RuleEval) (q : SendQueue)
    → DistinctNames e.rule.sources
    → let (e', q', res) = evaluate E F l reply now queued_at e q in
      (res.source_errors ≡ causes E now reply e.states e.rule.sources)
      × (((src : Source) (s : State)
            → Among src e.rule.sources
            → get src.name e.states ≡ some s
            → cause E now (reply src.name) s ≢ none
            → get src.name e'.states ≡ some s)
          × ((name : String)
              → Unnamed name e.rule.sources
              → get name e'.states ≡ get name e.states))
unfolding evaluate pass_result
evaluate-keeps E F l reply now queued_at e q d = (
  errors_of-evaluate_sources E now reply e.rule.sources e.states d,
  (
    λ src s m h failed.
        evaluate_sources-own E now reply src e.rule.sources e.states s d m h
        ∙ ap some (evaluate_source-keeps E now s (reply src.name) failed),
    λ name h. evaluate_sources-other E now reply name e.rule.sources e.states h,
  ),
)
