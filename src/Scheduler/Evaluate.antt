-- ===== src/Scheduler/Evaluate.antt =====
-- internal/scheduler/ruleeval.go: one evaluation of a rule against its sources, and the state that a reload carries
-- over. What becomes of each source's query is a parameter; the goroutines share nothing but the limits, so
-- they are evaluated in the order of the sources.
pub mod Results
pub mod Answered
pub mod Carry
pub mod Counts
pub mod Standing
use clickhouse_ruler.Base.{
  ◌+◌, true, not, String, List, [], ◌∷◌, ◌++◌, Option, none, some, if◌then◌else◌, string_eq, length,
  ltb, Time, Duration, ok, err, map,
}
use clickhouse_ruler.GoMap.{Map, get, put}
use clickhouse_ruler.Text.{concat, join}
use clickhouse_ruler.Alert.Data.{pending, firing}
use clickhouse_ruler.Alert.Annotate.{Engine, AnnotationError}
use clickhouse_ruler.Alert.State.{State}
use clickhouse_ruler.Alert.State.Step.{eval, new_state, adopt}
use clickhouse_ruler.Source.{Source}
use clickhouse_ruler.Query.Cost.{Floats}
use clickhouse_ruler.Ruleset.{LoadedRule, group_id}
use clickhouse_ruler.Scheduler.Drift.{RuleFinding, runtime_problem, at_source, inspect}
use clickhouse_ruler.Scheduler.Limits.{QueryLimits}
use clickhouse_ruler.Scheduler.SendQueue.{SendQueue, enqueue}
use clickhouse_ruler.Scheduler.Evaluate.Results.{
  check_annotations_template, Reply, SourceResult, SourceAnnotationError, PassResult, RuleEval,
  no_result, pending_in, firing_in, answered_checks, evaluated_of, failures_of, errors_of,
  current_of, queue_waits_of, concurrency_waits_of, no_connection, abandoned, came_back, no_querier,
  queue_abandoned, query_failed, duplicate,
}

module _ (E : Engine) where
  unfoldable pub render_detail : AnnotationError → String
  unfolding concat join
  render_detail a = elim a.missing_keys [
    | [] ↦ concat (
        "annotation "
        ∷ E.quote a.annotation
        ∷ " did not render, and the template error is in the log beside this"
        ∷ [])
    | k ∷ ks ↦ concat (
        "annotation "
        ∷ E.quote a.annotation
        ∷ " reads "
        ∷ join " and " (map E.quote (k ∷ ks))
        ∷ ", which this alert does not carry"
        ∷ [])
  ]

  -- annotationFindings
  unfoldable pub annotation_findings :
      LoadedRule → Source → Time → AnnotationError → List RuleFinding
  unfolding runtime_problem render_detail
  annotation_findings r src now a = at_source src.name (some a.error) (
      runtime_problem r src now
        (record { check = check_annotations_template; detail = render_detail a }))

  annotation_findings_all : LoadedRule → Source → Time → List AnnotationError → List RuleFinding
  unfolding annotation_findings
  annotation_findings_all r src now [] = []
  annotation_findings_all r src now (a ∷ fs) =
      annotation_findings r src now a ++ annotation_findings_all r src now fs

  unfoldable pub annotation_problems :
      LoadedRule → Time → List (Source × SourceResult) → List RuleFinding
  unfolding annotation_findings_all
  annotation_problems r now [] = []
  annotation_problems r now ((src, res) ∷ results) =
      annotation_findings_all r src now res.annotations ++ annotation_problems r now results

  annotation_error : String → AnnotationError → SourceAnnotationError
  annotation_error name a = record { source = name; annotation = a.annotation; err = a.error }

  unfoldable pub annotation_errors_of : List (Source × SourceResult) → List SourceAnnotationError
  unfolding annotation_error
  annotation_errors_of [] = []
  annotation_errors_of ((src, r) ∷ results) =
      map (annotation_error src.name) r.annotations ++ annotation_errors_of results

  -- One source's goroutine, on the state of its alerts.
  unfoldable pub evaluate_source : Time → State → Reply → State × SourceResult
  unfolding eval
  evaluate_source now s no_connection = (s, record no_result { err = some no_querier })
  evaluate_source now s abandoned = (s, record no_result { err = some queue_abandoned })
  evaluate_source now s (came_back w (err e)) = (
    s,
    record no_result { acquired = true; wait = w; err = some (query_failed e); query_err = some e },
  )
  evaluate_source now s (came_back w (ok evaluation)) =
      let result = record no_result {
        acquired = true;
        wait = w;
        shape = evaluation.shape;
        usage = evaluation.usage;
      } in
      let (s', outcome) = eval E s now evaluation.samples in
      (
        s',
        elim outcome [
          | err d ↦ record result { err = some (duplicate d) }
          | ok done ↦ record result {
            alerts = done.alerts;
            rendered = ltb 0 (length evaluation.samples);
            annotations = done.failures;
          }
        ],
      )

  -- The sources of the rule, each on its own state; NewRuleEval made one for each.
  unfoldable pub evaluate_sources :
      Time
      → (String → Reply)
      → List Source
      → Map String State
      → Map String State × List (Source × SourceResult)
  unfolding evaluate_source get put
  evaluate_sources now reply [] states = (states, [])
  evaluate_sources now reply (src ∷ sources) states = elim (get src.name states) [
    | none ↦
        let (states', results) = evaluate_sources now reply sources states in
        (states', (src, no_result) ∷ results)
    | some s ↦
        let (s', r) = evaluate_source now s (reply src.name) in
        let (states', results) = evaluate_sources now reply sources (put src.name s' states) in
        (states', (src, r) ∷ results)
  ]

  -- What Evaluate makes of the results, before it hands the alerts over.
  unfoldable pub pass_result :
      QueryLimits → LoadedRule → List RuleFinding → Time → List (Source × SourceResult) → PassResult
  unfolding errors_of annotation_errors_of queue_waits_of concurrency_waits_of annotation_problems
      answered_checks pending_in firing_in current_of
  pass_result l r drifted now results = record {
    source_errors = errors_of results;
    annotation_errors = annotation_errors_of results;
    queue_waits = queue_waits_of l results;
    concurrency_waits = concurrency_waits_of l results;
    problems = drifted ++ annotation_problems r now results;
    answered = answered_checks results;
    pending = pending_in (current_of results);
    firing = firing_in (current_of results);
  }

  -- Evaluate: `queued_at` is the clock's reading in Enqueue.
  unfoldable pub evaluate :
      Floats
      → QueryLimits
      → (String → Reply)
      → Time
      → Time
      → RuleEval
      → SendQueue
      → RuleEval × SendQueue × PassResult
  unfolding evaluate_sources inspect evaluated_of failures_of pass_result current_of enqueue
      group_id
  evaluate F l reply now queued_at e q =
      let (states, results) = evaluate_sources now reply e.rule.sources e.states in
      let (prev, drifted) =
        inspect F e.rule now e.prev (evaluated_of results) (failures_of results) in
      (
        record e { states = states; prev = prev },
        enqueue
            (record {
              group = group_id e.rule.path e.rule.group.name;
              rule = e.rule.rule.alert;
              now = now;
              interval = e.rule.group.interval;
              alerts = current_of results;
              queued_at = queued_at;
            })
            q,
        pass_result l e.rule drifted now results,
      )

  new_states : LoadedRule → Duration → List Source → Map String State → Map String State
  unfolding new_state put
  new_states r retention [] states = states
  new_states r retention (src ∷ sources) states =
      new_states r retention sources
        (put src.name (new_state E r.rule r.labels src retention) states)

  -- NewRuleEval
  unfoldable pub new_rule_eval : LoadedRule → Duration → RuleEval
  unfolding new_states
  new_rule_eval r retention = record {
    rule = r;
    states = new_states r retention r.sources [];
    prev = [];
  }

  -- One round of the loop of carry, on the state that `prev` holds for the source.
  unfoldable pub carry_one :
      LoadedRule → Duration → Source → Option State → Map String State → Map String State
  unfolding put adopt
  carry_one r retention src none states = states
  carry_one r retention src (some state) states =
      let (adopted, accepted) = adopt E state r.rule r.labels src retention in
      if accepted then put src.name adopted states else states

  unfoldable pub carry_over :
      LoadedRule → Duration → List Source → Map String State → Map String State → Map String State
  unfolding carry_one get
  carry_over r retention [] prev states = states
  carry_over r retention (src ∷ sources) prev states =
      carry_over r retention sources prev (carry_one r retention src (get src.name prev) states)

  unfoldable pub carry : RuleEval → RuleEval → Duration → RuleEval
  unfolding carry_over
  carry e prev retention = record e {
    states = carry_over e.rule retention e.rule.sources prev.states e.states;
  }
