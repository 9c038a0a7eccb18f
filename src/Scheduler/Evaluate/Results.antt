-- ===== src/Scheduler/Evaluate/Results.antt =====
-- internal/scheduler/ruleeval.go: what one evaluation of a rule came to, and what is gathered from the results of its
-- sources.
use clickhouse_ruler.Base.{
  ℕ, ◌+◌, Bool, true, false, ◌&&◌, ◌||◌, String, List, [], ◌∷◌, ◌++◌, Option, none, some,
  if◌then◌else◌, string_eq, length, ltb, leb, is_some, Duration, pos, Result,
}
use clickhouse_ruler.GoMap.{Map, get}
use clickhouse_ruler.Alert.Data.{Alert, Phase, pending, firing}
use clickhouse_ruler.Alert.Annotate.{AnnotationError}
use clickhouse_ruler.Alert.State.{State, DuplicateLabelSet}
use clickhouse_ruler.Source.{Source}
use clickhouse_ruler.Query.{Column, Usage, Evaluation}
use clickhouse_ruler.Query.Cost.{check_rule_cost}
use clickhouse_ruler.Ruleset.{LoadedRule}
use clickhouse_ruler.Scheduler.Drift.{
  EvaluatedSource, FailedSource, RuleFinding, check_rule_columns, check_rule_execution,
  check_rule_source_schema,
}
use clickhouse_ruler.Scheduler.Limits.{QueryLimits}

abbrev pub check_annotations_template : String
check_annotations_template = "annotations/template"

-- waits: how long a query was queued at each of the two gates.
pub record Waits : Type 0 where
  pub source : Duration
  pub ruler : Duration

-- What becomes of a source's query: there is no connection for it, the shutdown came while it was queued, or
-- the cluster answered.
pub data Reply : Type 0 where
  no_connection : Reply
  abandoned : Reply
  came_back : Waits → Result String Evaluation → Reply

-- An error of a source: errNoQuerier, errQueueAbandoned, the query's own, or rows that reach one identity.
pub data EvalError : Type 0 where
  no_querier queue_abandoned : EvalError
  query_failed : String → EvalError
  duplicate : DuplicateLabelSet → EvalError

pub record SourceResult : Type 0 where
  pub alerts : List Alert
  pub err : Option EvalError
  pub annotations : List AnnotationError
  pub shape : List Column
  pub usage : Usage
  pub query_err : Option String
  pub rendered : Bool
  pub acquired : Bool
  pub wait : Waits

pub record SourceError : Type 0 where
  pub source : String
  pub err : EvalError

-- The scheduler's AnnotationError.
pub record SourceAnnotationError : Type 0 where
  pub source : String
  pub annotation : String
  pub err : String

pub record SourceWait : Type 0 where
  pub source : String
  pub wait : Duration

pub record Answer : Type 0 where
  pub check : String
  pub source : String

-- Result: what one evaluation did.
pub record PassResult : Type 0 where
  pub source_errors : List SourceError
  pub annotation_errors : List SourceAnnotationError
  pub queue_waits : List SourceWait
  pub concurrency_waits : List Duration
  pub problems : List RuleFinding
  pub answered : List Answer
  pub pending : ℕ
  pub firing : ℕ

pub record RuleEval : Type 0 where
  pub rule : LoadedRule
  pub states : Map String State
  pub prev : Map String (List Column)

abbrev pub no_usage : Usage
no_usage = record { read_rows = 0; read_bytes = 0; peak_memory = 0; duration = pos 0 }

abbrev pub no_wait : Waits
no_wait = record { source = pos 0; ruler = pos 0 }

-- The zero value of a sourceResult.
abbrev pub no_result : SourceResult
no_result = record {
  alerts = [];
  err = none;
  annotations = [];
  shape = [];
  usage = no_usage;
  query_err = none;
  rendered = false;
  acquired = false;
  wait = no_wait;
}

abbrev pub counts_pending : Phase → ℕ
counts_pending pending = 1
counts_pending _ = 0

abbrev pub counts_firing : Phase → ℕ
counts_firing firing = 1
counts_firing _ = 0

-- Result.Pending and Result.Firing.
unfoldable pub pending_in : List Alert → ℕ
pending_in [] = 0
pending_in (a ∷ alerts) = counts_pending a.phase + pending_in alerts

unfoldable pub firing_in : List Alert → ℕ
firing_in [] = 0
firing_in (a ∷ alerts) = counts_firing a.phase + firing_in alerts

abbrev pub is_ok : Option EvalError → Bool
is_ok none = true
is_ok (some e) = false

-- answeredChecks: the answers of one source, and those about the rule.
unfoldable pub answers_of : Source → SourceResult → List Answer
answers_of src r =
    (if is_ok r.err
      then record { check = check_rule_columns; source = src.name }
        ∷ record { check = check_rule_cost; source = src.name }
        ∷ []
      else [])
    ++ (if is_ok r.err || is_some r.query_err
        then record { check = check_rule_execution; source = src.name } ∷ []
        else [])
    ++ (if r.rendered
        then record { check = check_annotations_template; source = src.name } ∷ []
        else [])

unfoldable pub replied : List (Source × SourceResult) → ℕ
replied [] = 0
replied ((src, r) ∷ results) = (if is_ok r.err then 1 else 0) + replied results

unfoldable pub source_answers : List (Source × SourceResult) → List Answer
unfolding answers_of
source_answers [] = []
source_answers ((src, r) ∷ results) = answers_of src r ++ source_answers results

unfoldable pub answered_checks : List (Source × SourceResult) → List Answer
unfolding source_answers replied
answered_checks results =
    let n = replied results in
    source_answers results
    ++ (if leb 2 n || (ltb 0 n && ltb (length results) 2)
        then record { check = check_rule_source_schema; source = "" } ∷ []
        else [])

-- The results that the drift comparison reads, and what the loop over the results gathers.
unfoldable pub evaluated_of : List (Source × SourceResult) → List EvaluatedSource
evaluated_of [] = []
evaluated_of ((src, r) ∷ results) =
    let rest = evaluated_of results in
    if is_ok r.err then record { source = src; shape = r.shape; usage = r.usage } ∷ rest else rest

abbrev pub failure : Source → Option EvalError → Option String → List FailedSource
failure src (some e) (some text) = record { source = src; err = text } ∷ []
failure src none q = []
failure src (some e) none = []

unfoldable pub failures_of : List (Source × SourceResult) → List FailedSource
failures_of [] = []
failures_of ((src, r) ∷ results) = failure src r.err r.query_err ++ failures_of results

abbrev pub error_of : String → Option EvalError → List SourceError
error_of name none = []
error_of name (some e) = record { source = name; err = e } ∷ []

unfoldable pub errors_of : List (Source × SourceResult) → List SourceError
errors_of [] = []
errors_of ((src, r) ∷ results) = error_of src.name r.err ++ errors_of results

-- The alerts of the sources that did not fail.
unfoldable pub current_of : List (Source × SourceResult) → List Alert
current_of [] = []
current_of ((src, r) ∷ results) = (if is_ok r.err then r.alerts else []) ++ current_of results

unfoldable pub queue_waits_of : QueryLimits → List (Source × SourceResult) → List SourceWait
unfolding get
queue_waits_of l [] = []
queue_waits_of l ((src, r) ∷ results) =
    let rest = queue_waits_of l results in
    if r.acquired && is_some (get src.name l.by_source)
    then record { source = src.name; wait = r.wait.source } ∷ rest
    else rest

unfoldable pub concurrency_waits_of : QueryLimits → List (Source × SourceResult) → List Duration
concurrency_waits_of l [] = []
concurrency_waits_of l ((src, r) ∷ results) =
    let rest = concurrency_waits_of l results in
    if r.acquired && is_some l.global then r.wait.ruler ∷ rest else rest
