-- ===== src/Lib.antt =====
-- clickhouse-ruler evaluates alerting rules against ClickHouse and notifies Alertmanager. Rules come in
-- groups that tick on an interval of their own; an evaluation turns query rows into alert instances;
-- the alerts go through a queue, a cadence that throttles them, and a client to each Alertmanager.
-- Policy files decide which checks a rule has to pass, and sources say on which clusters it runs.
--
-- Files and the code that they model (paths from the repository's root):
-- - Alert: internal/alert. Alert/State is state.go (`State`, `track`, `expire`, `snapshot`), Alert/State/Step its
--   New, Adopt and Eval (`new_state`, `adopt`, `eval`); Alert/Labels is labelsFor, baseLabels and
--   sameLabels; Alert/Fingerprint is fingerprint.go; Alert/Annotate is annotate.go. Alert/State/Machine is the specification: the state
--   machine of one instance. The other modules of Alert/State carry the refinement proof.
-- - Notify: internal/notify. Notify/Cadence is cadence.go, Notify/Client client.go, Notify/Fanout
--   fanout.go, Notify/Payload payload.go.
-- - Scheduler: internal/scheduler. Scheduler/Group is runGroup of group.go, Scheduler/SendQueue is sendqueue.go,
--   Scheduler/Limits is concurrency.go, Scheduler/Evaluate is ruleeval.go, with what is gathered from the results in Scheduler/Evaluate/Results, Scheduler/Drift drift.go. Scheduler/Reload is
--   scheduler.go (`build`, `describe`, `reload`) with Resend of sender.go; Scheduler/Gauge is the problem gauge, with
--   the part of evalGroup that writes to it; Scheduler/Recheck is recheck.go (`recheck_rule_once`, `recheck_pass`).
-- - Query: internal/query. Query/Cost is cost.go, Query/Shape shape.go, Query/Backfill the plan and the counts of
--   backfill.go, Query/Privileges privileges.go (`privileges`, one `assert_` definition for each assertion), and
--   Query/KeySample the decisions of sample.go (`resolve_keys`, `sample_findings`), with bareColumn of ast.go and
--   plural of inspect.go.
-- - Policy: internal/policy. Policy is merge.go, with For, Defaults and ParseSeverity; Policy/Limits is
--   Setting.Limit.
-- - Lint: internal/lint. Lint/Table is the table of checks of checks.go, Lint/Checks its queries; Lint/Changed is
--   changed.go (`changed_since`, `keep`, `paths`); Lint has the data of problem.go and reader.go.
-- - Source: internal/source, match.go and exempt.go. Rule: internal/rule. Rule has the data of parse.go and EffectiveLabels;
--   Rule/Validate is Validate of validate.go, Rule/Checks its checks of one rule and Rule/Expr the patterns of the time bounds;
--   Rule/Template is template.go's TemplateFields. Ruleset: internal/ruleset, policyFor, alertIdentity,
--   duplicateAlerts and sourceMatch of ruleset.go.
-- - Base, GoMap and Text stand for the language: native numbers with the tests on them, int64 durations
--   and times, maps as association lists, strings and sort.
--
-- How state and operations correspond: a Go struct that methods change is a record, and a method returns
-- the new record. A mutex makes each locked section one step. A pointer that `track` returns is a slot of
-- its bucket, written back by `plug`; the set of pointers that Eval builds is the mark `present` on each
-- instance. The order in which a `range` visits a map is the order of the association list.
--
-- The goroutines of one evaluation share nothing but the query limits, so an evaluation goes through the sources
-- in their order; a reload is one step, after the evaluations in flight have returned.
--
-- Bounds and fuel: a Time is nanoseconds since Go's zero time, a Duration an integer with the saturation
-- of Sub and the wrap-around of int64 multiplication and addition written out; where a theorem needs that
-- nothing wraps, it says so (`Fits`). `catch_up` runs on fuel, and enough of it is any number above the
-- clock's reading less the start; `drain` runs on fuel above the number of batches; both are proved.
--
-- Parameters: the template engine, float and quote formatting, time's Format, the answers of the HTTP
-- client, the readings of the clock and the state of a context, what becomes of each source's query or
-- sample, what ClickHouse's driver and git answer, the paths of the host, the parsing of URLs, Go's
-- floats (`Floats`), and Prometheus's gauge vector (`GaugeVec`, with what its library documents as `IsLawful`). The hash of a label set is a field of
-- State, as in the source; the theorems on Eval ask that it agrees on label sets that read alike.
--
-- Not modelled: querying and inspecting ClickHouse, parsing YAML, the walk over the rules tree, metrics
-- other than those of the send queue, the problem gauge and the re-check pass, TLS and credentials, the command line, and the tooling around the
-- documentation.
pub mod Alert
pub mod Base
pub mod GoMap
pub mod Lint
pub mod Notify
pub mod Policy
pub mod Query
pub mod Rule
pub mod Ruleset
pub mod Scheduler
pub mod Source
pub mod Text
