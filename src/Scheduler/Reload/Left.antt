-- ===== src/Scheduler/Reload/Left.antt =====
-- internal/scheduler/scheduler.go: a rule that leaves a source which other rules still reach.
use clickhouse_ruler.Base.{
  ◌≡◌, ◌≢◌, ◌∙◌, ◌⊎◌, inl, inr, refl, true, false, ◌&&◌, List, [], ◌∷◌, string_eq, ◌==◌, All, arith,
  Time, Bool-cases,
}
use clickhouse_ruler.Alert.Annotate.{Engine}
use clickhouse_ruler.Query.Cost.{Floats}
use clickhouse_ruler.Ruleset.{LoadedRule}
use clickhouse_ruler.Scheduler.Drift.{check_rule_source_schema}
use clickhouse_ruler.Scheduler.Evaluate.{evaluate}
use clickhouse_ruler.Scheduler.Evaluate.Results.{RuleEval}
use clickhouse_ruler.Scheduler.Evaluate.Standing.{
  IsReady, Tick, recorded_all, recorded_all-stands, any_answer-covered,
}
use clickhouse_ruler.Scheduler.Gauge.{Series, GaugeVec, IsLawful}
use clickhouse_ruler.Scheduler.Gauge.Pass.{NamedRule, record_pass, holds-record_pass}
use clickhouse_ruler.Scheduler.Limits.{QueryLimits}
use clickhouse_ruler.Scheduler.Reload.{Scheduler, describe, reload}
use clickhouse_ruler.Scheduler.Reload.Gone.{pair_of, loads, reached, reload-gauge}
use clickhouse_ruler.Scheduler.SendQueue.{SendQueue}

-- What happens to the gauge: a reload to these rules, or a run of evaluations of one rule, from any state of its
-- evaluator.
pub data Event : Type 0 where
  reloaded : Time → List LoadedRule → Event
  evaluated : NamedRule → List Tick → RuleEval → SendQueue → Event

-- A reload that still loads the rule of the series and reaches its source; evaluations of a rule of another name or path,
-- or of one that does not have the source.
abbrev pub Spares : Series → Event → Type 0
Spares s (reloaded now rules) = (loads (pair_of s) rules ≡ true) × (reached s.source rules ≡ true)
Spares s (evaluated n ticks e q) =
    (((n.rule == s.rule) && (n.file == s.file)) ≡ false)
    ⊎ (IsReady e × All (λ src. src.name ≢ s.source) e.rule.sources)

module _ (E : Engine) (F : Floats) (G : GaugeVec) (l : QueryLimits) where
  -- The scheduler and the gauge after the events, in their order.
  abbrev pub after_events : List Event → Scheduler → G.Gauge → Scheduler × G.Gauge
  after_events [] sch g = (sch, g)
  after_events (reloaded now rules ∷ events) sch g =
      let (sch', g') = reload E G now rules sch g in after_events events sch' g'
  after_events (evaluated n ticks e q ∷ events) sch g =
      after_events events sch (recorded_all E F G l n ticks e q g)

module _ (E : Engine) (F : Floats) (G : GaugeVec) (lawful : IsLawful G) (l : QueryLimits) where
  other_rule-stands :
      (n : NamedRule) (ticks : List Tick) (e : RuleEval) (q : SendQueue) (g : G.Gauge) (s : Series)
      → ((n.rule == s.rule) && (n.file == s.file)) ≡ false
      → G.holds s g ≡ true
      → G.holds s (recorded_all E F G l n ticks e q g) ≡ true
  other_rule-stands n [] e q g s other h = h
  other_rule-stands n (t ∷ ticks) e q g s other h =
      let (e', q', res) = evaluate E F l t.reply t.now t.queued_at e q in
      other_rule-stands n ticks e' q' (record_pass G n res g) s other (
        holds-record_pass G lawful n s res g
        ∙ ground (arith, any_answer-covered n s res.answered, other, h))

  reload_loaded :
      (now : Time) (old rules : List LoadedRule) (sch : Scheduler) (g : G.Gauge)
      → sch.loaded ≡ describe old
      → (from : List LoadedRule) × ((reload E G now rules sch g).0.loaded ≡ describe from)
  unfolding reload
  reload_loaded now old rules sch g loaded = elim (Bool-cases sch.stopped) [
    | inl e ↦ (old, rw (reload, e) loaded)
    | inr e ↦ (rules, rw (reload, e) refl)
  ]

  -- A finding about a source that its rule has left stands on the gauge, through the reload by which the rule
  -- left it and any sequence of events after it: reloads that load a rule of the finding's name and path and
  -- reach the source, through whatever rule, evaluations of rules of another name or path, and
  -- evaluations of rules that do not have the source. The finding is not of the comparison between
  -- sources.
  pub left_source-stands :
      (events : List Event) (old : List LoadedRule) (sch : Scheduler) (g : G.Gauge) (s : Series)
      → sch.loaded ≡ describe old
      → All (Spares s) events
      → (check_rule_source_schema == s.check) ≡ false
      → G.holds s g ≡ true
      → G.holds s (after_events E F G l events sch g).1 ≡ true
  left_source-stands [] old sch g s loaded spared check h = h
  left_source-stands (reloaded now rules ∷ events) old sch g s loaded spared check h =
      let (from, loaded') = reload_loaded now old rules sch g loaded in
      let kept : G.holds s (reload E G now rules sch g).1 ≡ true =
        reload-gauge E G lawful now old rules sch g s loaded
        ∙ ground (arith, spared.0.0, spared.0.1, h) in
      left_source-stands events from (reload E G now rules sch g).0 (reload E G now rules sch g).1 s
        loaded' spared.1 check kept
  left_source-stands (evaluated n ticks e q ∷ events) old sch g s loaded spared check h =
      let kept : G.holds s (recorded_all E F G l n ticks e q g) ≡ true = elim spared.0 [
        | inl other ↦ other_rule-stands n ticks e q g s other h
        | inr (ready, absent) ↦
            recorded_all-stands E F G lawful l n ticks e q g s ready absent check h
      ] in
      left_source-stands events old sch (recorded_all E F G l n ticks e q g) s loaded spared.1 check
        kept
