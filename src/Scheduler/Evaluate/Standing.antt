-- ===== src/Scheduler/Evaluate/Standing.antt =====
-- internal/scheduler/ruleeval.go: what an evaluation leaves standing on the gauge.
use clickhouse_ruler.Base.{
  ◌≡◌, refl, ◌∙◌, ap, ◌≢◌, Bool, true, false, ◌&&◌, ◌||◌, String, List, [], ◌∷◌, none, some,
  string_eq, ◌==◌, eq_iff, arith, All, Time, Option-cases, inl, inr,
}
use clickhouse_ruler.GoMap.{Map, get, put}
use clickhouse_ruler.GoMap.Laws.{get-put}
use clickhouse_ruler.Alert.Annotate.{Engine}
use clickhouse_ruler.Alert.State.{State}
use clickhouse_ruler.Source.{Source}
use clickhouse_ruler.Query.Cost.{Floats}
use clickhouse_ruler.Scheduler.Drift.{check_rule_source_schema}
use clickhouse_ruler.Scheduler.Evaluate.{evaluate, evaluate_source, evaluate_sources, pass_result}
use clickhouse_ruler.Scheduler.Evaluate.Results.{
  Reply, no_connection, abandoned, came_back, Answer, RuleEval, answered_checks,
}
use clickhouse_ruler.Scheduler.Evaluate.Answered.{
  covers, covered, tells, told, covered-answered_checks,
}
use clickhouse_ruler.Scheduler.Gauge.{Series, GaugeVec, IsLawful, matches}
use clickhouse_ruler.Scheduler.Gauge.Pass.{
  NamedRule, answer_labels, record_pass, any_answer, any_finding, holds-record_pass,
}
use clickhouse_ruler.Scheduler.Limits.{QueryLimits}
use clickhouse_ruler.Scheduler.SendQueue.{SendQueue}

answer_labels-matches :
    (n : NamedRule) (s : Series) (a : Answer)
    → matches (answer_labels n a) s
      ≡ ((n.rule == s.rule) && (n.file == s.file) && covers s.check s.source a)
unfolding answer_labels matches
answer_labels-matches n s a = ground arith

-- An answer of the pass is about a series of the rule exactly where it covers its check and source.
pub any_answer-covered :
    (n : NamedRule) (s : Series) (answers : List Answer)
    → any_answer n s answers
      ≡ ((n.rule == s.rule) && (n.file == s.file) && covered s.check s.source answers)
unfolding any_answer
any_answer-covered n s [] = ground arith
any_answer-covered n s (a ∷ answers) =
    ground (arith, answer_labels-matches n s a, any_answer-covered n s answers)

abbrev pub came : Reply → Bool
came no_connection = false
came abandoned = false
came (came_back w r) = true

-- Whether the cluster of that name is one of the sources, and answered.
abbrev pub hears : (String → Reply) → String → List Source → Bool
hears reply name [] = false
hears reply name (src ∷ sources) =
    ((src.name == name) && came (reply src.name)) || hears reply name sources

module _ (E : Engine) where
  tells-evaluate_source :
      (check : String) (now : Time) (s : State) (r : Reply)
      → came r ≡ false
      → tells check (evaluate_source E now s r).1 ≡ false
  unfolding evaluate_source
  tells-evaluate_source check now s no_connection h = ground arith
  tells-evaluate_source check now s abandoned h = ground arith
  tells-evaluate_source check now s (came_back w r) h = cc

  module _ (now : Time) (reply : String → Reply) where
    evaluate_sources-cons :
        (src : Source) (sources : List Source) (states : Map String State) (s : State)
        → get src.name states ≡ some s
        → (evaluate_sources E now reply (src ∷ sources) states).1
          ≡ (src, (evaluate_source E now s (reply src.name)).1)
            ∷ (evaluate_sources E now reply sources
                (put src.name (evaluate_source E now s (reply src.name)).0 states)).1
    unfolding evaluate_sources
    evaluate_sources-cons src sources states s e = rw (e, evaluate_sources) refl

    Held-put :
        (name : String) (s : State) (states : Map String State) (sources : List Source)
        → All (λ src. get src.name states ≢ none) sources
        → All (λ src. get src.name (put name s states) ≢ none) sources
    Held-put name s states [] h = tt
    Held-put name s states (src ∷ sources) h = (
      λ e. h.0 (ground (arith, get-put src.name name s states)),
      Held-put name s states sources h.1,
    )

    -- A state for each source stays there.
    Held-evaluate_sources :
        (sources : List Source) (states : Map String State) (others : List Source)
        → All (λ src. get src.name states ≢ none) others
        → All (λ src. get src.name (evaluate_sources E now reply sources states).0 ≢ none) others
    unfolding evaluate_sources
    Held-evaluate_sources [] states others h = h
    Held-evaluate_sources (src ∷ sources) states others h =
        elim (Option-cases (get src.name states)) [
          | inl e ↦ rw (e, evaluate_sources) (Held-evaluate_sources sources states others h)
          | inr (s, e) ↦
              let s' = (evaluate_source E now s (reply src.name)).0 in
              rw (e, evaluate_sources)
                (Held-evaluate_sources sources (put src.name s' states) others
                  (Held-put src.name s' states others h))
        ]

    told-evaluate_sources :
        (check name : String) (sources : List Source) (states : Map String State)
        → All (λ src. src.name ≢ "") sources
        → All (λ src. get src.name states ≢ none) sources
        → hears reply name sources ≡ false
        → told check name (evaluate_sources E now reply sources states).1 ≡ false
    unfolding evaluate_sources
    told-evaluate_sources check name [] states named held h = refl
    told-evaluate_sources check name (src ∷ sources) states named held h =
        elim (Option-cases (get src.name states)) [
          | inl e ↦ absurd (held.0 e)
          | inr (s, e) ↦
              let states' = put src.name (evaluate_source E now s (reply src.name)).0 states in
              ap (told check name) (evaluate_sources-cons src sources states s e)
              ∙ ground (
                arith,
                tells-evaluate_source check now s (reply src.name),
                told-evaluate_sources check name sources states' named.1
                    (Held-put src.name _ states sources held.1) (ground arith),
                named.0,
                eq_iff src.name "",
              )
        ]

-- What a rule's evaluator has from NewRuleEval on: named sources, and a state for each.
pub record IsReady (e : RuleEval) : Type 0 where
  pub named : All (λ src. src.name ≢ "") e.rule.sources
  pub held : All (λ src. get src.name e.states ≢ none) e.rule.sources

module _ (E : Engine) (F : Floats) (G : GaugeVec) (lawful : IsLawful G) where
  -- The gauge after an evaluation of a rule, which `evalGroup` records.
  abbrev pub recorded :
      QueryLimits
      → (String → Reply)
      → Time
      → Time
      → NamedRule
      → RuleEval
      → SendQueue
      → G.Gauge
      → G.Gauge
  recorded l reply now queued_at n e q g =
      record_pass G n (evaluate E F l reply now queued_at e q).2 g

  -- An evaluation in which a cluster was not heard from, because its query never ran or because the rule has no
  -- source of its name, leaves standing every series about that cluster, but those of the comparison
  -- between sources.
  pub evaluate-stands :
      (l : QueryLimits) (reply : String → Reply) (now queued_at : Time) (n : NamedRule)
      (e : RuleEval) (q : SendQueue) (g : G.Gauge) (s : Series)
      → IsReady e
      → hears reply s.source e.rule.sources ≡ false
      → (check_rule_source_schema == s.check) ≡ false
      → G.holds s g ≡ true
      → G.holds s (recorded l reply now queued_at n e q g) ≡ true
  unfolding evaluate pass_result
  evaluate-stands l reply now queued_at n e q g s ready unheard check h =
      let results = (evaluate_sources E now reply e.rule.sources e.states).1 in
      holds-record_pass G lawful n s (evaluate E F l reply now queued_at e q).2 g
      ∙ ground (
        arith,
        any_answer-covered n s (answered_checks results),
        covered-answered_checks s.check s.source results,
        told-evaluate_sources E now reply s.check s.source e.rule.sources e.states ready.named
            ready.held unheard,
      )

  -- Where a check is answered for the series' cluster, the series after the evaluation are those of its findings.
  pub evaluate-rebuilds :
      (l : QueryLimits) (reply : String → Reply) (now queued_at : Time) (n : NamedRule)
      (e : RuleEval) (q : SendQueue) (g : G.Gauge) (s : Series)
      → n.rule ≡ s.rule
      → n.file ≡ s.file
      → told s.check s.source (evaluate_sources E now reply e.rule.sources e.states).1 ≡ true
      → G.holds s (recorded l reply now queued_at n e q g)
        ≡ any_finding n s (evaluate E F l reply now queued_at e q).2.problems
  unfolding evaluate pass_result
  evaluate-rebuilds l reply now queued_at n e q g s same_rule same_file answered =
      let results = (evaluate_sources E now reply e.rule.sources e.states).1 in
      holds-record_pass G lawful n s (evaluate E F l reply now queued_at e q).2 g
      ∙ ground (
        arith,
        any_answer-covered n s (answered_checks results),
        covered-answered_checks s.check s.source results,
        eq_iff n.rule s.rule,
        eq_iff n.file s.file,
      )

-- The inputs of one evaluation.
pub record Tick : Type 0 where
  pub reply : String → Reply
  pub now : Time
  pub queued_at : Time

module _ (E : Engine) (F : Floats) (G : GaugeVec) (l : QueryLimits) (n : NamedRule) where
  -- The gauge after a run of evaluations of one rule.
  abbrev pub recorded_all : List Tick → RuleEval → SendQueue → G.Gauge → G.Gauge
  recorded_all [] e q g = g
  recorded_all (t ∷ ticks) e q g =
      let (e', q', res) = evaluate E F l t.reply t.now t.queued_at e q in
      recorded_all ticks e' q' (record_pass G n res g)

module _ (E : Engine) (F : Floats) (G : GaugeVec) (lawful : IsLawful G) (l : QueryLimits)
    (n : NamedRule) where
  evaluate-IsReady :
      (t : Tick) (e : RuleEval) (q : SendQueue)
      → IsReady e
      → IsReady (evaluate E F l t.reply t.now t.queued_at e q).0
  unfolding evaluate
  evaluate-IsReady t e q ready = record {
    named = ready.named;
    held = Held-evaluate_sources E t.now t.reply e.rule.sources e.states e.rule.sources ready.held;
  }

  same_sources :
      (t : Tick) (e : RuleEval) (q : SendQueue) (s : Series)
      → All (λ src. src.name ≢ s.source) e.rule.sources
      → All
          (λ src. src.name ≢ s.source)
          (evaluate E F l t.reply t.now t.queued_at e q).0.rule.sources
  unfolding evaluate
  same_sources t e q s h = h

  hears_none :
      (reply : String → Reply) (name : String) (sources : List Source)
      → All (λ src. src.name ≢ name) sources
      → hears reply name sources ≡ false
  hears_none reply name [] h = refl
  hears_none reply name (src ∷ sources) h =
      ground (arith, h.0, eq_iff src.name name, hears_none reply name sources h.1)

  -- No number of evaluations of a rule clears a series about a source that the rule does not have.
  pub recorded_all-stands :
      (ticks : List Tick) (e : RuleEval) (q : SendQueue) (g : G.Gauge) (s : Series)
      → IsReady e
      → All (λ src. src.name ≢ s.source) e.rule.sources
      → (check_rule_source_schema == s.check) ≡ false
      → G.holds s g ≡ true
      → G.holds s (recorded_all E F G l n ticks e q g) ≡ true
  recorded_all-stands [] e q g s ready absent check h = h
  recorded_all-stands (t ∷ ticks) e q g s ready absent check h =
      let (e', q', res) = evaluate E F l t.reply t.now t.queued_at e q in
      recorded_all-stands ticks e' q' (record_pass G n res g) s (evaluate-IsReady t e q ready)
        (same_sources t e q s absent) check
        (evaluate-stands E F G lawful l t.reply t.now t.queued_at n e q g s ready
          (hears_none t.reply s.source e.rule.sources absent) check h)
