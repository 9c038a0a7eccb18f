-- ===== src/Scheduler/Recheck/Asked.antt =====
-- internal/scheduler/recheck.go: what the pass leaves on the gauge about a cluster.
use clickhouse_ruler.Base.{
  ◌≡◌, refl, ◌∙◌, Bool, true, false, ◌&&◌, ◌||◌, String, List, [], ◌∷◌, ◌++◌, Option, none, some,
  string_eq, ◌==◌, eq_iff, arith, Time, ok, err,
}
use clickhouse_ruler.Lint.{Problem}
use clickhouse_ruler.Source.{Source}
use clickhouse_ruler.Query.{Finding}
use clickhouse_ruler.Query.KeySample.{SampleChecks}
use clickhouse_ruler.Ruleset.{LoadedRule}
use clickhouse_ruler.Scheduler.Drift.{RuleFinding, runtime_problem, at_source}
use clickhouse_ruler.Scheduler.Gauge.{Series, GaugeVec, IsLawful, matches, same_series}
use clickhouse_ruler.Scheduler.Gauge.Pass.{
  NamedRule, any_finding, finding_series, holds-raise_findings,
}
use clickhouse_ruler.Scheduler.Recheck.{
  SampleReply, unconnected, abandoned, sampled, Recheck, sampling_of, sample_problems,
  recheck_reply, recheck_sources, recheck_rule_once, attribute_labels, clear_asked, record_recheck,
}

abbrev pub among : String → List String → Bool
among name [] = false
among name (x ∷ xs) = (x == name) || among name xs

-- Whether a source counts as asked: its sample answered, or the check is off for it.
abbrev pub settled : SampleReply → Option SampleChecks → Bool
settled unconnected wanted = false
settled abandoned none = true
settled abandoned (some checks) = false
settled (sampled answer) none = true
settled (sampled (ok findings)) (some checks) = true
settled (sampled (err e)) (some checks) = false

module _ (sample : String → Option SampleChecks → SampleReply) (r : LoadedRule) where
  -- Whether a source of that name counts as asked.
  abbrev pub was_asked : String → List Source → Bool
  was_asked name [] = false
  was_asked name (src ∷ sources) =
      ((src.name == name) && settled (sample src.name (sampling_of r src)) (sampling_of r src))
      || was_asked name sources

module _ (n : NamedRule) (s : Series) where
  any_finding-append :
      (xs ys : List RuleFinding)
      → any_finding n s (xs ++ ys) ≡ (any_finding n s xs || any_finding n s ys)
  unfolding any_finding
  any_finding-append [] ys = refl
  any_finding-append (x ∷ xs) ys = ground (arith, any_finding-append xs ys)

  -- A finding is on a series only where it is about the same cluster.
  any_finding-at_source :
      (name : String) (e : Option String) (ps : List Problem)
      → (name == s.source) ≡ false
      → any_finding n s (at_source name e ps) ≡ false
  unfolding any_finding same_series finding_series
  any_finding-at_source name e [] h = refl
  any_finding-at_source name e (p ∷ ps) h =
      ground (arith, any_finding-at_source name e ps h, eq_iff name s.source, eq_iff s.source name)

  any_finding-sample_problems :
      (r : LoadedRule) (src : Source) (now : Time) (findings : List Finding)
      → (src.name == s.source) ≡ false
      → any_finding n s (sample_problems r src now findings) ≡ false
  unfolding sample_problems any_finding
  any_finding-sample_problems r src now [] h = refl
  any_finding-sample_problems r src now (f ∷ findings) h =
      any_finding-append (at_source src.name none (runtime_problem r src now f)) _
      ∙ ground (
        arith,
        any_finding-at_source src.name none (runtime_problem r src now f) h,
        any_finding-sample_problems r src now findings h,
      )

  any_finding-recheck_reply :
      (r : LoadedRule) (src : Source) (now : Time) (wanted : Option SampleChecks)
      (reply : SampleReply) (rest : Recheck)
      → ((src.name == s.source) && settled reply wanted) ≡ false
      → any_finding n s (recheck_reply r src now wanted reply rest).problems
        ≡ any_finding n s rest.problems
  unfolding recheck_reply
  any_finding-recheck_reply r src now wanted unconnected rest h = refl
  any_finding-recheck_reply r src now none abandoned rest h = refl
  any_finding-recheck_reply r src now none (sampled answer) rest h = refl
  any_finding-recheck_reply r src now (some checks) abandoned rest h = refl
  any_finding-recheck_reply r src now (some checks) (sampled (err e)) rest h = refl
  any_finding-recheck_reply r src now (some checks) (sampled (ok findings)) rest h =
      any_finding-append (sample_problems r src now findings) rest.problems
      ∙ ground (arith, any_finding-sample_problems r src now findings)

among-recheck_reply :
    (r : LoadedRule) (src : Source) (now : Time) (wanted : Option SampleChecks)
    (reply : SampleReply) (rest : Recheck) (name : String)
    → among name (recheck_reply r src now wanted reply rest).asked
      ≡ (((src.name == name) && settled reply wanted) || among name rest.asked)
unfolding recheck_reply
among-recheck_reply r src now wanted unconnected rest name = ground arith
among-recheck_reply r src now none abandoned rest name = ground arith
among-recheck_reply r src now none (sampled answer) rest name = ground arith
among-recheck_reply r src now (some checks) abandoned rest name = ground arith
among-recheck_reply r src now (some checks) (sampled (err e)) rest name = ground arith
among-recheck_reply r src now (some checks) (sampled (ok findings)) rest name = ground arith

module _ (sample : String → Option SampleChecks → SampleReply) (r : LoadedRule) (now : Time)
    (n : NamedRule) (s : Series) where
  among-recheck_sources :
      (sources : List Source)
      → among s.source (recheck_sources sample r now sources).asked
        ≡ was_asked sample r s.source sources
  unfolding recheck_sources
  among-recheck_sources [] = refl
  among-recheck_sources (src ∷ sources) =
      among-recheck_reply r src now (sampling_of r src) (sample src.name (sampling_of r src))
        (recheck_sources sample r now sources) s.source
      ∙ ground (arith, among-recheck_sources sources)

  any_finding-recheck_sources :
      (sources : List Source)
      → was_asked sample r s.source sources ≡ false
      → any_finding n s (recheck_sources sample r now sources).problems ≡ false
  unfolding recheck_sources any_finding
  any_finding-recheck_sources [] h = refl
  any_finding-recheck_sources (src ∷ sources) h =
      any_finding-recheck_reply n s r src now (sampling_of r src)
        (sample src.name (sampling_of r src)) (recheck_sources sample r now sources) (ground arith)
      ∙ any_finding-recheck_sources sources (ground arith)

module _ (G : GaugeVec) (lawful : IsLawful G) (n : NamedRule) (s : Series) where
  holds-clear_asked :
      (asked : List String) (g : G.Gauge)
      → among s.source asked ≡ false
      → G.holds s (clear_asked G n asked g) ≡ G.holds s g
  unfolding clear_asked attribute_labels matches
  holds-clear_asked [] g h = refl
  holds-clear_asked (x ∷ asked) g h =
      holds-clear_asked asked (G.delete (attribute_labels n x) g) (ground arith)
      ∙ ground (arith, lawful.holds-delete s (attribute_labels n x) g)

  -- The re-check of a rule leaves every series about a cluster as it was that it did not hear from: there is no
  -- connection for it, the shutdown came first or its sample failed, or the rule has no source of the
  -- name. A source that the check is off for counts as heard.
  pub recheck-unheard :
      (sample : String → Option SampleChecks → SampleReply) (r : LoadedRule) (now : Time)
      (g : G.Gauge)
      → was_asked sample r s.source r.sources ≡ false
      → G.holds s (record_recheck G n (recheck_rule_once sample r now) g) ≡ G.holds s g
  unfolding record_recheck recheck_rule_once
  recheck-unheard sample r now g h =
      let answer = recheck_sources sample r now r.sources in
      holds-raise_findings G lawful n s answer.problems (clear_asked G n answer.asked g)
      ∙ ground (
        arith,
        any_finding-recheck_sources sample r now n s r.sources h,
        holds-clear_asked answer.asked g (among-recheck_sources sample r now n s r.sources ∙ h),
      )
