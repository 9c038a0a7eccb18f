-- ===== src/Scheduler/Recheck.antt =====
-- internal/scheduler/recheck.go: the pass that samples recent data. What becomes of a source's sample is a parameter; the
-- log lines are not modelled.
pub mod Asked
use clickhouse_ruler.Base.{
  ℕ, suc, String, List, [], ◌∷◌, ◌++◌, Option, none, some, Time, Result, ok, err, string_eq,
}
use clickhouse_ruler.GoMap.{Map, get, put}
use clickhouse_ruler.Policy.{merge}
use clickhouse_ruler.Source.{Source}
use clickhouse_ruler.Query.{Finding}
use clickhouse_ruler.Query.KeySample.{SampleChecks, sampling_from_policy, check_attribute_key}
use clickhouse_ruler.Ruleset.{LoadedRule}
use clickhouse_ruler.Scheduler.Drift.{RuleFinding, runtime_problem, at_source}
use clickhouse_ruler.Scheduler.Gauge.{GaugeVec, Labels}
use clickhouse_ruler.Scheduler.Gauge.Pass.{NamedRule, raise_findings}

-- What becomes of a sample: there is no connection for the source, the shutdown came while it was queued, or it was
-- made and failed or answered.
pub data SampleReply : Type 0 where
  unconnected : SampleReply
  abandoned : SampleReply
  sampled : Result String (List Finding) → SampleReply

pub record Refusal : Type 0 where
  pub source : String
  pub err : String

pub record Recheck : Type 0 where
  pub problems : List RuleFinding
  pub asked : List String
  pub refused : List Refusal

-- What a sample's findings are reported as.
unfoldable pub sample_problems : LoadedRule → Source → Time → List Finding → List RuleFinding
unfolding runtime_problem
sample_problems r src now [] = []
sample_problems r src now (f ∷ findings) =
    at_source src.name none (runtime_problem r src now f) ++ sample_problems r src now findings

unfoldable pub sampling_of : LoadedRule → Source → Option SampleChecks
unfolding sampling_from_policy merge
sampling_of r src = sampling_from_policy (some (merge (r.policy ∷ src.policy ∷ [])))

-- One round of the loop of recheckRuleOnce, before what the later rounds add.
unfoldable pub recheck_reply :
    LoadedRule → Source → Time → Option SampleChecks → SampleReply → Recheck → Recheck
unfolding sample_problems
recheck_reply r src now wanted unconnected rest = rest
recheck_reply r src now none abandoned rest = record rest { asked = src.name ∷ rest.asked }
recheck_reply r src now none (sampled answer) rest = record rest { asked = src.name ∷ rest.asked }
recheck_reply r src now (some checks) abandoned rest = rest
recheck_reply r src now (some checks) (sampled (err e)) rest = record rest {
  refused = record { source = src.name; err = e } ∷ rest.refused;
}
recheck_reply r src now (some checks) (sampled (ok findings)) rest = record rest {
  asked = src.name ∷ rest.asked;
  problems = sample_problems r src now findings ++ rest.problems;
}

abbrev pub nothing_asked : Recheck
nothing_asked = record { problems = []; asked = []; refused = [] }

unfoldable pub recheck_sources :
    (String → Option SampleChecks → SampleReply) → LoadedRule → Time → List Source → Recheck
unfolding sampling_of recheck_reply
recheck_sources sample r now [] = nothing_asked
recheck_sources sample r now (src ∷ sources) =
    let wanted = sampling_of r src in
    recheck_reply r src now wanted (sample src.name wanted) (recheck_sources sample r now sources)

-- recheckRuleOnce
unfoldable pub recheck_rule_once :
    (String → Option SampleChecks → SampleReply) → LoadedRule → Time → Recheck
unfolding recheck_sources
recheck_rule_once sample r now = recheck_sources sample r now r.sources

-- RecheckSampleFailures
unfoldable pub count_refused : List Refusal → Map String ℕ → Map String ℕ
unfolding get put
count_refused [] failures = failures
count_refused (f ∷ refused) failures =
    count_refused refused
      (put f.source (elim (get f.source failures) [ none ↦ 1 | some n ↦ suc n ]) failures)

unfoldable pub attribute_labels : NamedRule → String → Labels
attribute_labels n source = record {
  rule = some n.rule;
  file = some n.file;
  check = some check_attribute_key;
  source = some source;
}

module _ (G : GaugeVec) where
  unfoldable pub clear_asked : NamedRule → List String → G.Gauge → G.Gauge
  unfolding attribute_labels
  clear_asked n [] g = g
  clear_asked n (source ∷ asked) g = clear_asked n asked (G.delete (attribute_labels n source) g)

  -- One rule in recheckPass.
  unfoldable pub record_recheck : NamedRule → Recheck → G.Gauge → G.Gauge
  unfolding clear_asked raise_findings
  record_recheck n answer g = raise_findings G n answer.problems (clear_asked n answer.asked g)

  -- recheckPass, over what each rule's sources answer.
  unfoldable pub recheck_pass :
      (LoadedRule → String → Option SampleChecks → SampleReply)
      → Time
      → List (LoadedRule × NamedRule)
      → G.Gauge × Map String ℕ
      → G.Gauge × Map String ℕ
  unfolding recheck_rule_once record_recheck count_refused
  recheck_pass sample now [] s = s
  recheck_pass sample now ((r, n) ∷ rules) (g, failures) =
      let answer = recheck_rule_once (sample r) r now in
      recheck_pass sample now rules
        (record_recheck n answer g, count_refused answer.refused failures)
