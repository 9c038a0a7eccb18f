-- ===== src/Scheduler/Gauge/Pass.antt =====
-- internal/scheduler/scheduler.go: evalGroup's part of the gauge, which is rebuilt from each evaluation of a rule.
use clickhouse_ruler.Base.{
  ◌≡◌, refl, ◌∙◌, ap, Bool, false, ◌&&◌, ◌||◌, not, String, List, [], ◌∷◌, none, some,
  if◌then◌else◌, string_eq, ◌==◌, arith,
}
use clickhouse_ruler.Scheduler.Drift.{RuleFinding}
use clickhouse_ruler.Scheduler.Evaluate.Results.{Answer, PassResult}
use clickhouse_ruler.Scheduler.Gauge.{
  Series, Labels, matches, same_series, GaugeVec, IsLawful, severity_text,
}

-- namedEval, without its evaluator.
pub record NamedRule : Type 0 where
  pub rule : String
  pub team : String
  pub file : String

unfoldable pub answer_labels : NamedRule → Answer → Labels
answer_labels n a = record {
  rule = some n.rule;
  file = some n.file;
  check = some a.check;
  source = if a.source == "" then none else some a.source;
}

unfoldable pub finding_series : NamedRule → RuleFinding → Series
finding_series n f = record {
  rule = n.rule;
  check = f.problem.check;
  severity = severity_text f.problem.severity;
  team = n.team;
  file = n.file;
  source = f.source;
}

module _ (G : GaugeVec) where
  unfoldable pub clear_answered : NamedRule → List Answer → G.Gauge → G.Gauge
  unfolding answer_labels
  clear_answered n [] g = g
  clear_answered n (a ∷ answers) g = clear_answered n answers (G.delete (answer_labels n a) g)

  unfoldable pub raise_findings : NamedRule → List RuleFinding → G.Gauge → G.Gauge
  unfolding finding_series
  raise_findings n [] g = g
  raise_findings n (f ∷ findings) g = raise_findings n findings (G.raise (finding_series n f) g)

  -- One evaluation of a rule, in evalGroup.
  unfoldable pub record_pass : NamedRule → PassResult → G.Gauge → G.Gauge
  unfolding clear_answered raise_findings
  record_pass n res g = raise_findings n res.problems (clear_answered n res.answered g)

-- Whether some answer of the pass is about a series, and whether some finding of it is.
unfoldable pub any_answer : NamedRule → Series → List Answer → Bool
unfolding answer_labels matches
any_answer n s [] = false
any_answer n s (a ∷ answers) = matches (answer_labels n a) s || any_answer n s answers

unfoldable pub any_finding : NamedRule → Series → List RuleFinding → Bool
unfolding finding_series same_series
any_finding n s [] = false
any_finding n s (f ∷ findings) = same_series s (finding_series n f) || any_finding n s findings

module _ (G : GaugeVec) (lawful : IsLawful G) (n : NamedRule) (s : Series) where
  holds-clear_answered :
      (answers : List Answer) (g : G.Gauge)
      → G.holds s (clear_answered G n answers g) ≡ (not (any_answer n s answers) && G.holds s g)
  unfolding clear_answered any_answer
  holds-clear_answered [] g = refl
  holds-clear_answered (a ∷ answers) g = ground (
    arith,
    holds-clear_answered answers (G.delete (answer_labels n a) g),
    lawful.holds-delete s (answer_labels n a) g,
  )

  pub holds-raise_findings :
      (findings : List RuleFinding) (g : G.Gauge)
      → G.holds s (raise_findings G n findings g) ≡ (any_finding n s findings || G.holds s g)
  unfolding raise_findings any_finding
  holds-raise_findings [] g = refl
  holds-raise_findings (f ∷ findings) g = ground (
    arith,
    holds-raise_findings findings (G.raise (finding_series n f) g),
    lawful.holds-raise s (finding_series n f) g,
  )

  -- After an evaluation of a rule is recorded, a series is exported exactly where a finding of the evaluation is
  -- on it, or it was exported and no check that the evaluation answered is about it.
  pub holds-record_pass :
      (res : PassResult) (g : G.Gauge)
      → G.holds s (record_pass G n res g)
        ≡ (any_finding n s res.problems || (not (any_answer n s res.answered) && G.holds s g))
  unfolding record_pass
  holds-record_pass res g =
      holds-raise_findings res.problems (clear_answered G n res.answered g)
      ∙ ap (λ b. any_finding n s res.problems || b) (holds-clear_answered res.answered g)
