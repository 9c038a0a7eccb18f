-- ===== src/Scheduler/Gauge.antt =====
-- internal/scheduler: the gauge clickhouse_ruler_problem, whose series the evaluation, the re-check pass
-- and a reload write and delete. The vector itself is Prometheus's client library.
pub mod Memory
pub mod Pass
use clickhouse_ruler.Base.{
  ◌≡◌, Bool, true, false, ◌&&◌, ◌||◌, not, String, List, [], ◌∷◌, Option, none, some, string_eq,
  ◌==◌,
}
use clickhouse_ruler.Lint.{Severity, off, warning, error}

-- The labels of one series.
pub record Series : Type 0 where
  pub rule : String
  pub check : String
  pub severity : String
  pub team : String
  pub file : String
  pub source : String

-- prometheus.Labels, for DeletePartialMatch: a label that is none is not given.
pub record Labels : Type 0 where
  pub rule : Option String
  pub file : Option String
  pub check : Option String
  pub source : Option String

abbrev pub no_labels : Labels
no_labels = record { rule = none; file = none; check = none; source = none }

abbrev pub given : Option String → String → Bool
given none value = true
given (some want) value = want == value

unfoldable pub matches : Labels → Series → Bool
matches l s =
    given l.rule s.rule && given l.file s.file && given l.check s.check && given l.source s.source

unfoldable pub same_series : Series → Series → Bool
same_series s t =
    (s.rule == t.rule)
    && (s.check == t.check)
    && (s.severity == t.severity)
    && (s.team == t.team)
    && (s.file == t.file)
    && (s.source == t.source)

-- A GaugeVec: `raise` is WithLabelValues(...).Set(1), `delete` is DeletePartialMatch, and `holds` says
-- whether a series is exported.
pub record GaugeVec : Type 1 where
  pub Gauge : Type 0
  pub raise : Series → Gauge → Gauge
  pub delete : Labels → Gauge → Gauge
  pub holds : Series → Gauge → Bool

-- What the client library documents of the two.
pub record IsLawful (G : GaugeVec) : Type 0 where
  pub holds-raise :
      (s t : Series) (g : G.Gauge) → G.holds s (G.raise t g) ≡ (same_series s t || G.holds s g)
  pub holds-delete :
      (s : Series) (l : Labels) (g : G.Gauge)
      → G.holds s (G.delete l g) ≡ (not (matches l s) && G.holds s g)

-- Severity.String
abbrev pub severity_text : Severity → String
severity_text off = "off"
severity_text warning = "warning"
severity_text error = "error"
