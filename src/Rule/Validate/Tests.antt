-- ===== src/Rule/Validate/Tests.antt =====
-- A group of two rules of one name, the second without a lower bound and with a reserved annotation.
use clickhouse_ruler.Base.{◌≡◌, refl, List, [], ◌∷◌, none, some, ok, pos, negsuc, is_nil, map}
use clickhouse_ruler.Policy.{defaults}
use clickhouse_ruler.Rule.{Rule, RuleFile}
use clickhouse_ruler.Rule.Template.{other}
use clickhouse_ruler.Rule.Checks.{Library}
use clickhouse_ruler.Rule.Validate.{validate, or_defaults}
use clickhouse_ruler.Rule.Validate.Clean.{sound_groups, is_nil-validate}

abbrev library : Library
library = record {
  parse = λ name text. ok other;
  parse_url = λ text. some ("https", "runbooks");
  quote = λ s. s;
  print_duration = λ d. "1m";
}

abbrev latency : Rule
latency = record {
  alert = "Latency";
  expr = "SELECT 1 WHERE at >= {{ .From }} AND at < {{- .To }}";
  sources = [];
  window = pos 60;
  for_duration = pos 0;
  keep_firing_for = pos 0;
  labels = ("team", "core") ∷ ("severity", "page") ∷ [];
  annotations = ("summary", "slow") ∷ ("runbook_url", "https://runbooks") ∷ [];
  lines = record { start = 4; keys = [] };
}

abbrev copied : Rule
copied = record latency {
  expr = "SELECT 1 WHERE at < {{ .To }}";
  window = negsuc 59;
  annotations = ("ruler_error", "mine") ∷ latency.annotations;
}

abbrev file_of : List Rule → RuleFile
file_of rules = record {
  file = "web.yaml";
  groups =
      record {
        name = "web";
        interval = pos 60;
        labels = [];
        rules = rules;
        lines = record { start = 1; keys = [] };
      }
      ∷ [];
}

is_nil-validate_example :
    is_nil (validate library (file_of (latency ∷ copied ∷ [])) none)
    ≡ sound_groups library "web.yaml" (or_defaults none) [] (file_of (latency ∷ copied ∷ [])).groups
is_nil-validate_example = is_nil-validate library (file_of (latency ∷ copied ∷ [])) none

latency_run : validate library (file_of (latency ∷ [])) none ≡ []
unfolding validate defaults
latency_run = refl

copied_run :
    map (λ p. p.check) (validate library (file_of (latency ∷ copied ∷ [])) none)
    ≡ "rule/name" ∷ "rule/expr" ∷ "annotations/protected" ∷ "rule/window" ∷ []
unfolding validate defaults
copied_run = refl
