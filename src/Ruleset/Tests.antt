-- ===== src/Ruleset/Tests.antt =====
-- Two rules with one label set, and two rules that the identity takes for one.
use clickhouse_ruler.Base.{◌≡◌, length, refl, true, String, List, [], ◌∷◌, none, pos, string_eq}
use clickhouse_ruler.GoMap.{Map, get, WellKeyed}
use clickhouse_ruler.Rule.{Rule, Group}
use clickhouse_ruler.Source.{Source}
use clickhouse_ruler.Alert.Labels.{same_labels}
use clickhouse_ruler.Ruleset.{LoadedRule, alert_identity}
use clickhouse_ruler.Ruleset.Duplicates.{
  duplicate_alerts, duplicates_from, duplicate_of, reports_after, duplicate_alerts_lem,
}
use clickhouse_ruler.Ruleset.Identity.{alert_identity-clash}

abbrev cluster : String → Source
cluster name = record {
  name = name;
  table = "logs";
  timestamp_column = "at";
  evaluation_delay = pos 0;
  max_rows = pos 10;
  max_concurrent_queries = pos 1;
  labels = [];
  policy = none;
  exemptions = [];
}

abbrev errors_rule : Rule
errors_rule = record {
  alert = "Errors";
  expr = "SELECT count() AS value FROM logs";
  sources = ("env", "prod") ∷ [];
  window = pos 60;
  for_duration = pos 0;
  keep_firing_for = pos 0;
  labels = [];
  annotations = [];
  lines = record { start = 3; keys = ("alert", 4) ∷ [] };
}

abbrev web : Group
web = record {
  name = "web";
  interval = pos 60;
  labels = [];
  rules = errors_rule ∷ [];
  lines = record { start = 1; keys = [] };
}

-- A loaded rule with the labels and the sources given.
abbrev loaded : Map String String → List Source → LoadedRule
loaded labels sources = record {
  rule = errors_rule;
  file = "/rules/web.yaml";
  path = "web.yaml";
  group = web;
  labels = labels;
  sources = sources;
  policy = none;
}

abbrev severity_first : LoadedRule
severity_first = loaded (("severity", "page") ∷ ("team", "core") ∷ []) (cluster "prod" ∷ [])

abbrev team_first : LoadedRule
team_first = loaded (("team", "core") ∷ ("severity", "page") ∷ []) (cluster "prod" ∷ [])

severity_first_keyed : WellKeyed severity_first.labels
unfolding get
severity_first_keyed = (refl, (refl, tt))

team_first_keyed : WellKeyed team_first.labels
unfolding get
team_first_keyed = (refl, (refl, tt))

one_label_map : same_labels severity_first.labels team_first.labels ≡ true
unfolding same_labels get
one_label_map = refl

alert_identity-clash_example :
    alert_identity (loaded (("a", "b") ∷ []) (cluster "prod" ∷ []))
    ≡ alert_identity (loaded [] (cluster "a" ∷ cluster "b" ∷ cluster "prod" ∷ []))
alert_identity-clash_example =
    alert_identity-clash (loaded [] (cluster "prod" ∷ [])) "a" "b" (cluster "a") (cluster "b") refl
      refl

duplicate_alerts_example :
    duplicate_alerts [] (severity_first ∷ loaded [] [] ∷ team_first ∷ [])
    ≡ reports_after [] [] (severity_first ∷ loaded [] [] ∷ team_first ∷ [])
duplicate_alerts_example = duplicate_alerts_lem [] (severity_first ∷ loaded [] [] ∷ team_first ∷ [])

second_is_reported :
    length (duplicate_alerts [] (severity_first ∷ loaded [] [] ∷ team_first ∷ [])) ≡ 1
unfolding duplicate_alerts duplicates_from duplicate_of
second_is_reported = refl
