-- ===== src/Alert/Tests.antt =====
-- A rule that fires on two hosts, run at concrete times.
use clickhouse_ruler.Base.{
  arith, ℕ, ◌≡◌, refl, true, false, ◌⊎◌, String, List, [], ◌∷◌, none, map, Result, ok, err, pos,
  string_eq,
}
use clickhouse_ruler.GoMap.{Map, get, WellKeyed}
use clickhouse_ruler.Rule.{Rule}
use clickhouse_ruler.Rule.Template.{Node, field}
use clickhouse_ruler.Source.{Source}
use clickhouse_ruler.Alert.Data.{LabelSet, Sample}
use clickhouse_ruler.Alert.Labels.{same_labels, base_labels, labels_for}
use clickhouse_ruler.GoMap.Laws.{or_else}
use clickhouse_ruler.Alert.Labels.Precedence.{effective, get-labels_for}
use clickhouse_ruler.Alert.Fingerprint.{bytes, hashed, fingerprint}
use clickhouse_ruler.Alert.Fingerprint.Respects.{fingerprint-same_labels}
use clickhouse_ruler.Alert.Fingerprint.Distinct.{hashed-same_labels}
use clickhouse_ruler.Alert.Annotate.{Engine}
use clickhouse_ruler.Alert.State.{State, DuplicateLabelSet, bucket, label_row}
use clickhouse_ruler.Alert.State.Step.{Evaluated, eval, new_state, adopt}
use clickhouse_ruler.Alert.State.Machine.{find, row_for, advance, Inv, Respects}
use clickhouse_ruler.Alert.State.Rows.{DistinctRows}
use clickhouse_ruler.Alert.State.Eval.{eval-advance, eval-Inv}
use clickhouse_ruler.Alert.State.Refusal.{eval_refused_iff, eval_refused_cases}
use clickhouse_ruler.Alert.State.Timely.{AllTimely, eval-Timely}
use clickhouse_ruler.Alert.State.Adopt.{Kept, adopt-same_labels}

abbrev parse_field : String → String → Result String Node
parse_field name s = ok (field (s ∷ []))

abbrev run_field : Node → Map String String → Result String String
run_field n values = ok "rendered"

abbrev format_one : ℕ → String
format_one bits = "1"

abbrev quote_none : String → String
quote_none s = s

abbrev engine : Engine
engine = record {
  parse = parse_field;
  run = run_field;
  format_float = format_one;
  quote = quote_none;
}

abbrev errors_rule : Rule
errors_rule = record {
  alert = "Errors";
  expr = "SELECT host, count() AS value FROM logs";
  sources = ("env", "prod") ∷ [];
  window = pos 60;
  for_duration = pos 10;
  keep_firing_for = pos 0;
  labels = ("severity", "page") ∷ [];
  annotations = ("summary", "errors") ∷ [];
  lines = record { start = 1; keys = [] };
}

abbrev prod : Source
prod = record {
  name = "prod-1";
  table = "logs";
  timestamp_column = "at";
  evaluation_delay = pos 0;
  max_rows = pos 100;
  max_concurrent_queries = pos 1;
  labels = ("env", "prod") ∷ [];
  policy = none;
  exemptions = [];
}

-- Every label set has the same hash, so the two instances share a bucket.
abbrev one_bucket : LabelSet → ℕ
one_bucket labels = 7

one_bucket-Respects : Respects one_bucket
one_bucket-Respects a b wa wb h = refl

abbrev start : State
start = record (new_state engine errors_rule (("team", "core") ∷ []) prod (pos 400)) {
  hash = one_bucket;
}

abbrev row_a : Sample
row_a = record { labels = ("host", "a") ∷ []; value = 3 }

abbrev row_b : Sample
row_b = record { labels = ("host", "b") ∷ []; value = 4 }

abbrev both_hosts : List Sample
both_hosts = row_a ∷ row_b ∷ []

start-Inv : Inv start
unfolding new_state get
start-Inv = record { keyed = tt; base_keyed = (refl, (refl, tt)); buckets = tt }

abbrev once : State
once = (eval engine start 100 both_hosts).0

abbrev host_a : LabelSet
host_a = labels_for start.base errors_rule prod row_a

base_labels_keyed : WellKeyed (base_labels errors_rule (("team", "core") ∷ []))
unfolding base_labels get
base_labels_keyed = (refl, (refl, tt))

once-Inv : Inv once
unfolding new_state
once-Inv = eval-Inv engine start 100 both_hosts one_bucket-Respects start-Inv

host_a-keyed : WellKeyed host_a
unfolding labels_for get new_state
host_a-keyed = (refl, (refl, (refl, (refl, (refl, (refl, tt))))))

first_goes_through : DistinctRows (map (label_row start) both_hosts)
unfolding label_row row_for new_state same_labels get
first_goes_through = (refl, (refl, tt))

abbrev twice_result : Result DuplicateLabelSet Evaluated
twice_result = (eval engine once 120 (row_a ∷ [])).1

twice_ok : (r : Evaluated) × (twice_result ≡ ok r)
unfolding eval new_state
twice_ok = (_, refl)

eval-advance_example :
    find host_a (eval engine once 120 (row_a ∷ [])).0
    ≡ advance engine once 120
        (row_for host_a (map (label_row once) (row_a ∷ [])))
        (find host_a once)
unfolding new_state eval same_labels
eval-advance_example =
    eval-advance engine once 120 (row_a ∷ []) host_a one_bucket-Respects once-Inv host_a-keyed
      twice_ok.1

eval-Inv_example : Inv (eval engine once 120 (row_a ∷ [])).0
unfolding new_state eval same_labels
eval-Inv_example = eval-Inv engine once 120 (row_a ∷ []) one_bucket-Respects once-Inv

eval_refused_example :
    (((r : Evaluated) × ((eval engine start 100 both_hosts).1 ≡ ok r))
      × DistinctRows (map (label_row start) both_hosts))
    ⊎ (((d : DuplicateLabelSet) × ((eval engine start 100 both_hosts).1 ≡ err d))
        × ((¬ DistinctRows (map (label_row start) both_hosts))
            × ((eval engine start 100 both_hosts).0 ≡ start)))
unfolding new_state
eval_refused_example = eval_refused_cases start engine 100 both_hosts one_bucket-Respects

first_ok : (r : Evaluated) × ((eval engine start 100 both_hosts).1 ≡ ok r)
unfolding new_state
first_ok = (eval_refused_iff start engine 100 both_hosts one_bucket-Respects).0.1 first_goes_through

nothing_tracked : AllTimely start (find host_a start)
unfolding new_state find bucket
nothing_tracked = tt

eval-Timely_example : AllTimely start (find host_a (eval engine start 100 both_hosts).0)
unfolding new_state
eval-Timely_example =
    eval-Timely engine start 100 both_hosts host_a one_bucket-Respects start-Inv host_a-keyed
      first_ok.1 nothing_tracked

start_base_keyed : WellKeyed start.base
start_base_keyed = start-Inv.base_keyed

prod_keyed : WellKeyed prod.labels
unfolding get
prod_keyed = (refl, tt)

row_a_keyed : WellKeyed row_a.labels
unfolding get
row_a_keyed = (refl, tt)

-- A group and a rule that both set the team.
abbrev team_rule : Rule
team_rule = record errors_rule { labels = ("team", "storage") ∷ [] }

get-labels_for_example :
    get "team" (labels_for (base_labels team_rule (("team", "core") ∷ [])) team_rule prod row_a)
    ≡ effective
        (or_else (get "team" team_rule.labels) (get {K = String} "team" (("team", "core") ∷ [])))
        team_rule
        prod
        row_a
        "team"
unfolding get
get-labels_for_example =
    get-labels_for team_rule (("team", "core") ∷ []) prod row_a "team" (refl, tt) (refl, tt)
      prod_keyed row_a_keyed

once_src_keyed : WellKeyed once.src.labels
unfolding eval new_state same_labels get
once_src_keyed = (refl, tt)

adopt_example :
    (((adopt engine once errors_rule (("team", "core") ∷ []) prod (pos 500)).1 ≡ false)
      × ((adopt engine once errors_rule (("team", "core") ∷ []) prod (pos 500)).0 ≡ once))
    ⊎ (((adopt engine once errors_rule (("team", "core") ∷ []) prod (pos 500)).1 ≡ true)
        × Kept once row_a (adopt engine once errors_rule (("team", "core") ∷ []) prod (pos 500)).0)
adopt_example =
    adopt-same_labels engine once errors_rule (("team", "core") ∷ []) prod (pos 500) row_a
      base_labels_keyed once-Inv.base_keyed prod_keyed once_src_keyed row_a_keyed

-- One label set, in both orders of its map.
abbrev host_first : LabelSet
host_first = ("host", "a") ∷ ("env", "prod") ∷ []

abbrev env_first : LabelSet
env_first = ("env", "prod") ∷ ("host", "a") ∷ []

host_first_keyed : WellKeyed host_first
unfolding get
host_first_keyed = (refl, (refl, tt))

env_first_keyed : WellKeyed env_first
unfolding get
env_first_keyed = (refl, (refl, tt))

one_label_set : same_labels host_first env_first ≡ true
unfolding same_labels get
one_label_set = refl

fingerprint_example : fingerprint host_first ≡ fingerprint env_first
fingerprint_example =
    fingerprint-same_labels host_first env_first host_first_keyed env_first_keyed one_label_set

hashed_example : same_labels host_first env_first ≡ true
unfolding hashed get bytes
hashed_example =
    hashed-same_labels host_first env_first host_first_keyed env_first_keyed
      (((omega arith, omega arith), ((omega arith, omega arith), tt)))
      (((omega arith, omega arith), ((omega arith, omega arith), tt))) refl
