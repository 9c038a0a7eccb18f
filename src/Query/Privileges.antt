-- ===== src/Query/Privileges.antt =====
-- internal/query/privileges.go: what a source's ClickHouse user is granted, against the user contract. What the driver
-- answers to a statement is a parameter; a server's error codes are not negative.
pub mod Settings
pub mod Answers
pub mod Contract
mod Tests
pub mod Verdict
use clickhouse_ruler.Base.{
  Bool, false, not, String, List, [], ◌∷◌, ◌++◌, Option, none, some, Result, ok, err, keep_if,
  if◌then◌else◌, string_eq, ◌==◌,
}
use clickhouse_ruler.Text.{concat, join}
use clickhouse_ruler.Policy.{contains}
use clickhouse_ruler.Query.Privileges.Answers.{
  sources_revoked, readonly, constraints, table_readable, clusters_readable, Status, Assertion,
  DriverError, classify_probe, classify_readable, classify_countable, quote_ident, passes, fails,
  inconclusive,
}
use clickhouse_ruler.Query.Privileges.Settings.{
  SettingRow, eval_readonly, constrained_names, eval_constraints,
}

-- assertionOrder
abbrev pub assertion_order : List String
assertion_order = sources_revoked ∷ readonly ∷ constraints ∷ table_readable ∷ clusters_readable ∷ []

pub record Probe : Type 0 where
  pub privilege : String
  pub sql : String

abbrev pub probes : List Probe
probes =
    record {
      privilege = "URL";
      sql = "SELECT 1 FROM url('http://127.0.0.1:1/', 'CSV', 'probe String') LIMIT 1";
    }
    ∷ record {
      privilege = "FILE";
      sql = "SELECT 1 FROM file('ruler-privilege-probe.csv', 'CSV', 'probe String') LIMIT 1";
    }
    ∷ record {
      privilege = "REMOTE";
      sql = "SELECT 1 FROM remote('127.0.0.1:1', system, one) LIMIT 1";
    }
    ∷ record {
      privilege = "S3";
      sql =
          "SELECT 1 FROM s3('http://127.0.0.1:1/ruler-privilege-probe.csv', 'CSV', 'probe String') LIMIT 1";
    }
    ∷ []

-- The connection and the source: Exec, whether the check's own context is alive after it, the rows of
-- system.settings for names, the engine that system.tables names for the source's table, and the
-- source's table.
pub record Connection : Type 0 where
  pub exec : String → Option DriverError
  pub is_alive : String → Bool
  pub settings : List String → Result String (List SettingRow)
  pub engine : Option String
  pub database : String
  pub table : String

-- selected
unfoldable pub selected : List String → List String
unfolding contains
selected require = keep_if (λ name. contains name require) assertion_order

-- The lists `granted` and `unknown` of assertSourcesRevoked, each with one more probe.
unfoldable pub sort_out :
    String → Status × String → List String × List String → List String × List String
unfolding concat
sort_out privilege (passes, detail) (granted, unknown) = (granted, unknown)
sort_out privilege (fails, detail) (granted, unknown) =
    (concat (privilege ∷ " (" ∷ detail ∷ ")" ∷ []) ∷ granted, unknown)
sort_out privilege (inconclusive, detail) (granted, unknown) =
    (granted, concat (privilege ∷ " (" ∷ detail ∷ ")" ∷ []) ∷ unknown)

unfoldable pub run_probes : Connection → List Probe → List String × List String
unfolding classify_probe sort_out
run_probes c [] = ([], [])
run_probes c (p ∷ ps) =
    sort_out p.privilege (classify_probe (c.exec p.sql) (c.is_alive p.sql)) (run_probes c ps)

unfoldable pub revoked_verdict : List String × List String → Assertion
unfolding concat join
revoked_verdict ([], []) = record { name = sources_revoked; status = passes; detail = "" }
revoked_verdict ([], u ∷ unknown) = record {
  name = sources_revoked;
  status = inconclusive;
  detail = join ", " (u ∷ unknown);
}
revoked_verdict (g ∷ granted, unknown) = record {
  name = sources_revoked;
  status = fails;
  detail =
      concat ("a rule can read data the row policies never see: " ∷ join ", " (g ∷ granted) ∷ []);
}

unfoldable pub assert_sources_revoked : Connection → Assertion
unfolding run_probes revoked_verdict
assert_sources_revoked c = revoked_verdict (run_probes c probes)

unfoldable pub readable_sql : String → String → String
unfolding quote_ident concat
readable_sql database table =
    concat ("SELECT 1 FROM " ∷ quote_ident database ∷ "." ∷ quote_ident table ∷ " LIMIT 0" ∷ [])

unfoldable pub assert_table_readable : Connection → Assertion
unfolding readable_sql classify_readable
assert_table_readable c =
    let (status, detail) = classify_readable (c.exec (readable_sql c.database c.table)) in
    record { name = table_readable; status = status; detail = detail }

-- storageTable(ctx).Distributed
unfoldable pub is_distributed : Option String → Bool
is_distributed none = false
is_distributed (some engine) = engine == "Distributed"

abbrev pub shards_sql : String
shards_sql = "SELECT cluster, shard_num FROM system.clusters LIMIT 0"

unfoldable pub assert_clusters_readable : Connection → Assertion
unfolding is_distributed classify_countable
assert_clusters_readable c =
    let (status, detail) = classify_countable (c.exec shards_sql) in
    if not (is_distributed c.engine)
    then record { name = clusters_readable; status = passes; detail = "" }
    else record { name = clusters_readable; status = status; detail = detail }

-- settingRows, whose three errors carry one prefix.
unfoldable pub setting_rows : Connection → List String → Result String (List SettingRow)
unfolding concat
setting_rows c names = elim (c.settings names) [
  | err e ↦ err (concat ("reading system.settings: " ∷ e ∷ []))
  | ok rows ↦ ok rows
]

unfoldable pub assert_readonly : Connection → Assertion
unfolding setting_rows eval_readonly
assert_readonly c = elim (setting_rows c (readonly ∷ [])) [
  | err e ↦ record { name = readonly; status = inconclusive; detail = e }
  | ok rows ↦ eval_readonly rows
]

unfoldable pub assert_constraints : Connection → Assertion
unfolding constrained_names setting_rows eval_constraints
assert_constraints c = elim (setting_rows c constrained_names) [
  | err e ↦ record { name = constraints; status = inconclusive; detail = e }
  | ok rows ↦ eval_constraints rows
]

-- The switch of Privileges, whose other names are dropped.
unfoldable pub assert_one : Connection → String → List Assertion
unfolding assert_sources_revoked assert_readonly assert_constraints assert_table_readable
    assert_clusters_readable
assert_one c name =
    if name == sources_revoked
    then assert_sources_revoked c ∷ []
    else if name == readonly
    then assert_readonly c ∷ []
    else if name == constraints
    then assert_constraints c ∷ []
    else if name == table_readable
    then assert_table_readable c ∷ []
    else if name == clusters_readable
    then assert_clusters_readable c ∷ []
    else []

unfoldable pub assert_all : Connection → List String → List Assertion
unfolding assert_one
assert_all c [] = []
assert_all c (name ∷ names) = assert_one c name ++ assert_all c names

-- Privileges
unfoldable pub privileges : Connection → List String → List Assertion
unfolding selected assert_all
privileges c require = assert_all c (selected require)
