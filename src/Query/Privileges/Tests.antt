-- ===== src/Query/Privileges/Tests.antt =====
-- A user whose S3 function was never revoked, asked through a server that answers three of the four probes.
use clickhouse_ruler.Base.{
  ℕ, ◌≡◌, refl, true, false, String, List, [], ◌∷◌, none, some, ok, map, if◌then◌else◌, string_eq,
  ◌==◌,
}
use clickhouse_ruler.Query.Privileges.{Connection, assert_sources_revoked, probes}
use clickhouse_ruler.Query.Privileges.Settings.{SettingRow, eval_constraints}
use clickhouse_ruler.Query.Privileges.Answers.{fails, DriverError, readonly}
use clickhouse_ruler.Query.Privileges.Verdict.{
  status_of, any_through, all_denied, sources_revoked-status,
}

abbrev denial : DriverError
denial = record {
  is_deadline = false;
  exception = some (record { code = 497; message = "Not enough privileges" });
  text = "code: 497";
}

abbrev timeout : DriverError
timeout = record { is_deadline = true; exception = none; text = "context deadline exceeded" }

abbrev s3_probe : String
s3_probe =
    "SELECT 1 FROM s3('http://127.0.0.1:1/ruler-privilege-probe.csv', 'CSV', 'probe String') LIMIT 1"

abbrev row : String → ℕ → SettingRow
row name readonly = record {
  name = name;
  value = "1000";
  min = none;
  max = none;
  readonly = readonly;
}

abbrev slow_s3 : Connection
slow_s3 = record {
  exec = λ sql. if sql == s3_probe then some timeout else some denial;
  is_alive = λ sql. true;
  settings = λ names. ok (map (λ name. row name 1) names);
  engine = some "MergeTree";
  database = "otel";
  table = "logs";
}

-- The S3 probe still runs when its time is up, so the privilege is there.
sources_revoked_example :
    (assert_sources_revoked slow_s3).status
    ≡ status_of (any_through slow_s3 probes) (all_denied slow_s3 probes)
sources_revoked_example = sources_revoked-status slow_s3

slow_s3_fails : status_of (any_through slow_s3 probes) (all_denied slow_s3 probes) ≡ fails
slow_s3_fails = refl

-- A max_result_rows without a constraint.
abbrev loose_rows : List SettingRow
loose_rows =
    row "max_execution_time" 1
    ∷ row "max_memory_usage" 1
    ∷ row "max_result_rows" 0
    ∷ row "result_overflow_mode" 1
    ∷ row "timeout_overflow_mode" 1
    ∷ row "skip_unavailable_shards" 1
    ∷ []

loose_rows_fail : (eval_constraints loose_rows).status ≡ fails
unfolding eval_constraints
loose_rows_fail = refl
