-- ===== src/Query/Tests.antt =====
-- A join on a cluster of two shards, two results, and a replay that is too large for its ceiling.
use clickhouse_ruler.Base.{
  ℕ, ◌*◌, ◌%◌, min, max, ◌≡◌, refl, ◌↔◌, true, string_eq, mul_int64, String, List, [], ◌∷◌, pos,
  two_64,
}
use clickhouse_ruler.GoMap.{get}
use clickhouse_ruler.Query.{Column, last_type}
use clickhouse_ruler.Query.Cost.{Estimate, Fanout, estimated, cost_from, max_uint64}
use clickhouse_ruler.Query.Cost.Ceiling.{total_rows, cost_from_lem}
use clickhouse_ruler.Query.Shape.{differences}
use clickhouse_ruler.Query.Shape.Agree.{differences-eq-nil}
use clickhouse_ruler.Query.Backfill.{step_within_ceiling, step_multiple, replay_windows}

abbrev part : String → ℕ → Estimate
part table rows = record { database = "otel"; table = table; parts = 4; rows = rows; marks = 10 }

abbrev two_shards : Fanout
two_shards = record { shards = 2; counted = true }

cost_from_example : cost_from (part "traces" 700 ∷ part "logs" 300 ∷ []) two_shards ≡ record {
  rows = min (total_rows (part "traces" 700 ∷ part "logs" 300 ∷ []) % two_64 * max 1 2) max_uint64;
  status = estimated;
  shards = 2;
}
cost_from_example = cost_from_lem (part "traces" 700) (part "logs" 300 ∷ []) two_shards refl

-- Two tables of 2^63 rows each are reported as nothing.
sum_wraps_to_nothing :
    (cost_from
      (part "traces" 9223372036854775808 ∷ part "logs" 9223372036854775808 ∷ [])
      two_shards).rows
    ≡ 0
unfolding cost_from
sum_wraps_to_nothing = refl

abbrev old_result : List Column
old_result =
    record { name = "value"; typ = "UInt64" } ∷ record { name = "host"; typ = "String" } ∷ []

abbrev new_result : List Column
new_result =
    record { name = "host"; typ = "String" } ∷ record { name = "value"; typ = "Float64" } ∷ []

differences_example :
    (differences old_result new_result "the last evaluation" "this one" ≡ [])
    ↔ ((k : String) → last_type k old_result ≡ last_type k new_result)
differences_example = differences-eq-nil old_result new_result "the last evaluation" "this one"

retyped :
    differences old_result new_result "a" "b"
    ≡ "a returns value as UInt64 and b returns it as Float64" ∷ []
unfolding differences get
retyped = refl

raised_to_fifteen : step_within_ceiling (pos 1440) (pos 1) 1000 100000 ≡ (pos 15, true)
unfolding step_within_ceiling replay_windows step_multiple mul_int64
raised_to_fifteen = refl
