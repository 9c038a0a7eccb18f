-- ===== src/Query.antt =====
-- internal/query: what a query returned and what it cost, and what is read out of it. What talks to
-- ClickHouse is not modelled.
pub mod Backfill
pub mod Cost
pub mod Privileges
pub mod KeySample
pub mod Shape
mod Tests
use clickhouse_ruler.Base.{
  ℕ, String, List, [], ◌∷◌, Option, none, some, Duration, if◌then◌else◌, ◌==◌, string_eq,
}
use clickhouse_ruler.Alert.Data.{Sample}

pub record Column : Type 0 where
  pub name : String
  pub typ : String

pub record Usage : Type 0 where
  pub read_rows : ℕ
  pub read_bytes : ℕ
  pub peak_memory : ℕ
  pub duration : Duration

pub record Evaluation : Type 0 where
  pub samples : List Sample
  pub shape : List Column
  pub usage : Usage

pub record Finding : Type 0 where
  pub check : String
  pub detail : String

-- The type of the last column of a name, none where there is no such column.
abbrev pub last_type : String → List Column → Option String
last_type name [] = none
last_type name (c ∷ columns) = elim (last_type name columns) [
  | some t ↦ some t
  | none ↦ if name == c.name then some c.typ else none
]
