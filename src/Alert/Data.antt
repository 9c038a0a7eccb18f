-- ===== src/Alert/Data.antt =====
-- The data of internal/alert/state.go.
use clickhouse_ruler.Base.{ℕ, Bool, String, Time}
use clickhouse_ruler.GoMap.{Map}

abbrev pub LabelSet : Type 0
LabelSet = Map String String

-- A float64, as its bit pattern: the state machine copies it, and only formatting reads it.
abbrev pub Float64 : Type 0
Float64 = ℕ

pub record Sample : Type 0 where
  pub labels : LabelSet
  pub value : Float64

pub data Phase : Type 0 where
  pending firing resolved : Phase

pub record Alert : Type 0 where
  pub fingerprint : ℕ
  pub labels : LabelSet
  pub value : Float64
  pub phase : Phase
  pub active_at : Time
  pub fired_at : Time
  pub resolved_at : Time
  pub annotations : Map String String
  pub valid_until : Time

-- A tracked alert. `present` is membership in the set of pointers that one evaluation builds: the
-- instances are distinct objects, so a set of them is a mark on each, cleared when Eval starts.
pub record Instance : Type 0 where
  pub alert : Alert
  pub last_seen : Time
  pub present : Bool

pub record Labelled : Type 0 where
  pub labels : LabelSet
  pub fp : ℕ
  pub value : Float64

abbrev pub label_source : String
label_source = "source"

abbrev pub label_alertname : String
label_alertname = "alertname"

abbrev pub label_team : String
label_team = "team"
