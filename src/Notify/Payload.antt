-- ===== src/Notify/Payload.antt =====
-- internal/notify/payload.go, over time's Format.
pub mod Posted
use clickhouse_ruler.Base.{ℕ, String, List, [], ◌∷◌, if◌then◌else◌, nat_beq}
use clickhouse_ruler.GoMap.{Map}
use clickhouse_ruler.Alert.Data.{Phase, pending, firing, resolved, LabelSet}
use clickhouse_ruler.Alert.Data

-- notify.Alert.
pub record Entry : Type 0 where
  pub labels : LabelSet
  pub annotations : Map String String
  pub starts_at : String
  pub ends_at : String

-- format: the zero time is the empty text.
unfoldable pub format_time : (ℕ → String) → ℕ → String
format_time format t = if nat_beq t 0 then "" else format t

unfoldable pub entry_of : (ℕ → String) → Data.Alert → ℕ → Entry
unfolding format_time
entry_of format a ends = record {
  labels = a.labels;
  annotations = a.annotations;
  starts_at = format_time format a.fired_at;
  ends_at = format_time format ends;
}

unfoldable pub payload_one : (ℕ → String) → Data.Alert → Phase → List Entry → List Entry
unfolding entry_of
payload_one format a pending out = out
payload_one format a firing out = entry_of format a a.valid_until ∷ out
payload_one format a resolved out = entry_of format a a.resolved_at ∷ out

unfoldable pub payload : (ℕ → String) → List Data.Alert → List Entry
unfolding payload_one
payload format [] = []
payload format (a ∷ alerts) = payload_one format a a.phase (payload format alerts)
