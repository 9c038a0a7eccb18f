-- ===== src/Alert/State/Snapshot.antt =====
-- What an evaluation returns: every instance that is still tracked, in fingerprint order.
use clickhouse_ruler.Base.{List}
use clickhouse_ruler.Alert.State.{State}
