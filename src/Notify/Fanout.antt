-- ===== src/Notify/Fanout.antt =====
-- internal/notify/fanout.go. The goroutines write distinct cells of `errs` and are joined, so the list of the
-- outcomes, one for each sender in order, is what they leave.
pub mod Outcome
use clickhouse_ruler.Base.{ℕ, String, List, [], ◌∷◌, Option, none, some}
use clickhouse_ruler.Text.{concat, join}
use clickhouse_ruler.Alert.Data.{Alert}

abbrev pub Sender : Type 0
Sender = List Alert → Option String

unfoldable pub outcomes : List Sender → List Alert → List (Option String)
outcomes [] alerts = []
outcomes (s ∷ senders) alerts = s alerts ∷ outcomes senders alerts

-- The texts of the errors, or none where an endpoint took the batch.
unfoldable pub all_errors : List (Option String) → Option (List String)
all_errors [] = some []
all_errors (none ∷ errs) = none
all_errors (some e ∷ errs) = elim (all_errors errs) [ none ↦ none | some es ↦ some (e ∷ es) ]

unfoldable pub report : List String → String
unfolding concat join
report es = concat ("no alertmanager accepted the alerts: " ∷ join "\n" es ∷ [])

-- Fanout.Send; errors.Join puts one error on each line.
unfoldable pub send : List Sender → List Alert → Option String
unfolding outcomes all_errors report
send [] alerts = some "no alertmanager to send to"
send (s ∷ senders) alerts = elim (all_errors (outcomes (s ∷ senders) alerts)) [
  | none ↦ none
  | some es ↦ some (report es)
]
