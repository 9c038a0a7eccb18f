-- ===== src/Notify/Cadence.antt =====
-- internal/notify/cadence.go. The mutex makes each of `dueAt` and `record` one step; `Send` is one of
-- each around a post, whose outcome is a parameter. A method returns the new cadence.
pub mod Delivery
pub mod Expiry
pub mod Throttle
use clickhouse_ruler.Base.{
  ℕ, Bool, true, false, String, List, [], ◌∷◌, Option, none, some, if◌then◌else◌, nat_eq, length,
  nat_beq, Duration, ℤ, time_sub, time_add, before, leb_ℤ, ltb_ℤ, mul_int64, add_int64,
}
use clickhouse_ruler.GoMap.{Map, get, put}
use clickhouse_ruler.Alert.Data.{Alert, Phase, pending, firing, resolved}

pub record Cadence : Type 0 where
  pub interval : Duration
  pub tolerance : ℤ
  pub last_sent : Map ℕ ℕ
  pub last_swept : ℕ

unfoldable pub new_cadence : Duration → ℤ → Cadence
new_cadence interval tolerance = record {
  interval = interval;
  tolerance = tolerance;
  last_sent = [];
  last_swept = 0;
}

unfoldable pub validity : Cadence → Duration → Duration
validity c eval_interval =
    mul_int64 c.tolerance (if ltb_ℤ c.interval eval_interval then eval_interval else c.interval)

unfoldable pub due : Cadence → ℕ → Alert → ℕ → Bool
unfolding get
due c now a since = elim (get a.fingerprint c.last_sent) [
  | none ↦ true
  | some sent ↦ if before sent since then true else leb_ℤ c.interval (time_sub now sent)
]

unfoldable pub stamp : Cadence → ℕ → Duration → Alert → Alert
stamp c now eval_interval a = record a { valid_until = time_add now (validity c eval_interval) }

-- One round of the loop of dueAt, on the alert's phase: nothing, or the alert as it is posted.
unfoldable pub due_in : Cadence → ℕ → Duration → Alert → Phase → Option Alert
due_in c now eval_interval a pending = none
due_in c now eval_interval a firing =
    if due c now a a.fired_at then some (stamp c now eval_interval a) else none
due_in c now eval_interval a resolved = if due c now a a.resolved_at then some a else none

unfoldable pub due_one : Cadence → ℕ → Duration → Alert → Option Alert
unfolding due_in
due_one c now eval_interval a = due_in c now eval_interval a a.phase

abbrev pub add_due : Option Alert → List Alert → List Alert
add_due none rest = rest
add_due (some a) rest = a ∷ rest

unfoldable pub due_at : Cadence → ℕ → Duration → List Alert → List Alert
unfolding due_one
due_at c now eval_interval [] = []
due_at c now eval_interval (a ∷ alerts) =
    add_due (due_one c now eval_interval a) (due_at c now eval_interval alerts)

-- One round of the loop of `record`, on the alert's phase.
unfoldable pub mark_one : ℕ → ℕ → Phase → Map ℕ ℕ → Map ℕ ℕ
mark_one now fp pending sent = sent
mark_one now fp firing sent = put fp now sent
mark_one now fp resolved sent = put fp now sent

unfoldable pub mark_sent : ℕ → List Alert → Map ℕ ℕ → Map ℕ ℕ
unfolding mark_one
mark_sent now [] sent = sent
mark_sent now (a ∷ alerts) sent = mark_sent now alerts (mark_one now a.fingerprint a.phase sent)

unfoldable pub sweep : ℕ → Duration → Map ℕ ℕ → Map ℕ ℕ
sweep now cutoff [] = []
sweep now cutoff ((fp, sent) ∷ m) =
    let rest = sweep now cutoff m in
    if ltb_ℤ cutoff (time_sub now sent) then rest else (fp, sent) ∷ rest

unfoldable pub prune : Cadence → ℕ → Duration → Cadence
unfolding sweep
prune c now eval_interval = if ltb_ℤ (time_sub now c.last_swept) c.interval then c else record c {
  last_swept = now;
  last_sent = sweep now (add_int64 (validity c eval_interval) c.interval) c.last_sent;
}

unfoldable pub record_sent : Cadence → ℕ → Duration → List Alert → Cadence
unfolding mark_sent prune
record_sent c now eval_interval alerts =
    prune (record c { last_sent = mark_sent now alerts c.last_sent }) now eval_interval

-- Send, over the sender: none is a delivered post.
unfoldable pub send :
    (List Alert → Option String) → Cadence → ℕ → Duration → List Alert → Cadence × Option String
unfolding due_at record_sent
send post c now eval_interval alerts =
    let posted = due_at c now eval_interval alerts in
    let sent = record_sent c now eval_interval posted in
    if nat_beq (length posted) 0
    then (c, none)
    else elim (post posted) [ some e ↦ (c, some e) | none ↦ (sent, none) ]

-- entries: how many fingerprints are throttled.
unfoldable pub entries : Cadence → ℕ
entries c = length c.last_sent
