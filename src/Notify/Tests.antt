-- ===== src/Notify/Tests.antt =====
-- Alerts that are sent, throttled and retried at concrete times.
use clickhouse_ruler.Base.{
  ℕ, zero, suc, ◌≡◌, refl, ◌↔◌, ◌⊎◌, ◌<◌, true, String, List, [], ◌∷◌, Option, none, some,
  if◌then◌else◌, pos, time_sub, before, leb_ℤ, arith, nat_eq,
}
use clickhouse_ruler.GoMap.{get, put}
use clickhouse_ruler.Alert.Data.{Alert, firing}
use clickhouse_ruler.Notify.Cadence.{Cadence, due, stamp, due_one, due_at, prune, send}
use clickhouse_ruler.Notify.Cadence.Throttle.{Fits, due-prune}
use clickhouse_ruler.Notify.Cadence.Delivery.{delivered, send-due}
use clickhouse_ruler.Notify.Cadence.Expiry.{Attempt, send_later, Undelivered, before-valid_until}
use clickhouse_ruler.Notify.Client.{Answer, response}
use clickhouse_ruler.Notify.Client
use clickhouse_ruler.Notify.Client.Ladder.{allowed, AcceptedAt, send-AcceptedAt}

abbrev disk_full : Alert
disk_full = record {
  fingerprint = 5;
  labels = [];
  value = 0;
  phase = firing;
  active_at = 10;
  fired_at = 20;
  resolved_at = 0;
  annotations = [];
  valid_until = 0;
}

abbrev accept : List Alert → Option String
accept alerts = none

abbrev refuse : List Alert → Option String
refuse alerts = some "connection refused"

-- Resent every 100, held for four periods; nothing was sent yet.
abbrev throttle : Cadence
throttle = record { interval = pos 100; tolerance = pos 4; last_sent = []; last_swept = 0 }

throttle-Fits : Fits throttle (pos 30)
throttle-Fits = record {
  period = 100;
  span = 30;
  times = 4;
  interval_eq = refl;
  eval_eq = refl;
  tolerance_eq = refl;
  room = omega arith;
  times_room = omega arith;
  span_room = omega arith;
}

send-due_example : due ((send accept throttle 50 (pos 30) (disk_full ∷ [])).0) 80 disk_full 20 ≡ (
    if delivered accept throttle 50 (pos 30) (disk_full ∷ []) 5
    then (if before 50 20 then true else leb_ℤ (pos 100) (time_sub 80 50))
    else due throttle 80 disk_full 20)
send-due_example =
    send-due accept throttle 50 80 20 (pos 30) (disk_full ∷ []) disk_full throttle-Fits tt
      (omega arith)

due-prune_example :
    due (prune throttle 700 (pos 30)) 800 disk_full 20 ≡ due throttle 800 disk_full 20
due-prune_example = due-prune throttle (pos 30) throttle-Fits 700 800 20 disk_full tt (omega arith)

posted_at_50 : due_one throttle 50 (pos 30) disk_full ≡ some (stamp throttle 50 (pos 30) disk_full)
unfolding due_one due get
posted_at_50 = refl

delivered_at_50 : delivered accept throttle 50 (pos 30) (disk_full ∷ []) 5 ≡ true
unfolding due_at get stamp due
delivered_at_50 = refl

-- Sent at 50; not due at 80, 110 and 140; refused at 170 and at 200.
abbrev quiet : Attempt
quiet = record { answer = accept; batch = disk_full ∷ [] }

abbrev down : Attempt
down = record { answer = refuse; batch = disk_full ∷ [] }

abbrev five : List Attempt
five = quiet ∷ quiet ∷ quiet ∷ down ∷ down ∷ []

abbrev sent_at_50 : Cadence
sent_at_50 = (send accept throttle 50 (pos 30) (disk_full ∷ [])).0

none_delivered : Undelivered 5 sent_at_50 50 0 30 (pos 30) five
unfolding send due_at due get put stamp
none_delivered = (refl, (refl, (refl, (refl, (refl, tt)))))

before-valid_until_example :
    let c' = send_later sent_at_50 50 0 30 (pos 30) five in
    (due_at c' 230 (pos 30) (disk_full ∷ [])
      ≡ stamp c' 230 (pos 30) disk_full ∷ due_at c' 230 (pos 30) [])
    × (before 230 ((stamp throttle 50 (pos 30) disk_full).valid_until) ≡ true)
unfolding throttle-Fits due_at
before-valid_until_example =
    before-valid_until accept throttle 50 3 2 (pos 30) (disk_full ∷ []) disk_full
      (stamp throttle 50 (pos 30) disk_full) throttle-Fits five [] [] disk_full tt refl posted_at_50
      delivered_at_50 (omega arith) (omega arith) refl none_delivered refl refl (omega arith)

-- A 503 and then a 200.
abbrev recovering : ℕ → Answer
recovering zero = response 503 "503 Service Unavailable"
recovering (suc n) = response 200 "200 OK"

abbrev alive : ℕ → Option String
alive attempt = none

send-AcceptedAt_example :
    (Client.send recovering alive (pos 4) (pos 250) 1 ≡ none)
    ↔ ((◌≡◌ {A = ℕ} 1 0) ⊎ ((k : ℕ) × ((k < allowed (pos 4)) × AcceptedAt recovering alive k)))
send-AcceptedAt_example = send-AcceptedAt recovering alive (pos 4) (pos 250) 1
