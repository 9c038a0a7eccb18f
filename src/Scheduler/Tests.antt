-- ===== src/Scheduler/Tests.antt =====
-- A queue of two batches, and a group that falls behind.
use clickhouse_ruler.Base.{
  ◌>>=◌, some, none, ℕ, zero, suc, ◌≡◌, refl, Bool, true, false, String, List, [], ◌∷◌, Option,
  none, pos, negsuc, arith,
}
use clickhouse_ruler.Alert.Data.{Alert, firing}
use clickhouse_ruler.Notify.Cadence.{Cadence}
use clickhouse_ruler.Scheduler.SendQueue.{SendItem, SendQueue, drain}
use clickhouse_ruler.Scheduler.SendQueue.Ledger.{
  Event, offer, take_next, shut, run, fresh, Balanced, run-Balanced,
}
use clickhouse_ruler.Scheduler.SendQueue.Drain.{deliver_all, drain_lem}
use clickhouse_ruler.Scheduler.Limits
use clickhouse_ruler.Scheduler.Limits.{QueryLimits, arrive, proceed, step, idle}
use clickhouse_ruler.Scheduler.Limits.Bounds.{AllBounded, running_in, run-AllBounded}
use clickhouse_ruler.Scheduler.Limits.Crowd.{arrivals, crowd, crowd-step}
use clickhouse_ruler.Scheduler.Group.{Pace, iteration, run_group}
use clickhouse_ruler.Scheduler.Group.CatchUp.{OnGrid, iteration-stuck, run_group-OnGrid}

abbrev high_load : Alert
high_load = record {
  fingerprint = 9;
  labels = [];
  value = 0;
  phase = firing;
  active_at = 10;
  fired_at = 20;
  resolved_at = 0;
  annotations = [];
  valid_until = 0;
}

abbrev batch : SendItem
batch = record {
  group = "hosts";
  rule = "HighLoad";
  now = 50;
  interval = pos 30;
  alerts = high_load ∷ high_load ∷ [];
  queued_at = 50;
}

-- A queue for three alerts drops the older batch of two.
abbrev events : List Event
events = offer batch ∷ offer batch ∷ take_next ∷ shut ∷ offer batch ∷ []

run-Balanced_example : Balanced (run events (fresh (pos 3)))
run-Balanced_example = run-Balanced (pos 3) events

abbrev two_batches : SendQueue
two_batches = record {
  capacity = 10;
  items = batch ∷ batch ∷ [];
  queued = 4;
  closed = true;
  dropped_total = 0;
  depth = 4;
}

abbrev quick : Cadence
quick = record { interval = pos 100; tolerance = pos 4; last_sent = []; last_swept = 0 }

-- The first post fails, and the later ones are accepted.
abbrev recovers : ℕ → List Alert → Option String
recovers zero alerts = some "connection refused"
recovers (suc n) alerts = none

abbrev lives : ℕ → Bool
lives n = false

drain_example :
    (drain recovers lives 3 two_batches quick).1 ≡ deliver_all recovers two_batches.items quick
drain_example = drain_lem recovers lives 3 two_batches quick (λ n. refl) (omega arith)

-- An evaluation at 100 of a group that ticks every 30 ends at 175.
abbrev at_100 : Pace
at_100 = record { next = 100; iterations = 0; missed = 0 }

iteration-stuck_example :
    (iteration 1000 (pos 0) 175 at_100 ≡ none) × (iteration 1000 (negsuc 4) 175 at_100 ≡ none)
iteration-stuck_example = iteration-stuck 1000 4 175 at_100 (omega arith)

run_group_example : OnGrid 30 at_100 2 (run_group 500 (pos 30) (175 ∷ 200 ∷ []) at_100)
run_group_example =
    run_group-OnGrid 500 30 (175 ∷ 200 ∷ []) at_100 (omega arith) (omega arith, (omega arith, tt))

-- Two slots in all, one for the slow cluster.
abbrev narrow : QueryLimits
narrow = record { global = some 2; by_source = ("slow", 1) ∷ [] }

abbrev interleaved : List Limits.Event
interleaved =
    arrive "slow" ∷ arrive "fast" ∷ proceed 1 ∷ proceed 0 ∷ proceed 1 ∷ Limits.leave 0 ∷ []

run-AllBounded_example : AllBounded narrow (Limits.run narrow interleaved idle)
run-AllBounded_example = run-AllBounded narrow interleaved

crowd-step_example :
    (Limits.run narrow (arrivals "slow" 2) idle ≡ some (crowd "slow" 2))
    × ((running_in "slow" (crowd "slow" 2).queries ≡ 0)
        × ((step narrow (arrive "fast") (crowd "slow" 2) >>= step narrow (proceed 0)) ≡ none))
crowd-step_example = crowd-step narrow "slow" "fast" 2 refl
