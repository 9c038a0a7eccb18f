-- ===== src/Scheduler/Group.antt =====
-- internal/scheduler/group.go. The clock's readings after each evaluation are a parameter.
pub mod CatchUp
use clickhouse_ruler.Base.{
  ℕ, zero, suc, ◌+◌, Bool, List, [], ◌∷◌, Option, none, some, if◌then◌else◌, Duration, time_add,
  before, ◌>>=◌,
}

-- The loop that skips the boundaries that have passed: the next tick and how many it skipped, or none
-- where the fuel runs out.
unfoldable pub catch_up : ℕ → Duration → ℕ → ℕ → ℕ → Option (ℕ × ℕ)
catch_up zero interval now next missed = none
catch_up (suc fuel) interval now next missed =
    let rest = catch_up fuel interval now (time_add next interval) (suc missed) in
    if before next now then rest else some (next, missed)

-- What runGroup has done: the next tick, the iterations and the total that onMissed was told.
pub record Pace : Type 0 where
  pub next : ℕ
  pub iterations : ℕ
  pub missed : ℕ

unfoldable pub iteration : ℕ → Duration → ℕ → Pace → Option Pace
unfolding catch_up
iteration fuel interval now p = do
  skipped ← catch_up fuel interval now (time_add p.next interval) 0
  some record { next = skipped.0; iterations = suc p.iterations; missed = p.missed + skipped.1 }

-- runGroup until its context ends, over the clock's reading after each evaluation.
unfoldable pub run_group : ℕ → Duration → List ℕ → Pace → Option Pace
unfolding iteration
run_group fuel interval [] p = some p
run_group fuel interval (now ∷ nows) p = do
  p' ← iteration fuel interval now p
  run_group fuel interval nows p'
