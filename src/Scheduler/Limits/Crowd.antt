-- ===== src/Scheduler/Limits/Crowd.antt =====
-- internal/scheduler/concurrency.go: queries that wait for one source's slot hold the ruler's slots.
use clickhouse_ruler.Base.{
  ℕ, zero, suc, ◌+◌, ◌≤◌, ◌<◌, ◌≡◌, refl, ◌∙◌, ap, String, List, [], ◌∷◌, none, some, ◌>>=◌, arith,
}
use clickhouse_ruler.Scheduler.Limits.{
  QueryLimits, at_source, Query, Flight, take_slot, pick, Event, arrive, proceed, proceed_from,
  step, idle, run,
}
use clickhouse_ruler.Scheduler.Limits.Bounds.{running_in}

-- `n` queries for a source that each arrive and pass the ruler's gate.
abbrev pub arrivals : String → ℕ → List Event
arrivals name zero = []
arrivals name (suc n) = arrive name ∷ proceed 0 ∷ arrivals name n

abbrev waiting : String → ℕ → List Query
waiting name zero = []
waiting name (suc n) = record { source = name; stage = at_source } ∷ waiting name n

abbrev pub crowd : String → ℕ → Flight
crowd name n = record { queries = waiting name n; ruler_used = n; source_used = []; in_flight = n }

free_slot :
    (l : QueryLimits) (limit n : ℕ)
    → l.global ≡ some limit
    → n < limit
    → take_slot l.global n ≡ some (suc n)
unfolding take_slot
free_slot l limit n e h = rw e (ground (arith, h))

fill :
    (l : QueryLimits) (name : String) (limit k n : ℕ)
    → l.global ≡ some limit
    → n + k ≤ limit
    → run l (arrivals name k) (crowd name n) ≡ some (crowd name (n + k))
unfolding step pick proceed_from
fill l name limit zero n e h = ap (λ m. some (crowd name m)) (omega arith)
fill l name limit (suc k) n e h =
    rw (free_slot l limit n e (omega (h, arith))) (
      fill l name limit k (suc n) e (omega (h, arith))
      ∙ ap (λ m. some (crowd name m)) (omega arith))

waiting-running_in : (name : String) (n : ℕ) → running_in name (waiting name n) ≡ 0
waiting-running_in name zero = refl
waiting-running_in name (suc n) = omega (waiting-running_in name n, arith)

-- Where the ruler has a limit, as many queries for one source as that limit can take all the ruler's slots before
-- any of them runs, whatever the source's own limit: a query for another source that arrives then cannot
-- pass the ruler's gate.
pub crowd-step :
    (l : QueryLimits) (name other : String) (limit : ℕ)
    → l.global ≡ some limit
    → (run l (arrivals name limit) idle ≡ some (crowd name limit))
      × ((running_in name (crowd name limit).queries ≡ 0)
          × ((step l (arrive other) (crowd name limit) >>= step l (proceed 0)) ≡ none))
unfolding step pick proceed_from take_slot
crowd-step l name other limit e = (
  fill l name limit limit 0 e (omega arith) ∙ ap (λ m. some (crowd name m)) (omega arith),
  (waiting-running_in name limit, rw e (ground arith)),
)
