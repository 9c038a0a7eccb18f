-- ===== src/Scheduler/Limits.antt =====
-- internal/scheduler/concurrency.go: the two gates that a query passes. A buffered channel is the number of its
-- slots in use, and a nil one has no bound. The goroutines that are between `acquire` and its release are
-- the list of queries, and what one of them does next is an event; an event that would block is none.
pub mod Bounds
pub mod Crowd
use clickhouse_ruler.Base.{
  ℕ, zero, suc, ◌+◌, ◌-◌, Bool, true, false, String, List, [], ◌∷◌, Option, none, some,
  if◌then◌else◌, ltb, nat_beq, ℤ, pos, negsuc, string_eq, ◌>>=◌, is_some,
}
use clickhouse_ruler.GoMap.{Map, get, put}
use clickhouse_ruler.Source.{Source}

-- newSemaphore: the slots of a semaphore, none where it has no bound.
unfoldable pub new_semaphore : ℤ → Option ℕ
new_semaphore (pos n) = if nat_beq n 0 then none else some n
new_semaphore (negsuc n) = none

pub record QueryLimits : Type 0 where
  pub global : Option ℕ
  pub by_source : Map String ℕ

-- The loop of newQueryLimits.
unfoldable pub source_limits : List Source → Map String ℕ → Map String ℕ
unfolding new_semaphore get put
source_limits [] m = m
source_limits (s ∷ sources) m =
    source_limits sources (elim (new_semaphore s.max_concurrent_queries) [
      | none ↦ m
      | some n ↦ if is_some (get s.name m) then m else put s.name n m
    ])

unfoldable pub new_query_limits : ℤ → List Source → QueryLimits
unfolding source_limits
new_query_limits global sources = record {
  global = new_semaphore global;
  by_source = source_limits sources [];
}

-- Where a query is: queued for the ruler's slot, queued for its source's, or past both.
pub data Stage : Type 0 where
  at_ruler at_source running : Stage

pub record Query : Type 0 where
  pub source : String
  pub stage : Stage

pub record Flight : Type 0 where
  pub queries : List Query
  pub ruler_used : ℕ
  pub source_used : Map String ℕ
  pub in_flight : ℕ

unfoldable pub used_by : String → Map String ℕ → ℕ
unfolding get
used_by name m = elim (get name m) [ none ↦ 0 | some n ↦ n ]

-- A send on a semaphore's channel: none where it blocks.
unfoldable pub take_slot : Option ℕ → ℕ → Option ℕ
take_slot none used = some used
take_slot (some limit) used = if ltb used limit then some (suc used) else none

unfoldable pub give_slot : Option ℕ → ℕ → ℕ
give_slot none used = used
give_slot (some limit) used = used - 1

-- One query of the list, and the others.
unfoldable pub pick : ℕ → List Query → Option (Query × List Query)
pick i [] = none
pick zero (q ∷ qs) = some (q, qs)
pick (suc i) (q ∷ qs) = pick i qs >>= λ p. some (p.0, q ∷ p.1)

pub data Event : Type 0 where
  arrive : String → Event
  proceed : ℕ → Event
  leave : ℕ → Event

-- The next step of one query: past the ruler's gate, past the source's, or its release.
unfoldable pub proceed_from : QueryLimits → Query → Stage → List Query → Flight → Option Flight
unfolding take_slot give_slot used_by get put
proceed_from l q at_ruler rest f = take_slot l.global f.ruler_used >>= λ n.
    some record f { queries = record q { stage = at_source } ∷ rest; ruler_used = n }
proceed_from l q at_source rest f =
    take_slot (get q.source l.by_source) (used_by q.source f.source_used) >>= λ n. some record f {
      queries = record q { stage = running } ∷ rest;
      source_used = put q.source n f.source_used;
    }
proceed_from l q running rest f = some record f {
  queries = rest;
  source_used =
      put q.source (give_slot (get q.source l.by_source) (used_by q.source f.source_used))
        f.source_used;
  ruler_used = give_slot l.global f.ruler_used;
  in_flight = f.in_flight - 1;
}

-- The context ends while a query waits at a gate.
unfoldable pub abandon_from : QueryLimits → Stage → List Query → Flight → Option Flight
unfolding give_slot
abandon_from l at_ruler rest f = some record f { queries = rest; in_flight = f.in_flight - 1 }
abandon_from l at_source rest f = some record f {
  queries = rest;
  ruler_used = give_slot l.global f.ruler_used;
  in_flight = f.in_flight - 1;
}
abandon_from l running rest f = none

unfoldable pub step : QueryLimits → Event → Flight → Option Flight
unfolding pick proceed_from abandon_from
step l (arrive name) f = some record f {
  queries = record { source = name; stage = at_ruler } ∷ f.queries;
  in_flight = suc f.in_flight;
}
step l (proceed i) f = pick i f.queries >>= λ p. proceed_from l p.0 p.0.stage p.1 f
step l (leave i) f = pick i f.queries >>= λ p. abandon_from l p.0.stage p.1 f

abbrev pub idle : Flight
idle = record { queries = []; ruler_used = 0; source_used = []; in_flight = 0 }

abbrev pub run : QueryLimits → List Event → Flight → Option Flight
run l [] f = some f
run l (e ∷ events) f = step l e f >>= λ f'. run l events f'
