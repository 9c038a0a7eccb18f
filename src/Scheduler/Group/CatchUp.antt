-- ===== src/Scheduler/Group/CatchUp.antt =====
-- internal/scheduler/group.go: the boundaries that runGroup evaluates at and skips.
use clickhouse_ruler.Base.{
  ℕ, zero, suc, ◌+◌, ◌-◌, ◌*◌, ◌≤◌, ◌<◌, ◌≡◌, ◌⊎◌, inl, inr, refl, List, [], ◌∷◌, Option, none,
  some, pos, negsuc, before, arith, Bool-cases, All, length, ap,
}
use clickhouse_ruler.Scheduler.Group.{catch_up, Pace, iteration, run_group}

-- The first boundary `start + k * period` that is not before `now`.
pub record CaughtUp (period now start missed : ℕ) (r : Option (ℕ × ℕ)) : Type 0 where
  pub skips : ℕ
  pub next : ℕ
  pub result : r ≡ some (next, missed + skips)
  pub boundary : next ≡ start + skips * period
  pub reached : now ≤ next
  pub first : (skips ≡ 0) ⊎ (next < now + period)

-- On a positive interval, the loop that skips boundaries ends, given fuel above the clock's reading less the
-- start: at the first boundary that is not before the reading, after as many boundaries as it adds to `missed`.
pub catch_up_lem :
    (fuel period now start missed : ℕ)
    → 0 < period
    → now < start + fuel
    → 0 < fuel
    → CaughtUp period now start missed (catch_up fuel (pos period) now start missed)
unfolding catch_up
catch_up_lem zero period now start missed hp h hf = ground arith
catch_up_lem (suc fuel) period now start missed hp h hf = elim (Bool-cases (before start now)) [
  | inl e ↦
      let h' : now < start + period + fuel = omega arith in
      let hf' : 0 < fuel = ground arith in
      let ih = catch_up_lem fuel period now (start + period) (suc missed) hp h' hf' in
      rw (catch_up, e)
        record {
          skips = suc ih.skips;
          next = ih.next;
          result = rw ih.result (ap (λ k. some (ih.next, k)) (omega arith));
          boundary = omega (ih.boundary, arith);
          reached = ih.reached;
          first = inr (elim ih.first [ inl z ↦ rw ih.boundary (rw z (ground arith)) | inr l ↦ l ]);
        }
  | inr e ↦
      rw (catch_up, e)
        record {
          skips = 0;
          next = start;
          result = ap (λ k. some (start, k)) (omega arith);
          boundary = omega arith;
          reached = ground arith;
          first = inl refl;
        }
]

-- Where the interval is not positive, a boundary that has passed is never caught up with: no fuel is
-- enough.
catch_up_stuck :
    (fuel d now start missed : ℕ)
    → start < now
    → (catch_up fuel (pos 0) now start missed ≡ none)
      × (catch_up fuel (negsuc d) now start missed ≡ none)
unfolding catch_up
catch_up_stuck zero d now start missed h = (refl, refl)
catch_up_stuck (suc fuel) d now start missed h =
    let p = catch_up_stuck fuel d now (start + 0) (suc missed) (omega arith) in
    let n = catch_up_stuck fuel d now (start - suc d) (suc missed) (omega arith) in
    (ground (arith, p), ground (arith, n))

-- An evaluation that ends after its next boundary, in a group whose interval is zero or negative, never
-- ends its iteration: no fuel is enough for the loop that counts the missed boundaries.
pub iteration-stuck :
    (fuel d now : ℕ) (p : Pace)
    → p.next < now
    → (iteration fuel (pos 0) now p ≡ none) × (iteration fuel (negsuc d) now p ≡ none)
unfolding iteration
iteration-stuck fuel d now p h =
    let z = catch_up_stuck fuel d now (p.next + 0) 0 (omega arith) in
    let n = catch_up_stuck fuel d now (p.next - suc d) 0 (omega arith) in
    (rw (iteration, z.0) refl, rw (iteration, n.1) refl)

-- What runGroup did on a positive interval: the ticks stand on the grid of the start and the interval, and
-- every boundary up to the next tick was evaluated or counted as missed.
pub record OnGrid (period : ℕ) (start : Pace) (rounds : ℕ) (r : Option Pace) : Type 0 where
  pub pace : Pace
  pub result : r ≡ some pace
  pub rounds_eq : pace.iterations ≡ start.iterations + rounds
  pub grid :
      pace.next + (start.iterations + start.missed) * period
      ≡ start.next + (pace.iterations + pace.missed) * period

abbrev pub IsBefore : ℕ → ℕ → Type 0
IsBefore fuel now = now < fuel

-- On a positive interval, runGroup goes through all the iterations, given fuel above every reading of the
-- clock: one iteration for each reading, and the next tick is the start plus the interval times the sum
-- of the iterations and the boundaries that were reported as missed.
pub run_group-OnGrid :
    (fuel period : ℕ) (nows : List ℕ) (p : Pace)
    → 0 < period
    → All (IsBefore fuel) nows
    → OnGrid period p (length nows) (run_group fuel (pos period) nows p)
unfolding run_group iteration
run_group-OnGrid fuel period [] p hp hs = record {
  pace = p;
  result = refl;
  rounds_eq = omega arith;
  grid = omega arith;
}
run_group-OnGrid fuel period (now ∷ nows) p hp hs =
    let c =
      catch_up_lem fuel period now (p.next + period) 0 hp (omega (hs.0, arith))
        (omega (hs.0, arith)) in
    let p' : Pace = record {
      next = c.next;
      iterations = suc p.iterations;
      missed = p.missed + (0 + c.skips);
    } in
    let ih = run_group-OnGrid fuel period nows p' hp hs.1 in
    rw (run_group, iteration, c.result)
      record {
        pace = ih.pace;
        result = ih.result;
        rounds_eq = omega (ih.rounds_eq, arith);
        grid = omega (ih.grid, c.boundary, arith);
      }
