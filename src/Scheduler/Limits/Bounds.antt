-- ===== src/Scheduler/Limits/Bounds.antt =====
-- internal/scheduler/concurrency.go: the queries that run at once, over any interleaving.
use clickhouse_ruler.Base.{
  ℕ, zero, suc, ◌+◌, ◌≤◌, ◌≡◌, refl, sym, subst, ap, ◌∙◌, false, String, List, [], ◌∷◌, Option,
  none, some, if◌then◌else◌, length, string_eq, ◌==◌, eq_iff, arith, Bool-cases, Option-cases, inl,
  inr,
}
use clickhouse_ruler.GoMap.{Map, get, put}
use clickhouse_ruler.GoMap.Laws.{get-put}
use clickhouse_ruler.Scheduler.Limits.{
  QueryLimits, Stage, at_ruler, at_source, running, Query, Flight, used_by, take_slot, give_slot,
  pick, Event, arrive, proceed, leave, proceed_from, abandon_from, step, idle, run,
}

abbrev holds : Stage → ℕ
holds at_ruler = 0
holds at_source = 1
holds running = 1

abbrev runs_in : String → Query → Stage → ℕ
runs_in name q at_ruler = 0
runs_in name q at_source = 0
runs_in name q running = if name == q.source then 1 else 0

-- The queries past the ruler's gate, and those of a source that run.
abbrev pub past_ruler : List Query → ℕ
past_ruler [] = 0
past_ruler (q ∷ qs) = holds q.stage + past_ruler qs

abbrev pub running_in : String → List Query → ℕ
running_in name [] = 0
running_in name (q ∷ qs) = runs_in name q q.stage + running_in name qs

abbrev pub Counts : Option ℕ → ℕ → ℕ → Type 0
Counts none used n = Unit
Counts (some limit) used n = (used ≡ n) × (n ≤ limit)

pub record Bounded (l : QueryLimits) (f : Flight) : Type 0 where
  pub ruler : Counts l.global f.ruler_used (past_ruler f.queries)
  pub source :
      (name : String)
      → Counts (get name l.by_source) (used_by name f.source_used) (running_in name f.queries)
  pub gauge : f.in_flight ≡ length f.queries

record Taken (qs : List Query) (q : Query) (rest : List Query) : Type 0 where
  pub past : past_ruler qs ≡ holds q.stage + past_ruler rest
  pub count : length qs ≡ suc (length rest)
  pub runs : (name : String) → running_in name qs ≡ runs_in name q q.stage + running_in name rest

abbrev Picked : List Query → Option (Query × List Query) → Type 0
Picked qs none = Unit
Picked qs (some p) = Taken qs p.0 p.1

pick-Picked : (i : ℕ) (qs : List Query) → Picked qs (pick i qs)
unfolding pick
pick-Picked i [] = tt
pick-Picked zero (x ∷ qs) = record { past = refl; count = refl; runs = λ name. refl }
pick-Picked (suc i) (x ∷ qs) = elim (Option-cases (pick i qs)) [
  | inl e ↦ rw (pick, e) tt
  | inr ((q, rest), e) ↦
      let t : Taken qs q rest = subst (Picked qs) e (pick-Picked i qs) in
      rw (pick, e)
        record {
          past = omega (t.past, arith);
          count = omega (t.count, arith);
          runs = λ name. omega (t.runs name, arith);
        }
]

-- What a step leaves: nothing, where it blocks, or a flight within the bounds.
abbrev pub AllBounded : QueryLimits → Option Flight → Type 0
AllBounded l none = Unit
AllBounded l (some f) = Bounded l f

used_by-put :
    (name k : String) (n : ℕ) (m : Map String ℕ)
    → used_by name (put k n m) ≡ (if name == k then n else used_by name m)
unfolding used_by
used_by-put name k n m = rw (used_by, get-put name k n m) (ground arith)

take-Counts :
    (o : Option ℕ) (used n m : ℕ) → Counts o used n → take_slot o used ≡ some m → Counts o m (1 + n)
unfolding take_slot
take-Counts none used n m c e = tt
take-Counts (some limit) used n m c e = ground (arith, c.0, c.1)

give-Counts : (o : Option ℕ) (used n : ℕ) → Counts o used (1 + n) → Counts o (give_slot o used) n
unfolding give_slot
give-Counts none used n c = tt
give-Counts (some limit) used n c = (omega (c.0, arith), omega (c.1, arith))

put-Counts :
    (k : String) (n : ℕ) (limits used : Map String ℕ) (before after : String → ℕ)
    → Counts (get k limits) n (after k)
    → ((name : String) → (name == k) ≡ false → before name ≡ after name)
    → ((name : String) → Counts (get name limits) (used_by name used) (before name))
    → (name : String) → Counts (get name limits) (used_by name (put k n used)) (after name)
put-Counts k n limits used before after own same c name = elim (Bool-cases (name == k)) [
  | inl e ↦
      let p : name ≡ k = (eq_iff name k).0 e in
      let u : used_by name (put k n used) ≡ n = rw (used_by-put name k n used, e) refl in
      rw u (subst (λ i. Counts (get i limits) n (after i)) (sym p) own)
  | inr e ↦
      let u : used_by name (put k n used) ≡ used_by name used =
        rw (used_by-put name k n used, e) refl in
      rw u (subst (Counts (get name limits) (used_by name used)) (same name e) (c name))
]

module _ (l : QueryLimits) (f : Flight) (b : Bounded l f) (q : Query) (rest : List Query)
    (t : Taken f.queries q rest) where
  past_eq : (s : Stage) → q.stage ≡ s → past_ruler f.queries ≡ holds s + past_ruler rest
  past_eq s e = t.past ∙ ap (λ r. holds r + past_ruler rest) e

  runs_eq :
      (s : Stage) (name : String)
      → q.stage ≡ s
      → running_in name f.queries ≡ runs_in name q s + running_in name rest
  runs_eq s name e = t.runs name ∙ ap (λ r. runs_in name q r + running_in name rest) e

  own_run :
      (if q.source == q.source then 1 else 0) + running_in q.source rest
      ≡ 1 + running_in q.source rest
  own_run = ground (arith, eq_iff q.source q.source)

  waiting_source :
      (s : Stage)
      → q.stage ≡ s
      → ((name : String) → runs_in name q s ≡ 0)
      → (name : String)
      → Counts (get name l.by_source) (used_by name f.source_used) (running_in name rest)
  waiting_source s e z name =
      subst (Counts (get name l.by_source) (used_by name f.source_used))
        (runs_eq s name e ∙ ap (λ r. r + running_in name rest) (z name) ∙ omega arith)
        (b.source name)

  proceed-ruler : q.stage ≡ at_ruler → AllBounded l (proceed_from l q at_ruler rest f)
  unfolding proceed_from
  proceed-ruler e = elim (Option-cases (take_slot l.global f.ruler_used)) [
    | inl n ↦ rw (proceed_from, n) tt
    | inr (n, g) ↦
        rw (proceed_from, g)
          record {
            ruler =
                take-Counts l.global f.ruler_used (past_ruler rest) n
                  (subst (Counts l.global f.ruler_used) (past_eq at_ruler e ∙ omega arith) b.ruler)
                  g;
            source = λ name.
                subst (Counts (get name l.by_source) (used_by name f.source_used)) (omega arith)
                  (waiting_source at_ruler e (λ k. refl) name);
            gauge = omega (b.gauge, t.count, arith);
          }
  ]

  proceed-source : q.stage ≡ at_source → AllBounded l (proceed_from l q at_source rest f)
  unfolding proceed_from
  proceed-source e =
      let used = used_by q.source f.source_used in
      elim (Option-cases (take_slot (get q.source l.by_source) used)) [
        | inl n ↦ rw (proceed_from, n) tt
        | inr (n, g) ↦
            rw (proceed_from, g)
              record {
                ruler = subst (Counts l.global f.ruler_used) (past_eq at_source e) b.ruler;
                source =
                    put-Counts q.source n l.by_source f.source_used (λ name. running_in name rest)
                      (λ name. (if name == q.source then 1 else 0) + running_in name rest)
                      (subst (Counts (get q.source l.by_source) n) (sym own_run) (
                        take-Counts (get q.source l.by_source) used (running_in q.source rest) n
                          (waiting_source at_source e (λ k. refl) q.source) g))
                      (λ name h. ground (arith, h)) (waiting_source at_source e (λ k. refl));
                gauge = omega (b.gauge, t.count, arith);
              }
      ]

  proceed-running : q.stage ≡ running → AllBounded l (proceed_from l q running rest f)
  unfolding proceed_from
  proceed-running e = record {
    ruler =
        give-Counts l.global f.ruler_used (past_ruler rest)
          (subst (Counts l.global f.ruler_used) (past_eq running e) b.ruler);
    source =
        put-Counts q.source (give_slot (get q.source l.by_source) (used_by q.source f.source_used))
          l.by_source f.source_used (λ name. running_in name f.queries)
          (λ name. running_in name rest)
          (give-Counts (get q.source l.by_source) (used_by q.source f.source_used)
            (running_in q.source rest)
            (subst (Counts (get q.source l.by_source) (used_by q.source f.source_used))
              (runs_eq running q.source e ∙ own_run) (b.source q.source)))
          (λ name h. runs_eq running name e ∙ ground (arith, h)) b.source;
    gauge = omega (b.gauge, t.count, arith);
  }

  abandon-ruler : q.stage ≡ at_ruler → AllBounded l (abandon_from l at_ruler rest f)
  unfolding abandon_from
  abandon-ruler e = record {
    ruler = subst (Counts l.global f.ruler_used) (past_eq at_ruler e ∙ omega arith) b.ruler;
    source = waiting_source at_ruler e (λ k. refl);
    gauge = omega (b.gauge, t.count, arith);
  }

  abandon-source : q.stage ≡ at_source → AllBounded l (abandon_from l at_source rest f)
  unfolding abandon_from
  abandon-source e = record {
    ruler =
        give-Counts l.global f.ruler_used (past_ruler rest)
          (subst (Counts l.global f.ruler_used) (past_eq at_source e) b.ruler);
    source = waiting_source at_source e (λ k. refl);
    gauge = omega (b.gauge, t.count, arith);
  }

  proceed-stage : (s : Stage) → q.stage ≡ s → AllBounded l (proceed_from l q s rest f)
  proceed-stage at_ruler e = proceed-ruler e
  proceed-stage at_source e = proceed-source e
  proceed-stage running e = proceed-running e

  abandon-stage : (s : Stage) → q.stage ≡ s → AllBounded l (abandon_from l s rest f)
  unfolding abandon_from
  abandon-stage at_ruler e = abandon-ruler e
  abandon-stage at_source e = abandon-source e
  abandon-stage running e = tt

step-Bounded : (l : QueryLimits) (e : Event) (f : Flight) → Bounded l f → AllBounded l (step l e f)
unfolding step
step-Bounded l (arrive name) f b = record {
  ruler = subst (Counts l.global f.ruler_used) (omega arith) b.ruler;
  source =
      λ k. subst (Counts (get k l.by_source) (used_by k f.source_used)) (omega arith) (b.source k);
  gauge = omega (b.gauge, arith);
}
step-Bounded l (proceed i) f b = elim (Option-cases (pick i f.queries)) [
  | inl e ↦ rw (step, e) tt
  | inr ((q, rest), e) ↦
      let t : Taken f.queries q rest = subst (Picked f.queries) e (pick-Picked i f.queries) in
      rw (step, e) (proceed-stage l f b q rest t q.stage refl)
]
step-Bounded l (leave i) f b = elim (Option-cases (pick i f.queries)) [
  | inl e ↦ rw (step, e) tt
  | inr ((q, rest), e) ↦
      let t : Taken f.queries q rest = subst (Picked f.queries) e (pick-Picked i f.queries) in
      rw (step, e) (abandon-stage l f b q rest t q.stage refl)
]

run_Bounded :
    (l : QueryLimits) (events : List Event) (f : Flight)
    → Bounded l f
    → AllBounded l (run l events f)
run_Bounded l [] f b = b
run_Bounded l (e ∷ events) f b = elim (Option-cases (step l e f)) [
  | inl n ↦ rw n tt
  | inr (f', g) ↦ rw g (run_Bounded l events f' (subst (AllBounded l) g (step-Bounded l e f b)))
]

idle-Bounded : (l : QueryLimits) → Bounded l idle
unfolding used_by
idle-Bounded l = record {
  ruler = none_held l.global;
  source = λ name. none_held (get name l.by_source);
  gauge = refl;
}
  where
    none_held : (o : Option ℕ) → Counts o 0 0
    none_held none = tt
    none_held (some limit) = (refl, omega arith)

-- Over any interleaving of queries that arrive, pass the gates, give up and finish: the queries past the ruler's
-- gate hold its slots one each and are within its limit; those that run against a source which has a limit
-- hold that source's slots one each and are within its limit; and the gauge is the number of queries
-- that run or wait.
pub run-AllBounded : (l : QueryLimits) (events : List Event) → AllBounded l (run l events idle)
run-AllBounded l events = run_Bounded l events idle (idle-Bounded l)
