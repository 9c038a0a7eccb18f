-- ===== src/Alert/State/Timely.antt =====
-- The timers: an alert fires only once it has been active for the rule's `for`, and resolves only once
-- it has been away for the rule's `keep_firing_for`.
use clickhouse_ruler.Base.{
  ℕ, ◌≡◌, refl, true, false, List, Option, none, some, ok, arith, string_eq, time_sub, leb_ℤ, inl,
  inr, Bool-cases,
}
use clickhouse_ruler.GoMap.{WellKeyed}
use clickhouse_ruler.Alert.Data.{LabelSet, Sample, pending, firing, resolved, Instance, Labelled}
use clickhouse_ruler.Alert.Annotate.{Engine}
use clickhouse_ruler.Alert.State.{State, see, expire_one, new_instance, is_resolved}
use clickhouse_ruler.Alert.State.Step.{Evaluated, see_row, eval}
use clickhouse_ruler.Alert.State.Machine.{find, advance, Inv, Respects}
use clickhouse_ruler.Alert.State.Eval.{eval-advance}

-- The timestamps of an instance agree with its phase and the rule's durations.
abbrev pub Timely : State → Instance → Type 0
Timely s i =
    ((i.alert.phase ≡ pending) → (i.alert.fired_at ≡ 0) × (i.alert.resolved_at ≡ 0))
    × ((i.alert.phase ≡ firing)
        → (leb_ℤ s.rule.for_duration (time_sub i.alert.fired_at i.alert.active_at) ≡ true)
          × (i.alert.resolved_at ≡ 0))
    × ((i.alert.phase ≡ resolved)
        → (leb_ℤ s.rule.for_duration (time_sub i.alert.fired_at i.alert.active_at) ≡ true)
          × (leb_ℤ s.rule.keep_firing_for (time_sub i.alert.resolved_at i.last_seen) ≡ true))

abbrev pub AllTimely : State → Option Instance → Type 0
AllTimely s none = Unit
AllTimely s (some i) = Timely s i

module _ (E : Engine) (s : State) (now : ℕ) where
  new-Timely : (l : Labelled) → Timely s (new_instance l now)
  unfolding new_instance
  new-Timely l = ground arith

  see_row-Timely :
      (l : Labelled) (i : Instance)
      → is_resolved i.alert.phase ≡ false
      → Timely s i
      → Timely s (see_row E s now l i)
  unfolding see_row see
  see_row-Timely l i u h = ground arith

  expire_one-Timely :
      (i : Instance)
      → Timely s i
      → AllTimely s (expire_one s.rule.keep_firing_for s.retention now i)
  unfolding expire_one
  expire_one-Timely i h = ground arith

  advance-Timely :
      (row : Option Labelled) (o : Option Instance)
      → AllTimely s o
      → AllTimely s (advance E s now row o)
  unfolding new_instance
  advance-Timely none none h = tt
  advance-Timely none (some i) h = expire_one-Timely _ h
  advance-Timely (some l) none h = see_row-Timely l (new_instance l now) refl (new-Timely l)
  advance-Timely (some l) (some i) h = elim (Bool-cases (is_resolved i.alert.phase)) [
    | inl e ↦ rw e (see_row-Timely l (new_instance l now) refl (new-Timely l))
    | inr e ↦ rw e (see_row-Timely l i e h)
  ]

  -- Through an evaluation that is not refused, the timestamps of every identity's instance stay true
  -- to its phase: a firing alert was active for the rule's `for` when it fired and has not resolved,
  -- a resolved one had also been away for `keep_firing_for`, and a pending one has neither fired nor
  -- resolved.
  pub eval-Timely :
      (samples : List Sample) (ls : LabelSet) {r : Evaluated}
      → Respects s.hash
      → Inv s
      → WellKeyed ls
      → (eval E s now samples).1 ≡ ok r
      → AllTimely s (find ls s)
      → AllTimely s (find ls (eval E s now samples).0)
  eval-Timely samples ls respects v wls h t =
      rw (eval-advance E s now samples ls respects v wls h) (advance-Timely _ (find ls s) t)
