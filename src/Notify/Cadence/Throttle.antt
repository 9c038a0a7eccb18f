-- ===== src/Notify/Cadence/Throttle.antt =====
-- The cadence as a throttle: sweeping the map of sent alerts changes no answer, and a delivered alert
-- is next due once its phase changes or the interval has passed.
use clickhouse_ruler.Base.{
  ℕ, ◌+◌, ◌*◌, ◌≤◌, max, ◌≡◌, refl, Bool, true, false, ◌||◌, ◌&&◌, List, [], ◌∷◌, Option, none,
  some, if◌then◌else◌, nat_eq, nat_beq, nat_beq_iff, Duration, pos, time_sub, before, leb_ℤ, ltb_ℤ,
  max_int64, mul_int64, mul_int64_pos, add_int64, add_int64_pos, arith, Bool-cases, Option-cases,
  inl, inr,
}
use clickhouse_ruler.GoMap.{Map, get, WellKeyed}
use clickhouse_ruler.GoMap.Laws.{get-put}
use clickhouse_ruler.Alert.Data.{Alert, Phase, pending, firing, resolved}
use clickhouse_ruler.Notify.Cadence.{Cadence, validity, due, mark_one, mark_sent, sweep, prune}

-- Durations that are not negative and whose products and sums fit an int64.
pub record Fits (c : Cadence) (eval_interval : Duration) : Type 0 where
  pub period : ℕ
  pub span : ℕ
  pub times : ℕ
  pub interval_eq : c.interval ≡ pos period
  pub eval_eq : eval_interval ≡ pos span
  pub tolerance_eq : c.tolerance ≡ pos times
  pub room : times * max period span + period ≤ max_int64
  pub times_room : times ≤ max_int64
  pub span_room : span ≤ max_int64

pub get-sweep_absent :
    (fp now : ℕ) (cutoff : Duration) (m : Map ℕ ℕ)
    → get fp m ≡ none
    → get fp (sweep now cutoff m) ≡ none
unfolding get sweep
get-sweep_absent fp now cutoff [] e = refl
get-sweep_absent fp now cutoff ((k, sent) ∷ m) e = ground (arith, get-sweep_absent fp now cutoff m)

abbrev swept : ℕ → Duration → Option ℕ → Option ℕ
swept now cutoff none = none
swept now cutoff (some sent) = if ltb_ℤ cutoff (time_sub now sent) then none else some sent

get-sweep :
    (fp now : ℕ) (cutoff : Duration) (m : Map ℕ ℕ)
    → WellKeyed m
    → get fp (sweep now cutoff m) ≡ swept now cutoff (get fp m)
unfolding get sweep
get-sweep fp now cutoff [] w = refl
get-sweep fp now cutoff ((k, sent) ∷ m) w =
    ground
      (arith, nat_beq_iff fp k, get-sweep_absent k now cutoff m w.0, get-sweep fp now cutoff m w.1)

fitting_product :
    (times period span : ℕ)
    → times * max period span ≤ max_int64
    → times ≤ max_int64
    → period ≤ max_int64
    → span ≤ max_int64
    → mul_int64 (pos times) (if ltb_ℤ (pos period) (pos span) then pos span else pos period)
      ≡ pos (times * max period span)
fitting_product times period span h ht hp hs = elim (Bool-cases (ltb_ℤ (pos period) (pos span))) [
  | inl e ↦
      let m : max period span ≡ span = ground arith in
      rw (e, m) (mul_int64_pos times span (ground (arith, m)) ht hs)
  | inr e ↦
      let m : max period span ≡ period = ground arith in
      rw (e, m) (mul_int64_pos times period (ground (arith, m)) ht hp)
]

module _ (c : Cadence) (eval_interval : Duration) (f : Fits c eval_interval) where
  pub validity_lem : validity c eval_interval ≡ pos (f.times * max f.period f.span)
  unfolding validity
  validity_lem =
      rw (f.interval_eq, f.eval_eq, f.tolerance_eq)
        (fitting_product f.times f.period f.span (omega (f.room, arith)) f.times_room
          (omega (f.room, arith)) f.span_room)

  cutoff_lem :
      add_int64 (validity c eval_interval) c.interval
      ≡ pos (f.times * max f.period f.span + f.period)
  cutoff_lem =
      rw (validity_lem, f.interval_eq)
        (add_int64_pos (f.times * max f.period f.span) f.period f.room)

abbrev pub swept_due : Duration → ℕ → ℕ → Option ℕ → Bool
swept_due interval later since none = true
swept_due interval later since (some sent) =
    if before sent since then true else leb_ℤ interval (time_sub later sent)

swept_due_lem :
    (now later since cutoff period : ℕ) (o : Option ℕ)
    → now ≤ later
    → period ≤ cutoff
    → cutoff ≤ max_int64
    → swept_due (pos period) later since (swept now (pos cutoff) o)
      ≡ swept_due (pos period) later since o
swept_due_lem now later since cutoff period none h p q = refl
swept_due_lem now later since cutoff period (some sent) h p q = ground arith

pub due_eq :
    (c : Cadence) (now : ℕ) (a : Alert) (since : ℕ)
    → due c now a since ≡ swept_due c.interval now since (get a.fingerprint c.last_sent)
unfolding due
due_eq c now a since = elim (Option-cases (get a.fingerprint c.last_sent)) [
  | inl e ↦ rw (due, e) refl
  | inr e ↦ rw (due, e.1) refl
]

module _ (c : Cadence) (eval_interval : Duration) (f : Fits c eval_interval) where
  -- Sweeping the map of sent alerts changes no answer, at the sweep's time or later: an alert is due in
  -- the swept cadence exactly when it is in the cadence before, where the map has one entry for each
  -- fingerprint and the durations are not negative and fit an int64.
  pub due-prune :
      (now later since : ℕ) (a : Alert)
      → WellKeyed c.last_sent
      → now ≤ later
      → due (prune c now eval_interval) later a since ≡ due c later a since
  unfolding prune
  due-prune now later since a w h =
      elim (Bool-cases (ltb_ℤ (time_sub now c.last_swept) c.interval)) [
        | inl e ↦ rw (prune, e) refl
        | inr e ↦
            rw
              (
                prune,
                e,
                due_eq,
                due_eq c later a since,
                get-sweep a.fingerprint now (add_int64 (validity c eval_interval) c.interval)
                    c.last_sent w,
                cutoff_lem c eval_interval f,
                f.interval_eq,
              )
              (swept_due_lem now later since (f.times * max f.period f.span + f.period) f.period
                (get a.fingerprint c.last_sent) h (omega arith) f.room)
      ]

abbrev active : Phase → Bool
active pending = false
active firing = true
active resolved = true

-- Whether a batch has an alert of the fingerprint that the cadence records.
abbrev pub recorded : ℕ → List Alert → Bool
recorded fp [] = false
recorded fp (a ∷ alerts) = (nat_beq fp a.fingerprint && active a.phase) || recorded fp alerts

get-mark_one :
    (fp now k : ℕ) (p : Phase) (m : Map ℕ ℕ)
    → get fp (mark_one now k p m) ≡ (if nat_beq fp k && active p then some now else get fp m)
unfolding mark_one
get-mark_one fp now k pending m = ground arith
get-mark_one fp now k firing m = rw (get-put fp k now m) (ground arith)
get-mark_one fp now k resolved m = rw (get-put fp k now m) (ground arith)

pub get-mark_sent :
    (fp now : ℕ) (alerts : List Alert) (m : Map ℕ ℕ)
    → get fp (mark_sent now alerts m) ≡ (if recorded fp alerts then some now else get fp m)
unfolding mark_sent
get-mark_sent fp now [] m = refl
get-mark_sent fp now (a ∷ alerts) m = ground (
  arith,
  get-mark_one fp now a.fingerprint a.phase m,
  get-mark_sent fp now alerts (mark_one now a.fingerprint a.phase m),
)
