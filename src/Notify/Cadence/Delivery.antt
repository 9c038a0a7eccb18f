-- ===== src/Notify/Cadence/Delivery.antt =====
-- internal/notify/cadence.go: what one Send leaves of the cadence, on each outcome of its post.
use clickhouse_ruler.Base.{
  ℕ, ◌≤◌, ◌≡◌, refl, Bool, true, false, String, List, [], ◌∷◌, Option, none, some, if◌then◌else◌,
  nat_eq, nat_beq, length, Duration, time_sub, before, leb_ℤ, ltb_ℤ, arith, Bool-cases,
  Option-cases, inl, inr, add_int64,
}
use clickhouse_ruler.GoMap.{Map, WellKeyed}
use clickhouse_ruler.GoMap.Laws.{put-WellKeyed}
use clickhouse_ruler.Alert.Data.{Alert, Phase, pending, firing, resolved}
use clickhouse_ruler.Notify.Cadence.{
  Cadence, validity, due, due_at, mark_one, mark_sent, sweep, prune, record_sent, send,
}
use clickhouse_ruler.Notify.Cadence.Throttle.{
  Fits, recorded, get-mark_sent, due-prune, due_eq, get-sweep_absent,
}

mark_one-WellKeyed :
    (now k : ℕ) (p : Phase) (m : Map ℕ ℕ) → WellKeyed m → WellKeyed (mark_one now k p m)
unfolding mark_one
mark_one-WellKeyed now k pending m w = w
mark_one-WellKeyed now k firing m w = put-WellKeyed k now m w
mark_one-WellKeyed now k resolved m w = put-WellKeyed k now m w

mark_sent-WellKeyed :
    (now : ℕ) (alerts : List Alert) (m : Map ℕ ℕ) → WellKeyed m → WellKeyed (mark_sent now alerts m)
unfolding mark_sent
mark_sent-WellKeyed now [] m w = w
mark_sent-WellKeyed now (a ∷ alerts) m w =
    mark_sent-WellKeyed now alerts (mark_one now a.fingerprint a.phase m)
      (mark_one-WellKeyed now a.fingerprint a.phase m w)

sweep-WellKeyed :
    (now : ℕ) (cutoff : Duration) (m : Map ℕ ℕ) → WellKeyed m → WellKeyed (sweep now cutoff m)
unfolding sweep
sweep-WellKeyed now cutoff [] w = tt
sweep-WellKeyed now cutoff ((k, sent) ∷ m) w =
    elim (Bool-cases (ltb_ℤ cutoff (time_sub now sent))) [
      | inl e ↦ rw (sweep, e) (sweep-WellKeyed now cutoff m w.1)
      | inr e ↦
          rw (sweep, e) (get-sweep_absent k now cutoff m w.0, sweep-WellKeyed now cutoff m w.1)
    ]

prune-WellKeyed :
    (c : Cadence) (now : ℕ) (eval_interval : Duration)
    → WellKeyed c.last_sent
    → WellKeyed ((prune c now eval_interval).last_sent)
unfolding prune
prune-WellKeyed c now eval_interval w =
    elim (Bool-cases (ltb_ℤ (time_sub now c.last_swept) c.interval)) [
      | inl e ↦ rw (prune, e) w
      | inr e ↦
          rw (prune, e)
            (sweep-WellKeyed now (add_int64 (validity c eval_interval) c.interval) c.last_sent w)
    ]

-- Whether a Send delivered a batch that records the fingerprint.
abbrev pub delivered : (List Alert → Option String) → Cadence → ℕ → Duration → List Alert → ℕ → Bool
delivered post c now eval_interval alerts fp =
    let posted = due_at c now eval_interval alerts in
    elim (post posted) [ none ↦ recorded fp posted | some e ↦ false ]

empty_recorded :
    (fp : ℕ) (alerts : List Alert) → nat_beq (length alerts) 0 ≡ true → recorded fp alerts ≡ false
empty_recorded fp [] h = refl
empty_recorded fp (a ∷ alerts) h = ground arith

due-record_sent :
    (c : Cadence) (now later since : ℕ) (eval_interval : Duration) (alerts : List Alert) (a : Alert)
    → Fits c eval_interval
    → WellKeyed c.last_sent
    → now ≤ later
    → due (record_sent c now eval_interval alerts) later a since ≡ (
        if recorded a.fingerprint alerts
        then (if before now since then true else leb_ℤ c.interval (time_sub later now))
        else due c later a since)
unfolding record_sent
due-record_sent c now later since eval_interval alerts a f w h =
    let marked : Cadence = record c { last_sent = mark_sent now alerts c.last_sent } in
    let f' : Fits marked eval_interval = record {
      period = f.period;
      span = f.span;
      times = f.times;
      interval_eq = f.interval_eq;
      eval_eq = f.eval_eq;
      tolerance_eq = f.tolerance_eq;
      room = f.room;
      times_room = f.times_room;
      span_room = f.span_room;
    } in
    rw
      (
        due-prune marked eval_interval f' now later since a
            (mark_sent-WellKeyed now alerts c.last_sent w) h,
        due_eq marked later a since,
        due_eq c later a since,
        get-mark_sent a.fingerprint now alerts c.last_sent,
      )
      (elim (Bool-cases (recorded a.fingerprint alerts)) [ inl e ↦ rw e refl | inr e ↦ rw e refl ])

-- After a Send, an alert is due at any later time as follows: where the Send delivered a batch that has
-- the alert's fingerprint in a phase other than pending, exactly when the alert entered its phase after
-- the Send or the interval has passed since; in every other case (nothing was due, the post failed, or
-- the alert was not in the batch) exactly when it was due before. The map of sent alerts has one entry
-- for each fingerprint, and the durations are not negative and fit an int64.
pub send-due :
    (post : List Alert → Option String) (c : Cadence) (now later since : ℕ)
    (eval_interval : Duration) (alerts : List Alert) (a : Alert)
    → Fits c eval_interval
    → WellKeyed c.last_sent
    → now ≤ later
    → due ((send post c now eval_interval alerts).0) later a since ≡ (
        if delivered post c now eval_interval alerts a.fingerprint
        then (if before now since then true else leb_ℤ c.interval (time_sub later now))
        else due c later a since)
unfolding send
send-due post c now later since eval_interval alerts a f w h =
    let posted = due_at c now eval_interval alerts in
    elim (Bool-cases (nat_beq (length posted) 0)) [
      | inl e ↦ elim (Option-cases (post posted)) [
        | inl p ↦ rw (send, delivered, e, p, empty_recorded a.fingerprint posted e) refl
        | inr p ↦ rw (send, delivered, e, p.1) refl
      ]
      | inr e ↦ elim (Option-cases (post posted)) [
        | inl p ↦
            rw (send, delivered, e, p)
              (due-record_sent c now later since eval_interval posted a f w h)
        | inr p ↦ rw (send, delivered, e, p.1) refl
      ]
    ]

-- A Send keeps one entry for each fingerprint.
pub send-WellKeyed :
    (post : List Alert → Option String) (c : Cadence) (now : ℕ) (eval_interval : Duration)
    (alerts : List Alert)
    → WellKeyed c.last_sent
    → WellKeyed ((send post c now eval_interval alerts).0.last_sent)
unfolding send record_sent
send-WellKeyed post c now eval_interval alerts w =
    let posted = due_at c now eval_interval alerts in
    elim (Bool-cases (nat_beq (length posted) 0)) [
      | inl e ↦ rw (send, e) w
      | inr e ↦ elim (Option-cases (post posted)) [
        | inl p ↦
            rw (send, record_sent, e, p)
              (prune-WellKeyed (record c { last_sent = mark_sent now posted c.last_sent }) now
                eval_interval (mark_sent-WellKeyed now posted c.last_sent w))
        | inr p ↦ rw (send, record_sent, e, p.1) w
      ]
    ]
