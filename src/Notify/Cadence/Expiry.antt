-- ===== src/Notify/Cadence/Expiry.antt =====
-- internal/notify/cadence.go: the expiry that a firing alert carries against the ticks that can send it
-- again.
use clickhouse_ruler.Base.{
  ℕ, suc, ◌+◌, ◌*◌, ◌≤◌, ◌<◌, max, ◌≡◌, refl, true, false, String, List, Option, none, some,
  Duration, pos, time_add, time_sub, before, leb_ℤ, ltb_ℤ, if◌then◌else◌, arith, Bool-cases,
  Option-cases, inl, inr, max_int64, nat_eq, nat_beq, sym, subst, ap, ◌∙◌, ◌++◌, [], ◌∷◌, length,
}
use native.Mathlib.Nat.{mul-le-mul_left, mul-le-mul_right}
use clickhouse_ruler.GoMap.{WellKeyed}
use clickhouse_ruler.Alert.Data.{Alert, firing}
use clickhouse_ruler.Notify.Cadence.{
  Cadence, validity, due, due_in, due_one, due_at, stamp, prune, record_sent, send,
}
use clickhouse_ruler.Notify.Cadence.Throttle.{Fits, validity_lem}
use clickhouse_ruler.Notify.Cadence.Delivery.{delivered, send-due, send-WellKeyed}

late_tick :
    (j f span period times : ℕ)
    → j * span < period
    → f + 2 ≤ times
    → (suc j + f) * span < times * max period span
late_tick j f span period times h t =
    let m : span ≤ max period span = ground arith in
    let p : period ≤ max period span = ground arith in
    omega (arith, h, m, p, mul-le-mul_left f m, mul-le-mul_right (max period span) t)

stamp-valid_until :
    (c : Cadence) (now : ℕ) (eval_interval : Duration) (a : Alert)
    → (stamp c now eval_interval a).valid_until ≡ time_add now (validity c eval_interval)
unfolding stamp
stamp-valid_until c now eval_interval a = refl

due_in-firing :
    (c : Cadence) (now : ℕ) (eval_interval : Duration) (a posted : Alert)
    → due_in c now eval_interval a firing ≡ some posted
    → posted.valid_until ≡ time_add now (validity c eval_interval)
unfolding due_in
due_in-firing c now eval_interval a posted h = elim (Bool-cases (due c now a a.fired_at)) [
  | inl d ↦
      let w : some (stamp c now eval_interval a) ≡ some posted = rw (sym h, d) refl in
      ground (arith, w, stamp-valid_until c now eval_interval a)
  | inr d ↦ let w : none ≡ some posted = rw (sym h, d) refl in ground (arith, w)
]

due_one-firing :
    (c : Cadence) (now : ℕ) (eval_interval : Duration) (a posted : Alert)
    → a.phase ≡ firing
    → due_one c now eval_interval a ≡ some posted
    → posted.valid_until ≡ time_add now (validity c eval_interval)
unfolding due_one
due_one-firing c now eval_interval a posted e h =
    due_in-firing c now eval_interval a posted
      (subst (λ p. due_in c now eval_interval a p ≡ some posted) e h)

send-interval :
    (post : List Alert → Option String) (c : Cadence) (now : ℕ) (eval_interval : Duration)
    (alerts : List Alert)
    → ((send post c now eval_interval alerts).0.interval ≡ c.interval)
      × ((send post c now eval_interval alerts).0.tolerance ≡ c.tolerance)
unfolding send record_sent prune
send-interval post c now eval_interval alerts =
    let posted = due_at c now eval_interval alerts in
    elim (Bool-cases (nat_beq (length posted) 0)) [
      | inl e ↦ rw (send, e) (refl, refl)
      | inr e ↦ elim (Option-cases (post posted)) [
        | inr p ↦ rw (send, e, p.1) (refl, refl)
        | inl p ↦ elim (Bool-cases (ltb_ℤ (time_sub now c.last_swept) c.interval)) [
          | inl s ↦ rw (send, record_sent, prune, e, p, s) (refl, refl)
          | inr s ↦ rw (send, record_sent, prune, e, p, s) (refl, refl)
        ]
      ]
    ]

send-Fits :
    (post : List Alert → Option String) (c : Cadence) (now : ℕ) (eval_interval : Duration)
    (alerts : List Alert)
    → Fits c eval_interval
    → Fits ((send post c now eval_interval alerts).0) eval_interval
send-Fits post c now eval_interval alerts f = record {
  period = f.period;
  span = f.span;
  times = f.times;
  interval_eq = (send-interval post c now eval_interval alerts).0 ∙ f.interval_eq;
  eval_eq = f.eval_eq;
  tolerance_eq = (send-interval post c now eval_interval alerts).1 ∙ f.tolerance_eq;
  room = f.room;
  times_room = f.times_room;
  span_room = f.span_room;
}

-- What a later Send is given, and what its post answers.
pub record Attempt : Type 0 where
  pub answer : List Alert → Option String
  pub batch : List Alert

-- The Sends of the ticks after the k-th, one at each.
abbrev pub send_later : Cadence → ℕ → ℕ → ℕ → Duration → List Attempt → Cadence
send_later c sent k span eval_interval [] = c
send_later c sent k span eval_interval (t ∷ attempts) =
    send_later (send t.answer c (sent + suc k * span) eval_interval t.batch).0 sent (suc k) span
      eval_interval attempts

-- None of them delivers the fingerprint.
abbrev pub Undelivered : ℕ → Cadence → ℕ → ℕ → ℕ → Duration → List Attempt → Type 0
Undelivered fp c sent k span eval_interval [] = Unit
Undelivered fp c sent k span eval_interval (t ∷ attempts) =
    (delivered t.answer c (sent + suc k * span) eval_interval t.batch fp ≡ false)
    × Undelivered fp (send t.answer c (sent + suc k * span) eval_interval t.batch).0 sent (suc k)
        span eval_interval attempts

due-send_later :
    (attempts : List Attempt) (c : Cadence) (sent k span later since : ℕ) (eval_interval : Duration)
    (a : Alert)
    → Fits c eval_interval
    → WellKeyed c.last_sent
    → Undelivered a.fingerprint c sent k span eval_interval attempts
    → sent + (k + length attempts) * span ≤ later
    → due (send_later c sent k span eval_interval attempts) later a since ≡ due c later a since
due-send_later [] c sent k span later since eval_interval a f w u h = refl
due-send_later (t ∷ attempts) c sent k span later since eval_interval a f w u h =
    let now = sent + suc k * span in
    let first : suc k * span ≤ (k + suc (length attempts)) * span =
      mul-le-mul_right span (omega arith) in
    due-send_later attempts (send t.answer c now eval_interval t.batch).0 sent (suc k) span later
      since eval_interval a (send-Fits t.answer c now eval_interval t.batch f)
      (send-WellKeyed t.answer c now eval_interval t.batch w) u.1
      (subst (λ m. sent + m * span ≤ later) (omega arith) h)
    ∙ (send-due t.answer c now later since eval_interval t.batch a f w (omega (first, h, arith))
        ∙ rw u.0 refl)

due_at-app :
    (c : Cadence) (now : ℕ) (eval_interval : Duration) (xs ys : List Alert)
    → due_at c now eval_interval (xs ++ ys)
      ≡ due_at c now eval_interval xs ++ due_at c now eval_interval ys
unfolding due_at
due_at-app c now eval_interval [] ys = refl
due_at-app c now eval_interval (x ∷ xs) ys = elim (Option-cases (due_one c now eval_interval x)) [
  | inl e ↦ rw (due_at, e) (due_at-app c now eval_interval xs ys)
  | inr e ↦ rw (due_at, e.1) (ap (λ r. e.0 ∷ r) (due_at-app c now eval_interval xs ys))
]

due_at-firing :
    (c : Cadence) (now : ℕ) (eval_interval : Duration) (xs ys : List Alert) (a : Alert)
    → a.phase ≡ firing
    → due c now a a.fired_at ≡ true
    → due_at c now eval_interval (xs ++ a ∷ ys)
      ≡ due_at c now eval_interval xs ++ stamp c now eval_interval a ∷ due_at c now eval_interval ys
unfolding due_at due_one due_in
due_at-firing c now eval_interval xs ys a e d =
    let i : due_in c now eval_interval a firing ≡ some (stamp c now eval_interval a) =
      rw (due_in, d) refl in
    let o : due_one c now eval_interval a ≡ some (stamp c now eval_interval a) =
      subst (λ p. due_in c now eval_interval a p ≡ some (stamp c now eval_interval a)) (sym e) i in
    due_at-app c now eval_interval xs (a ∷ ys) ∙ rw o refl

due_again :
    (period sent since n span : ℕ)
    → period ≤ max_int64
    → period ≤ n * span
    → (if before sent since then true else leb_ℤ (pos period) (time_sub (sent + n * span) sent))
      ≡ true
due_again period sent since n span m h = ground arith

-- A firing alert that a Send posts and delivers at `sent` is posted again before it expires, also where
-- later Sends fail. The group ticks at `sent + k * span`, and the `suc j`-th tick is the first at which the
-- interval has passed. At each of the `j + failed` ticks after the Send there is a Send of any batch with any
-- outcome, none of which delivers the alert. Then the next Send posts the alert, wherever it stands in its batch, and
-- with a tolerance of at least `failed + 2` that tick is before the expiry that the alert was last
-- delivered with. The map of sent alerts has one entry for each fingerprint, and the durations are not
-- negative and fit an int64.
pub before-valid_until :
    (post : List Alert → Option String) (c : Cadence) (sent j failed : ℕ) (eval_interval : Duration)
    (alerts : List Alert) (a posted : Alert) (f : Fits c eval_interval) (attempts : List Attempt)
    (xs ys : List Alert) (b : Alert)
    → WellKeyed c.last_sent
    → a.phase ≡ firing
    → due_one c sent eval_interval a ≡ some posted
    → delivered post c sent eval_interval alerts a.fingerprint ≡ true
    → j * f.span < f.period
    → f.period ≤ suc j * f.span
    → length attempts ≡ j + failed
    → Undelivered a.fingerprint
        ((send post c sent eval_interval alerts).0)
        sent
        0
        f.span
        eval_interval
        attempts
    → b.fingerprint ≡ a.fingerprint
    → b.phase ≡ firing
    → failed + 2 ≤ f.times
    → let c' =
        send_later
          ((send post c sent eval_interval alerts).0)
          sent
          0
          f.span
          eval_interval
          attempts in
      let tick = sent + (suc j + failed) * f.span in
      (due_at c' tick eval_interval (xs ++ b ∷ ys)
        ≡ due_at c' tick eval_interval xs
          ++ stamp c' tick eval_interval b ∷ due_at c' tick eval_interval ys)
      × (before tick posted.valid_until ≡ true)
before-valid_until post c sent j failed eval_interval alerts a posted f attempts xs ys b w e h g
      early again n u same firing_b t =
    let c1 = (send post c sent eval_interval alerts).0 in
    let tick = sent + (suc j + failed) * f.span in
    let below : (0 + length attempts) * f.span ≤ (suc j + failed) * f.span =
      mul-le-mul_right f.span (omega (n, arith)) in
    let reached : suc j * f.span ≤ (suc j + failed) * f.span =
      mul-le-mul_right f.span (omega arith) in
    (
      due_at-firing (send_later c1 sent 0 f.span eval_interval attempts) tick eval_interval xs ys b
          firing_b
          (due-send_later attempts c1 sent 0 f.span tick b.fired_at eval_interval b
              (send-Fits post c sent eval_interval alerts f)
              (send-WellKeyed post c sent eval_interval alerts w)
              (subst (λ fp. Undelivered fp c1 sent 0 f.span eval_interval attempts) (sym same) u)
              (omega (below, arith))
            ∙ (send-due post c sent tick b.fired_at eval_interval alerts b f w (omega arith)
                ∙ rw (same, g, f.interval_eq)
                    (due_again f.period sent b.fired_at (suc j + failed) f.span
                      (omega (f.room, arith)) (omega (reached, again, arith))))),
      rw (due_one-firing c sent eval_interval a posted e h, validity_lem c eval_interval f)
          (ground (arith, late_tick j failed f.span f.period f.times early t)),
    )
