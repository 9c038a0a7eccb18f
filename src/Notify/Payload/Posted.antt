-- ===== src/Notify/Payload/Posted.antt =====
-- internal/notify/payload.go on what internal/notify/cadence.go finds due.
use clickhouse_ruler.Base.{
  ℕ, suc, ◌≡◌, refl, ap, sym, ◌∙◌, String, List, [], ◌∷◌, none, some, length, Duration, arith,
  Bool-cases, inl, inr, ◌⊎◌, Option-cases, All,
}
use clickhouse_ruler.Alert.Data.{Alert, Phase, pending, firing, resolved}
use clickhouse_ruler.Notify.Cadence.{Cadence, due, stamp, due_in, due_one, due_at}
use clickhouse_ruler.Notify.Payload.{Entry, payload_one, payload}

payload_one-length :
    (format : ℕ → String) (a : Alert) (p : Phase) (out : List Entry)
    → (p ≡ firing) ⊎ (p ≡ resolved)
    → length (payload_one format a p out) ≡ suc (length out)
unfolding payload_one
payload_one-length format a pending out h = ground arith
payload_one-length format a firing out h = refl
payload_one-length format a resolved out h = refl

-- An alert that is posted: its phase is not pending.
abbrev pub IsPosted : Alert → Type 0
IsPosted a = (a.phase ≡ firing) ⊎ (a.phase ≡ resolved)

stamp-phase :
    (c : Cadence) (now : ℕ) (eval_interval : Duration) (a : Alert)
    → (stamp c now eval_interval a).phase ≡ a.phase
unfolding stamp
stamp-phase c now eval_interval a = refl

due_in-IsPosted :
    (c : Cadence) (now : ℕ) (eval_interval : Duration) (a b : Alert) (p : Phase)
    → a.phase ≡ p
    → due_in c now eval_interval a p ≡ some b
    → IsPosted b
unfolding due_in
due_in-IsPosted c now eval_interval a b pending e h = ground arith
due_in-IsPosted c now eval_interval a b firing e h = elim (Bool-cases (due c now a a.fired_at)) [
  | inl d ↦
      let w : some (stamp c now eval_interval a) ≡ some b = rw (sym h, d) refl in
      inl (ground (arith, w, e, stamp-phase c now eval_interval a))
  | inr d ↦ let w : none ≡ some b = rw (sym h, d) refl in ground (arith, w)
]
due_in-IsPosted c now eval_interval a b resolved e h =
    elim (Bool-cases (due c now a a.resolved_at)) [
      | inl d ↦ let w : some a ≡ some b = rw (sym h, d) refl in inr (ground (arith, w, e))
      | inr d ↦ let w : none ≡ some b = rw (sym h, d) refl in ground (arith, w)
    ]

due_one-IsPosted :
    (c : Cadence) (now : ℕ) (eval_interval : Duration) (a b : Alert)
    → due_one c now eval_interval a ≡ some b
    → IsPosted b
unfolding due_one
due_one-IsPosted c now eval_interval a b h = due_in-IsPosted c now eval_interval a b a.phase refl h

due_at-IsPosted :
    (c : Cadence) (now : ℕ) (eval_interval : Duration) (alerts : List Alert)
    → All IsPosted (due_at c now eval_interval alerts)
unfolding due_at
due_at-IsPosted c now eval_interval [] = tt
due_at-IsPosted c now eval_interval (a ∷ alerts) =
    elim (Option-cases (due_one c now eval_interval a)) [
      | inl e ↦ rw (due_at, e) (due_at-IsPosted c now eval_interval alerts)
      | inr (b, e) ↦
          rw (due_at, e)
            (due_one-IsPosted c now eval_interval a b e, due_at-IsPosted c now eval_interval alerts)
    ]

payload-length :
    (format : ℕ → String) (alerts : List Alert)
    → All IsPosted alerts
    → length (payload format alerts) ≡ length alerts
unfolding payload
payload-length format [] h = refl
payload-length format (a ∷ alerts) h =
    payload_one-length format a a.phase (payload format alerts) h.0
    ∙ ap suc (payload-length format alerts h.1)

-- The batch that a Cadence finds due is posted whole: the payload has one entry for each of its alerts, so that
-- an alert which is then recorded as sent was in the request's body.
pub payload-due_at :
    (format : ℕ → String) (c : Cadence) (now : ℕ) (eval_interval : Duration) (alerts : List Alert)
    → length (payload format (due_at c now eval_interval alerts))
      ≡ length (due_at c now eval_interval alerts)
payload-due_at format c now eval_interval alerts =
    payload-length format (due_at c now eval_interval alerts)
      (due_at-IsPosted c now eval_interval alerts)
