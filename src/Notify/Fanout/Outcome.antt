-- ===== src/Notify/Fanout/Outcome.antt =====
-- internal/notify/fanout.go: when a batch counts as delivered.
use clickhouse_ruler.Base.{
  sym, ◌∙◌, ◌≡◌, refl, ◌↔◌, ◌⊎◌, inl, inr, List, [], ◌∷◌, none, some, Option-cases, arith,
}
use clickhouse_ruler.Alert.Data.{Alert}
use clickhouse_ruler.Notify.Fanout.{Sender, outcomes, all_errors, report, send}

-- A sender of the list takes the batch.
abbrev pub Accepted : List Sender → List Alert → Type 0
Accepted [] alerts = ⊥
Accepted (s ∷ senders) alerts = (s alerts ≡ none) ⊎ Accepted senders alerts

Accepted-all_errors :
    (senders : List Sender) (alerts : List Alert)
    → Accepted senders alerts
    → all_errors (outcomes senders alerts) ≡ none
unfolding outcomes all_errors
Accepted-all_errors [] alerts h = absurd h
Accepted-all_errors (s ∷ senders) alerts (inl h) = rw h refl
Accepted-all_errors (s ∷ senders) alerts (inr h) = elim (Option-cases (s alerts)) [
  | inl e ↦ rw e refl
  | inr e ↦ rw (e.1, Accepted-all_errors senders alerts h) refl
]

all_errors-Accepted :
    (senders : List Sender) (alerts : List Alert)
    → all_errors (outcomes senders alerts) ≡ none
    → Accepted senders alerts
unfolding outcomes all_errors
all_errors-Accepted [] alerts h = ground arith
all_errors-Accepted (s ∷ senders) alerts h = elim (Option-cases (s alerts)) [
  | inl e ↦ inl e
  | inr e ↦ elim (Option-cases (all_errors (outcomes senders alerts))) [
    | inl g ↦ inr (all_errors-Accepted senders alerts g)
    | inr g ↦
        let w : all_errors (outcomes (s ∷ senders) alerts) ≡ some (e.0 ∷ g.0) =
          rw (e.1, g.1) refl in
        let x : some (e.0 ∷ g.0) ≡ none = sym w ∙ h in ground (arith, x)
  ]
]

-- A Fanout reports a batch as delivered exactly when one of its endpoints took it; with no endpoint it
-- reports an error.
pub send-Accepted :
    (senders : List Sender) (alerts : List Alert)
    → (send senders alerts ≡ none) ↔ Accepted senders alerts
unfolding send
send-Accepted [] alerts = (λ h. ground (arith, h), λ h. absurd h)
send-Accepted (s ∷ senders) alerts = (
  λ h. elim (Option-cases (all_errors (outcomes (s ∷ senders) alerts))) [
    | inl e ↦ all_errors-Accepted (s ∷ senders) alerts e
    | inr e ↦
        let w : send (s ∷ senders) alerts ≡ some (report e.0) = rw (send, e.1) refl in
        let x : some (report e.0) ≡ none = sym w ∙ h in ground (arith, x)
  ],
  λ h. rw (send, Accepted-all_errors (s ∷ senders) alerts h) refl,
)
