-- ===== src/Scheduler/SendQueue/Drain.antt =====
-- internal/scheduler/sendqueue.go: the worker's drain with no enqueue in between.
use clickhouse_ruler.Base.{
  ℕ, zero, suc, ◌<◌, ◌≡◌, refl, Bool, false, String, List, [], ◌∷◌, Option, length, arith,
  Bool-cases, List-cases, inl, inr, ap, ◌∙◌,
}
use clickhouse_ruler.Alert.Data.{Alert}
use clickhouse_ruler.Notify.Cadence.{Cadence}
use clickhouse_ruler.Scheduler.SendQueue.{SendItem, SendQueue, next, abandon, send_item, drain}

-- One Send for each batch, the oldest first; `post n` answers the n-th.
abbrev pub deliver_all : (ℕ → List Alert → Option String) → List SendItem → Cadence → Cadence
deliver_all post [] c = c
deliver_all post (item ∷ items) c =
    deliver_all (λ n. post (suc n)) items ((send_item (post 0) c item).0)

abandon-items : (q : SendQueue) → (abandon q).items ≡ []
unfolding abandon
abandon-items q = ground arith

abbrev rest_of : List SendItem → List SendItem
rest_of [] = []
rest_of (item ∷ items) = items

next-items : (q : SendQueue) → ((next q).0).items ≡ rest_of q.items
unfolding next
next-items q = elim (List-cases q.items) [
  | inl e ↦ rw (next, e) e
  | inr (x, (xs, e)) ↦ rw (next, e) refl
]

next-items_cons :
    (q : SendQueue) (x : SendItem) (xs : List SendItem) → q.items ≡ x ∷ xs → ((next q).0).items ≡ xs
next-items_cons q x xs e = next-items q ∙ ap rest_of e

-- The drain ends with an empty queue, whether or not the context is cancelled on the way, given fuel above the
-- number of batches.
pub drain-items :
    (post : ℕ → List Alert → Option String) (cancelled : ℕ → Bool) (fuel : ℕ) (q : SendQueue)
    (c : Cadence)
    → length q.items < fuel
    → ((drain post cancelled fuel q c).0).items ≡ []
unfolding drain next
drain-items post cancelled zero q c h = ground arith
drain-items post cancelled (suc fuel) q c h = elim (Bool-cases (cancelled 0)) [
  | inl e ↦ rw (drain, e) (abandon-items q)
  | inr e ↦ elim (List-cases q.items) [
    | inl g ↦ rw (drain, e, next, g) (next-items q ∙ ap rest_of g)
    | inr (x, (xs, g)) ↦
        rw (drain, e, next, g)
          let e' = next-items_cons q x xs g in
            let l : length q.items ≡ suc (length xs) = ap length g in
            drain-items (λ n. post (suc n)) (λ n. cancelled (suc n)) fuel ((next q).0)
              ((send_item (post 0) c x).0) (rw e' (omega (l, h, arith)))
  ]
]

-- While the context lives, the drain is one Send for each batch that waits, the oldest first, whatever each
-- of them is answered, given fuel above the number of batches.
pub drain_lem :
    (post : ℕ → List Alert → Option String) (cancelled : ℕ → Bool) (fuel : ℕ) (q : SendQueue)
    (c : Cadence)
    → ((n : ℕ) → cancelled n ≡ false)
    → length q.items < fuel
    → (drain post cancelled fuel q c).1 ≡ deliver_all post q.items c
unfolding drain next
drain_lem post cancelled zero q c live h = ground arith
drain_lem post cancelled (suc fuel) q c live h = elim (List-cases q.items) [
  | inl g ↦ rw (drain, live 0, next, g) refl
  | inr (x, (xs, g)) ↦
      let e' = next-items_cons q x xs g in
      let l : length q.items ≡ suc (length xs) = ap length g in
      rw (drain, live 0, next, g)
        (drain_lem (λ n. post (suc n)) (λ n. cancelled (suc n)) fuel ((next q).0)
            ((send_item (post 0) c x).0) (λ n. live (suc n)) (rw e' (omega (l, h, arith)))
          ∙ rw e' refl)
]
