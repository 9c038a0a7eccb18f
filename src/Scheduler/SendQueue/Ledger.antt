-- ===== src/Scheduler/SendQueue/Ledger.antt =====
-- internal/scheduler/sendqueue.go: what the queue holds, over any interleaving of its steps.
use mathlib.Core.List.{append_assoc, append-nil}
use clickhouse_ruler.Base.{
  ℕ, suc, ◌+◌, ◌-◌, ◌≤◌, ◌≡◌, refl, List, [], ◌∷◌, ◌++◌, Option, none, some, ◌⊎◌, inl, inr, nat_beq,
  ltb, length, arith, Bool-cases, List-cases, ℤ, subst, ap, sym, ◌∙◌,
}
use clickhouse_ruler.Scheduler.SendQueue.{
  SendItem, SendQueue, new_send_queue, Room, make_room, enqueue, next, abandon, close,
}
use clickhouse_ruler.Scheduler.SendQueue.Sublist.{
  Sublist, done, Sublist-snoc, Sublist-later, Sublist-trans, without_rest, drop_block,
}

-- How many alerts the batches hold.
abbrev pub total : List SendItem → ℕ
total [] = 0
total (item ∷ items) = length item.alerts + total items

pub total-append : (xs ys : List SendItem) → total (xs ++ ys) ≡ total xs + total ys
total-append [] ys = omega arith
total-append (x ∷ xs) ys = ground (arith, total-append xs ys)

-- What the loop of Enqueue leaves: the batches without a prefix, whose alerts are counted as dropped.
record Fitted (capacity len : ℕ) (items : List SendItem) (dropped : ℕ) (room : Room) : Type 0 where
  pub prefix : List SendItem
  pub split : items ≡ prefix ++ room.items
  pub queued_eq : room.queued ≡ total room.items
  pub dropped_eq : room.dropped ≡ dropped + total prefix
  pub fits : (room.items ≡ []) ⊎ (total room.items + len ≤ capacity)

make_room-Fitted :
    (capacity len : ℕ) (items : List SendItem) (dropped : ℕ)
    → Fitted capacity len items dropped (make_room capacity len items (total items) dropped)
unfolding make_room
make_room-Fitted capacity len [] dropped = record {
  prefix = [];
  split = refl;
  queued_eq = refl;
  dropped_eq = omega arith;
  fits = inl refl;
}
make_room-Fitted capacity len (x ∷ items) dropped =
    let n = length x.alerts in
    elim (Bool-cases (ltb capacity (n + total items + len))) [
      | inl e ↦
          let back : n + total items - n ≡ total items = omega arith in
          let ih = make_room-Fitted capacity len items (dropped + n) in
          rw (make_room, e, back)
            record {
              prefix = x ∷ ih.prefix;
              split = rw⁻¹ ih.split refl;
              queued_eq = ih.queued_eq;
              dropped_eq = omega (ih.dropped_eq, arith);
              fits = ih.fits;
            }
      | inr e ↦
          rw (make_room, e)
            record {
              prefix = [];
              split = refl;
              queued_eq = refl;
              dropped_eq = omega arith;
              fits = inr (ground arith);
            }
    ]

-- The queue with what went through it: the batches that were offered and those that the worker took, in order.
pub record Ledger : Type 0 where
  pub queue : SendQueue
  pub offered : List SendItem
  pub taken : List SendItem

-- The steps that the evaluations (`offer`), the worker (`take_next`, `give_up`) and the shutdown
-- (`shut`) make, one at a time under the mutex.
pub data Event : Type 0 where
  offer : SendItem → Event
  take_next : Event
  give_up : Event
  shut : Event

abbrev taken_item : Option SendItem → List SendItem
taken_item none = []
taken_item (some item) = item ∷ []

abbrev pub after : Event → Ledger → Ledger
after (offer item) l = record l { queue = enqueue item l.queue; offered = l.offered ++ (item ∷ []) }
after take_next l = record l {
  queue = (next l.queue).0;
  taken = l.taken ++ taken_item (next l.queue).1;
}
after give_up l = record l { queue = abandon l.queue }
after shut l = record l { queue = close l.queue }

abbrev pub run : List Event → Ledger → Ledger
run [] l = l
run (e ∷ events) l = run events (after e l)

abbrev pub fresh : ℤ → Ledger
fresh capacity = record { queue = new_send_queue capacity; offered = []; taken = [] }

pub record Balanced (l : Ledger) : Type 0 where
  pub queued_eq : l.queue.queued ≡ total l.queue.items
  pub accounts : total l.offered ≡ total l.taken + l.queue.dropped_total + l.queue.queued
  pub bound : (l.queue.queued ≤ l.queue.capacity) ⊎ (length l.queue.items ≤ 1)
  pub order : Sublist (l.taken ++ l.queue.items) l.offered

room-bound :
    (capacity len : ℕ) (items : List SendItem) (item : SendItem)
    → (items ≡ []) ⊎ (total items + len ≤ capacity)
    → (total items + len ≤ capacity) ⊎ (length (items ++ (item ∷ [])) ≤ 1)
room-bound capacity len items item (inl e) = inr (rw e (omega arith))
room-bound capacity len items item (inr h) = inl h

module _ (item : SendItem) (l : Ledger) (b : Balanced l) where
  abbrev q : SendQueue
  q = l.queue

  abbrev len : ℕ
  len = length item.alerts

  abbrev room : Room
  room = make_room q.capacity len q.items q.queued 0

  room-Fitted : Fitted q.capacity len q.items 0 room
  room-Fitted = rw b.queued_eq (make_room-Fitted q.capacity len q.items 0)

  room-order : Sublist (l.taken ++ (room.items ++ (item ∷ []))) (l.offered ++ (item ∷ []))
  room-order =
      let f = room-Fitted in
      let s : Sublist (l.taken ++ (f.prefix ++ room.items)) l.offered =
        subst (λ xs. Sublist (l.taken ++ xs) l.offered) f.split b.order in
      subst (λ xs. Sublist xs (l.offered ++ (item ∷ [])))
        (append_assoc l.taken room.items (item ∷ []))
        (Sublist-snoc item (drop_block l.taken f.prefix room.items s))

  room-accounts :
      total (l.offered ++ (item ∷ []))
      ≡ total l.taken + (q.dropped_total + room.dropped) + (room.queued + len)
  room-accounts =
      let f = room-Fitted in
      let t : total q.items ≡ total f.prefix + total room.items =
        ap total f.split ∙ total-append f.prefix room.items in
      omega (
        total-append l.offered (item ∷ []),
        b.accounts,
        b.queued_eq,
        f.queued_eq,
        f.dropped_eq,
        t,
        arith,
      )

  enqueue-Balanced : Balanced (after (offer item) l)
  unfolding enqueue
  enqueue-Balanced = elim (Bool-cases (nat_beq len 0)) [
    | inl e ↦
        rw (enqueue, e)
          record {
            queued_eq = b.queued_eq;
            accounts = ground (total-append l.offered (item ∷ []), b.accounts, arith);
            bound = b.bound;
            order = Sublist-later item b.order;
          }
    | inr e ↦ elim (Bool-cases q.closed) [
      | inl c ↦
          rw (enqueue, e, c)
            record {
              queued_eq = b.queued_eq;
              accounts = omega (total-append l.offered (item ∷ []), b.accounts, arith);
              bound = b.bound;
              order = Sublist-later item b.order;
            }
      | inr c ↦
          let f = room-Fitted in
          rw (enqueue, e, c)
            record {
              queued_eq = omega (total-append room.items (item ∷ []), f.queued_eq, arith);
              accounts = room-accounts;
              bound = rw f.queued_eq (room-bound q.capacity len room.items item f.fits);
              order = room-order;
            }
    ]
  ]

next-Balanced : (l : Ledger) → Balanced l → Balanced (after take_next l)
unfolding next
next-Balanced l b = elim (List-cases l.queue.items) [
  | inl e ↦ rw (next, e, append-nil l.taken) b
  | inr (x, (xs, e)) ↦
      let t : total l.queue.items ≡ length x.alerts + total xs = ap total e in
      let length_eq : length l.queue.items ≡ suc (length xs) = ap length e in
      rw (next, e)
        record {
          queued_eq = omega (b.queued_eq, t, arith);
          accounts = omega (b.queued_eq, b.accounts, t, total-append l.taken (x ∷ []), arith);
          bound = elim b.bound [
            | inl h ↦ inl (omega arith)
            | inr h ↦ inr (omega (h, length_eq, arith))
          ];
          order =
              subst (λ ys. Sublist ys l.offered) (sym (append_assoc l.taken (x ∷ []) xs))
                (subst (λ ys. Sublist (l.taken ++ ys) l.offered) e b.order);
        }
]

give_up-Balanced : (l : Ledger) → Balanced l → Balanced (after give_up l)
unfolding abandon
give_up-Balanced l b =
    let order : Sublist (l.taken ++ []) l.offered =
      Sublist-trans (without_rest l.taken l.queue.items) b.order in
    elim (Bool-cases (nat_beq l.queue.queued 0)) [
      | inl e ↦
          rw (abandon, e)
            record {
              queued_eq = refl;
              accounts = ground (b.accounts, arith);
              bound = inr (omega arith);
              order = order;
            }
      | inr e ↦
          rw (abandon, e)
            record {
              queued_eq = refl;
              accounts = omega (b.accounts, arith);
              bound = inr (omega arith);
              order = order;
            }
    ]

after-Balanced : (e : Event) (l : Ledger) → Balanced l → Balanced (after e l)
unfolding close
after-Balanced (offer item) l b = enqueue-Balanced item l b
after-Balanced take_next l b = next-Balanced l b
after-Balanced give_up l b = give_up-Balanced l b
after-Balanced shut l b = record {
  queued_eq = b.queued_eq;
  accounts = b.accounts;
  bound = b.bound;
  order = b.order;
}

run_Balanced : (events : List Event) (l : Ledger) → Balanced l → Balanced (run events l)
run_Balanced [] l b = b
run_Balanced (e ∷ events) l b = run_Balanced events (after e l) (after-Balanced e l b)

-- Whatever the evaluations, the worker and the shutdown do, in any interleaving: the count of queued
-- alerts is that of the batches in the queue; every alert that was offered was taken by the worker, or
-- counted as dropped, or is queued; the queue holds at most its capacity, or a single batch; and the
-- batches that were taken, followed by those that wait, are in the order in which they were offered.
pub run-Balanced : (capacity : ℤ) (events : List Event) → Balanced (run events (fresh capacity))
unfolding new_send_queue
run-Balanced capacity events =
    run_Balanced events (fresh capacity)
      record { queued_eq = refl; accounts = refl; bound = inr (omega arith); order = done }
