-- ===== src/Scheduler/SendQueue.antt =====
-- internal/scheduler/sendqueue.go. The mutex makes each of Enqueue, next, abandon and the closing of
-- Drain one step on the queue's state, and the worker's loop is a sequence of them.
pub mod Drain
pub mod Ledger
pub mod Sublist
use clickhouse_ruler.Base.{
  ℕ, zero, suc, ◌+◌, ◌-◌, Bool, true, false, String, List, [], ◌∷◌, ◌++◌, Option, none, some,
  if◌then◌else◌, nat_beq, ltb, length, Duration, ℤ, pos, negsuc,
}
use clickhouse_ruler.Alert.Data.{Alert}
use clickhouse_ruler.Notify.Cadence.{Cadence}
use clickhouse_ruler.Notify.Cadence

-- sendItem.
pub record SendItem : Type 0 where
  pub group : String
  pub rule : String
  pub now : ℕ
  pub interval : Duration
  pub alerts : List Alert
  pub queued_at : ℕ

-- The queue, with the two metrics that it writes: `dropped_total` is NotificationsDropped, and
-- `depth` is NotificationQueueLength.
pub record SendQueue : Type 0 where
  pub capacity : ℕ
  pub items : List SendItem
  pub queued : ℕ
  pub closed : Bool
  pub dropped_total : ℕ
  pub depth : ℕ

abbrev pub default_notification_queue_capacity : ℕ
default_notification_queue_capacity = 10000

-- `capacity <= 0` takes the default.
abbrev capacity_of : ℤ → ℕ
capacity_of (pos n) = if nat_beq n 0 then default_notification_queue_capacity else n
capacity_of (negsuc n) = default_notification_queue_capacity

unfoldable pub new_send_queue : ℤ → SendQueue
new_send_queue capacity = record {
  capacity = capacity_of capacity;
  items = [];
  queued = 0;
  closed = false;
  dropped_total = 0;
  depth = 0;
}

-- What the loop of Enqueue that drops the oldest batches leaves.
pub record Room : Type 0 where
  pub items : List SendItem
  pub queued : ℕ
  pub dropped : ℕ

-- `queued` is at least the length that is taken from it: it is the sum of the batches' lengths.
unfoldable pub make_room : ℕ → ℕ → List SendItem → ℕ → ℕ → Room
make_room capacity len [] queued dropped = record { items = []; queued = queued; dropped = dropped }
make_room capacity len (oldest ∷ items) queued dropped =
    let rest =
      make_room capacity len items (queued - length oldest.alerts)
        (dropped + length oldest.alerts) in
    if ltb capacity (queued + len)
    then rest
    else record { items = oldest ∷ items; queued = queued; dropped = dropped }

unfoldable pub enqueue : SendItem → SendQueue → SendQueue
unfolding make_room
enqueue item q =
    let len = length item.alerts in
    let room = make_room q.capacity len q.items q.queued 0 in
    if nat_beq len 0
    then q
    else if q.closed
    then record q { dropped_total = q.dropped_total + len }
    else record q {
      items = room.items ++ (item ∷ []);
      queued = room.queued + len;
      depth = room.queued + len;
      dropped_total = q.dropped_total + room.dropped;
    }

unfoldable pub next : SendQueue → SendQueue × Option SendItem
next q = elim q.items [
  | [] ↦ (q, none)
  | item ∷ items ↦ (
    record q {
      items = items;
      queued = q.queued - length item.alerts;
      depth = q.queued - length item.alerts;
    },
    some item,
  )
]

unfoldable pub abandon : SendQueue → SendQueue
abandon q =
    if nat_beq q.queued 0
    then record q { items = []; queued = 0 }
    else record q { items = []; queued = 0; dropped_total = q.dropped_total + q.queued; depth = 0 }

-- Drain's first step.
unfoldable pub close : SendQueue → SendQueue
close q = record q { closed = true }

-- send: the cadence's Send from the evaluation's clock reading.
unfoldable pub send_item :
    (List Alert → Option String) → Cadence → SendItem → Cadence × Option String
send_item post c item = Cadence.send post c item.now item.interval item.alerts

-- drain with no enqueue in between: `cancelled n` is the context's state before the n-th round, and `post n` is what that
-- round's Send would be answered; a batch's failure is only logged. Each round takes an item, so `fuel`
-- above the number of items reaches the end.
unfoldable pub drain :
    (ℕ → List Alert → Option String) → (ℕ → Bool) → ℕ → SendQueue → Cadence → SendQueue × Cadence
unfolding next abandon send_item
drain post cancelled zero q c = (q, c)
drain post cancelled (suc fuel) q c = elim (cancelled 0) [
  | true ↦ (abandon q, c)
  | false ↦ elim (next q).1 [
    | none ↦ ((next q).0, c)
    | some item ↦
        drain (λ n. post (suc n)) (λ n. cancelled (suc n)) fuel (next q).0
          (send_item (post 0) c item).0
  ]
]
