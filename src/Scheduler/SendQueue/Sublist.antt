-- ===== src/Scheduler/SendQueue/Sublist.antt =====
-- The order of the batches of internal/scheduler/sendqueue.go: a list inside another.
use clickhouse_ruler.Base.{List, [], ◌∷◌, ◌++◌}
use clickhouse_ruler.Scheduler.SendQueue.{SendItem}

-- `Sublist xs ys`: `xs` is `ys` with some batches left out, in the same order.
pub data Sublist : List SendItem → List SendItem → Type 0 where
  done : Sublist [] []
  keep : {x : SendItem} {xs ys : List SendItem} → Sublist xs ys → Sublist (x ∷ xs) (x ∷ ys)
  skip : {x : SendItem} {xs ys : List SendItem} → Sublist xs ys → Sublist xs (x ∷ ys)

pub Sublist-snoc :
    {xs ys : List SendItem} (x : SendItem)
    → Sublist xs ys
    → Sublist (xs ++ (x ∷ [])) (ys ++ (x ∷ []))
Sublist-snoc x done = keep done
Sublist-snoc x (keep s) = keep (Sublist-snoc x s)
Sublist-snoc x (skip s) = skip (Sublist-snoc x s)

Sublist-refl : (xs : List SendItem) → Sublist xs xs
Sublist-refl [] = done
Sublist-refl (x ∷ xs) = keep (Sublist-refl xs)

pub Sublist-trans : {xs ys zs : List SendItem} → Sublist xs ys → Sublist ys zs → Sublist xs zs
Sublist-trans s done = s
Sublist-trans (keep s) (keep t) = keep (Sublist-trans s t)
Sublist-trans (skip s) (keep t) = skip (Sublist-trans s t)
Sublist-trans s (skip t) = skip (Sublist-trans s t)

without_block : (xs ds zs : List SendItem) → Sublist (xs ++ zs) (xs ++ (ds ++ zs))
without_block [] [] zs = Sublist-refl zs
without_block [] (d ∷ ds) zs = skip (without_block [] ds zs)
without_block (x ∷ xs) ds zs = keep (without_block xs ds zs)

pub Sublist-later :
    {xs ys : List SendItem} (x : SendItem) → Sublist xs ys → Sublist xs (ys ++ (x ∷ []))
Sublist-later x done = skip done
Sublist-later x (keep s) = keep (Sublist-later x s)
Sublist-later x (skip s) = skip (Sublist-later x s)

pub without_rest : (xs zs : List SendItem) → Sublist (xs ++ []) (xs ++ zs)
without_rest [] [] = done
without_rest [] (z ∷ zs) = skip (without_rest [] zs)
without_rest (x ∷ xs) zs = keep (without_rest xs zs)

pub drop_block :
    (xs ds zs : List SendItem) {ys : List SendItem}
    → Sublist (xs ++ (ds ++ zs)) ys
    → Sublist (xs ++ zs) ys
drop_block xs ds zs s = Sublist-trans (without_block xs ds zs) s
