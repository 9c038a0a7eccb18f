-- ===== src/Query/Cost/Ceiling.antt =====
-- internal/query/cost.go: how the estimate of one node becomes that of a cluster.
use native.Mathlib.Nat.{div-lt_iff_lt-mul}
use clickhouse_ruler.Base.{
  ℕ, ◌+◌, ◌*◌, ◌/◌, ◌%◌, ◌≤◌, ◌<◌, min, max, ◌≡◌, true, List, [], ◌∷◌, if◌then◌else◌, nat_beq,
  nat_beq_iff, ltb, leb, two_64, arith, ltb→lt, Bool-cases, inl, inr,
}
use clickhouse_ruler.Query.Cost.{
  Estimate, estimated, Fanout, max_uint64, scaled, rows_from, estimated_rows, cost_from,
}

-- What the tables contribute together, as a number without a bound.
abbrev pub total_rows : List Estimate → ℕ
total_rows [] = 0
total_rows (e ∷ est) = e.rows + total_rows est

rows_from-lt : (total : ℕ) (est : List Estimate) → total < two_64 → rows_from total est < two_64
unfolding rows_from
rows_from-lt total [] h = h
rows_from-lt total (e ∷ est) h = rows_from-lt ((total + e.rows) % two_64) est (omega arith)

rows_from_lem :
    (total : ℕ) (est : List Estimate)
    → total < two_64
    → rows_from total est ≡ (total + total_rows est) % two_64
unfolding rows_from
rows_from_lem total [] h = omega arith
rows_from_lem total (e ∷ est) h =
    omega (arith, rows_from_lem ((total + e.rows) % two_64) est (omega arith))

scaled_large :
    (rows shards : ℕ)
    → 1 < shards
    → (if ltb (max_uint64 / shards) rows then max_uint64 else rows * shards)
      ≡ min (rows * shards) max_uint64
scaled_large rows shards h = elim (Bool-cases (ltb (max_uint64 / shards) rows)) [
  | inl e ↦ rw e (
      ground (
        arith,
        (div-lt_iff_lt-mul {k = shards} {x = max_uint64} {y = rows} (omega arith)).0 (ltb→lt _ _ e),
      ))
  | inr e ↦ rw e (
      ground (arith, (div-lt_iff_lt-mul {k = shards} {x = max_uint64} {y = rows} (omega arith)), e))
]

scaled_lem :
    (rows shards : ℕ)
    → rows ≤ max_uint64
    → scaled rows shards ≡ min (rows * max 1 shards) max_uint64
unfolding scaled
scaled_lem rows shards h = elim (Bool-cases (leb shards 1)) [
  | inl one ↦ let e : max 1 shards ≡ 1 = ground arith in rw (one, e) (ground arith)
  | inr many ↦ elim (Bool-cases (nat_beq rows 0)) [
    | inl none ↦ let e : rows ≡ 0 = (nat_beq_iff rows 0).0 none in rw (many, e) (ground arith)
    | inr some ↦
        let e : max 1 shards ≡ shards = ground arith in
        rw (many, some, e) (scaled_large rows shards (ground arith))
  ]
]

-- Where the shards of the cluster were counted, the number held against the ceilings is the sum of the
-- tables' rows modulo 2^64, times the number of shards (once, where there are fewer than two), and at most
-- 2^64 - 1: the product stops there, while the sum wraps.
pub cost_from_lem :
    (e : Estimate) (est : List Estimate) (f : Fanout)
    → f.counted ≡ true
    → cost_from (e ∷ est) f ≡ record {
      rows = min ((total_rows (e ∷ est) % two_64) * max 1 f.shards) max_uint64;
      status = estimated;
      shards = f.shards;
    }
unfolding cost_from estimated_rows
cost_from_lem e est f counted =
    let total : rows_from 0 (e ∷ est) ≡ total_rows (e ∷ est) % two_64 =
      omega (arith, rows_from_lem 0 (e ∷ est) (omega arith)) in
    rw (
      counted,
      scaled_lem (rows_from 0 (e ∷ est)) f.shards
          (omega (arith, rows_from-lt 0 (e ∷ est) (omega arith))),
      total,
    )
