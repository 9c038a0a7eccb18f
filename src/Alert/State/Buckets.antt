-- ===== src/Alert/State/Buckets.antt =====
-- The map of buckets: what a read of one bucket gives after a write, the expiry and the clearing of
-- the marks, and that these keep the invariant.
use clickhouse_ruler.Base.{
  ℕ, ◌≡◌, refl, false, List, [], ◌∷◌, none, if◌then◌else◌, map, arith, string_eq, nat_eq,
  nat_beq_iff, nat_beq, Bool-cases, inl, inr, Duration,
}
use clickhouse_ruler.GoMap.{get, put, WellKeyed}
use clickhouse_ruler.GoMap.Laws.{get-put}
use clickhouse_ruler.Alert.Data.{LabelSet, Instance}
use clickhouse_ruler.Alert.State.{
  Buckets, bucket, or_empty, expire_bucket, expire_all, keep_bucket, clear_mark, clear_marks,
}
use clickhouse_ruler.Alert.State.Machine.{BucketInv, BucketsInv}
use clickhouse_ruler.Alert.State.BucketInv.{expire_bucket-BucketInv, clear-BucketInv}

pub bucket-put :
    (fp k : ℕ) (insts : List Instance) (m : Buckets)
    → bucket fp (put k insts m) ≡ (if nat_beq fp k then insts else bucket fp m)
unfolding bucket
bucket-put fp k insts m = ground (arith, get-put fp k insts m)

pub bucket-clear : (fp : ℕ) (m : Buckets) → bucket fp (clear_marks m) ≡ map clear_mark (bucket fp m)
unfolding bucket clear_marks
bucket-clear fp [] = refl
bucket-clear fp ((k, insts) ∷ m) = ground (arith, bucket-clear fp m)

get-clear_absent : (fp : ℕ) (m : Buckets) → get fp m ≡ none → get fp (clear_marks m) ≡ none
unfolding get clear_marks
get-clear_absent fp [] e = refl
get-clear_absent fp ((k, insts) ∷ m) e = ground (arith, get-clear_absent fp m)

pub clear-WellKeyed : (m : Buckets) → WellKeyed m → WellKeyed (clear_marks m)
unfolding clear_marks
clear-WellKeyed [] w = tt
clear-WellKeyed ((k, insts) ∷ m) w = (get-clear_absent k m w.0, clear-WellKeyed m w.1)

get-keep_ne :
    (fp k : ℕ) (kept : List Instance) (rest : Buckets)
    → nat_beq fp k ≡ false
    → get fp (keep_bucket k kept rest) ≡ get fp rest
unfolding get
get-keep_ne fp k [] rest e = refl
get-keep_ne fp k (i ∷ kept) rest e = ground arith

get-keep_self :
    (k : ℕ) (kept : List Instance) (rest : Buckets)
    → get k rest ≡ none
    → or_empty (get k (keep_bucket k kept rest)) ≡ kept
unfolding get
get-keep_self k [] rest e = ground arith
get-keep_self k (i ∷ kept) rest e = ground (arith, nat_beq_iff k k)

module _ (keep retention : Duration) (now : ℕ) where
  get-expire_absent :
      (fp : ℕ) (m : Buckets) → get fp m ≡ none → get fp (expire_all keep retention now m) ≡ none
  unfolding get expire_all
  get-expire_absent fp [] e = refl
  get-expire_absent fp ((k, insts) ∷ m) e = ground (
    arith,
    get-keep_ne fp k (expire_bucket keep retention now insts) (expire_all keep retention now m),
    get-expire_absent fp m,
  )

  keep-WellKeyed :
      (k : ℕ) (kept : List Instance) (rest : Buckets)
      → get k rest ≡ none
      → WellKeyed rest
      → WellKeyed (keep_bucket k kept rest)
  keep-WellKeyed k [] rest e w = w
  keep-WellKeyed k (i ∷ kept) rest e w = (e, w)

  pub expire-WellKeyed : (m : Buckets) → WellKeyed m → WellKeyed (expire_all keep retention now m)
  unfolding expire_all
  expire-WellKeyed [] w = tt
  expire-WellKeyed ((k, insts) ∷ m) w =
      keep-WellKeyed k _ _ (get-expire_absent k m w.0) (expire-WellKeyed m w.1)

  -- A bucket is expired where it stands, also where nothing of it is left.
  pub bucket-expire :
      (fp : ℕ) (m : Buckets)
      → WellKeyed m
      → bucket fp (expire_all keep retention now m) ≡ expire_bucket keep retention now (bucket fp m)
  unfolding bucket get expire_all expire_bucket
  bucket-expire fp [] w = refl
  bucket-expire fp ((k, insts) ∷ m) w = ground (
    arith,
    nat_beq_iff fp k,
    get-keep_ne fp k (expire_bucket keep retention now insts) (expire_all keep retention now m),
    get-keep_self k (expire_bucket keep retention now insts) (expire_all keep retention now m),
    get-expire_absent k m w.0,
    bucket-expire fp m w.1,
  )

module _ (hash : LabelSet → ℕ) where
  pub empty-BucketInv : (fp : ℕ) → BucketInv hash fp []
  empty-BucketInv fp = record { belong = tt; distinct = tt }

  pub bucket-BucketInv :
      (fp : ℕ) (m : Buckets) → BucketsInv hash m → BucketInv hash fp (bucket fp m)
  unfolding bucket get
  bucket-BucketInv fp [] v = empty-BucketInv fp
  bucket-BucketInv fp ((k, insts) ∷ m) v = elim (Bool-cases (nat_beq fp k)) [
    | inl e ↦ rw ((nat_beq_iff fp k).0 e) (rw ((nat_beq_iff k k).1 refl, get) v.0)
    | inr e ↦ rw (e, get) (bucket-BucketInv fp m v.1)
  ]

  pub put-BucketsInv :
      (k : ℕ) (insts : List Instance) (m : Buckets)
      → BucketInv hash k insts
      → BucketsInv hash m
      → BucketsInv hash (put k insts m)
  unfolding put
  put-BucketsInv k insts [] b v = (b, tt)
  put-BucketsInv k insts ((j, old) ∷ m) b v = elim (Bool-cases (nat_beq k j)) [
    | inl e ↦ rw (e, put) (b, v.1)
    | inr e ↦ rw (e, put) (v.0, put-BucketsInv k insts m b v.1)
  ]

  pub clear-BucketsInv : (m : Buckets) → BucketsInv hash m → BucketsInv hash (clear_marks m)
  unfolding clear_marks
  clear-BucketsInv [] v = tt
  clear-BucketsInv ((k, insts) ∷ m) v = (clear-BucketInv hash k insts v.0, clear-BucketsInv m v.1)

  keep-BucketsInv :
      (k : ℕ) (kept : List Instance) (rest : Buckets)
      → BucketInv hash k kept
      → BucketsInv hash rest
      → BucketsInv hash (keep_bucket k kept rest)
  keep-BucketsInv k [] rest b v = v
  keep-BucketsInv k (i ∷ kept) rest b v = (b, v)

  pub expire-BucketsInv :
      (keep retention : Duration) (now : ℕ) (m : Buckets)
      → BucketsInv hash m
      → BucketsInv hash (expire_all keep retention now m)
  unfolding expire_all
  expire-BucketsInv keep retention now [] v = tt
  expire-BucketsInv keep retention now ((k, insts) ∷ m) v =
      keep-BucketsInv k _ _ (expire_bucket-BucketInv hash k keep retention now insts v.0)
        (expire-BucketsInv keep retention now m v.1)
