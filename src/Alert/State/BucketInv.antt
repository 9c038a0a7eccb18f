-- ===== src/Alert/State/BucketInv.antt =====
-- A write through the tracked slot and the expiry keep a bucket's invariant, and expiry acts on each
-- identity by itself.
use clickhouse_ruler.Base.{
  ℕ, ◌≡◌, refl, ◌∙◌, true, List, [], ◌∷◌, some, All, map, arith, string_eq, Bool-cases,
  Option-cases, inl, inr, Duration,
}
use clickhouse_ruler.GoMap.{WellKeyed}
use clickhouse_ruler.Alert.Data.{LabelSet, Instance, Labelled}
use clickhouse_ruler.Alert.Labels.{same_labels}
use clickhouse_ruler.Alert.Labels.Same.{same_labels_cong, same_labels_sym}
use clickhouse_ruler.Alert.State.{
  is_resolved, new_instance, track, expire_one, expire_bucket, clear_mark,
}
use clickhouse_ruler.Alert.State.Machine.{find_labels, Distinct, Belongs, BucketInv}
use clickhouse_ruler.Alert.State.Bucket.{
  Keyed, write, bind, find-write_other, find_labels-cong, expire_one_labels,
}

pub Belongs-Keyed :
    (hash : LabelSet → ℕ) (fp : ℕ) (insts : List Instance)
    → All (Belongs hash fp) insts
    → All Keyed insts
Belongs-Keyed hash fp [] h = tt
Belongs-Keyed hash fp (i ∷ insts) h = (h.0.0, Belongs-Keyed hash fp insts h.1)

module _ (keep retention : Duration) (now : ℕ) where
  -- Expiry of a bucket, read for one identity, is the expiry of its instance.
  pub find-expire_bucket :
      (ls : LabelSet) (insts : List Instance)
      → WellKeyed ls
      → All Keyed insts
      → Distinct insts
      → find_labels ls (expire_bucket keep retention now insts)
        ≡ bind (find_labels ls insts) (expire_one keep retention now)
  unfolding find_labels expire_bucket
  find-expire_bucket ls [] w h d = refl
  find-expire_bucket ls (i ∷ insts) w h d = elim (Option-cases (expire_one keep retention now i)) [
    | inl e ↦ ground (
      arith,
      e,
      find-expire_bucket ls insts w h.1 d.1,
      find_labels-cong i.alert.labels ls insts h.0 w h.1,
    )
    | inr (j, e) ↦
        ground (
          arith,
          e,
          expire_one_labels keep retention now i e,
          find-expire_bucket ls insts w h.1 d.1,
        )
  ]

pub find-clear :
    (ls : LabelSet) (insts : List Instance)
    → find_labels ls (map clear_mark insts) ≡ bind (find_labels ls insts) (λ i. some (clear_mark i))
unfolding find_labels
find-clear ls [] = refl
find-clear ls (i ∷ insts) = ground (arith, find-clear ls insts)

module _ (hash : LabelSet → ℕ) (fp : ℕ) where
  module _ (l : Labelled) (now : ℕ) (wl : WellKeyed l.labels) (j : Instance) where
    write-Belongs :
        (insts : List Instance)
        → Belongs hash fp j
        → All (Belongs hash fp) insts
        → All (Belongs hash fp) (write l now j insts)
    unfolding track
    write-Belongs [] b h = (b, tt)
    write-Belongs (i ∷ insts) b h = elim (Bool-cases (same_labels i.alert.labels l.labels)) [
      | inl e ↦ elim (Bool-cases (is_resolved i.alert.phase)) [
        | inl f ↦ rw (e, f, track) (b, h.1)
        | inr f ↦ rw (e, f, track) (b, h.1)
      ]
      | inr e ↦ rw (e, track) (h.0, write-Belongs insts b h.1)
    ]

    write-Distinct :
        (insts : List Instance)
        → Keyed j
        → same_labels j.alert.labels l.labels ≡ true
        → All Keyed insts
        → Distinct insts
        → Distinct (write l now j insts)
    unfolding track find_labels
    write-Distinct [] wj s h d = (refl, tt)
    write-Distinct (i ∷ insts) wj s h d = ground (
      arith,
      write-Distinct insts wj s h.1 d.1,
      find-write_other l now wl j i.alert.labels insts h.0 h.1,
      same_labels_sym l.labels i.alert.labels wl h.0,
      same_labels_sym i.alert.labels l.labels h.0 wl,
      same_labels_cong i.alert.labels j.alert.labels l.labels h.0 wj wl s,
      same_labels_sym j.alert.labels i.alert.labels wj h.0,
      find_labels-cong i.alert.labels j.alert.labels insts h.0 wj h.1,
    )

    pub write-BucketInv :
        (insts : List Instance)
        → Belongs hash fp j
        → same_labels j.alert.labels l.labels ≡ true
        → BucketInv hash fp insts
        → BucketInv hash fp (write l now j insts)
    write-BucketInv insts b s v = record {
      belong = write-Belongs insts b v.belong;
      distinct = write-Distinct insts b.0 s (Belongs-Keyed hash fp insts v.belong) v.distinct;
    }

  pub track-Belongs :
      (l : Labelled) (now : ℕ) (insts : List Instance)
      → WellKeyed l.labels
      → hash l.labels ≡ fp
      → l.fp ≡ fp
      → All (Belongs hash fp) insts
      → Belongs hash fp (track l now insts).inst
  unfolding track new_instance
  track-Belongs l now [] w e f h = (w, e, f)
  track-Belongs l now (i ∷ insts) w e f h =
      elim (Bool-cases (same_labels i.alert.labels l.labels)) [
        | inl a ↦ elim (Bool-cases (is_resolved i.alert.phase)) [
          | inl b ↦ rw (a, b, track) (w, e, f)
          | inr b ↦ rw (a, b, track) h.0
        ]
        | inr a ↦ rw (a, track) (track-Belongs l now insts w e f h.1)
      ]

  module _ (keep retention : Duration) (now : ℕ) where
    expire-Belongs :
        (insts : List Instance)
        → All (Belongs hash fp) insts
        → All (Belongs hash fp) (expire_bucket keep retention now insts)
    unfolding expire_bucket
    expire-Belongs [] h = tt
    expire-Belongs (i ∷ insts) h = elim (Option-cases (expire_one keep retention now i)) [
      | inl e ↦ rw (e, expire_bucket) (expire-Belongs insts h.1)
      | inr (j, e) ↦
          let (same, fps) = expire_one_labels keep retention now i e in
          rw (e, expire_bucket)
            ((rw same h.0.0, rw same h.0.1, rw fps h.0.2), expire-Belongs insts h.1)
    ]

    expire-Distinct :
        (insts : List Instance)
        → All Keyed insts
        → Distinct insts
        → Distinct (expire_bucket keep retention now insts)
    unfolding expire_bucket
    expire-Distinct [] h d = tt
    expire-Distinct (i ∷ insts) h d = elim (Option-cases (expire_one keep retention now i)) [
      | inl e ↦ rw (e, expire_bucket) (expire-Distinct insts h.1 d.1)
      | inr (j, e) ↦
          let (same, fps) = expire_one_labels keep retention now i e in
          rw (e, expire_bucket)
            (
              rw same
                  (find-expire_bucket keep retention now i.alert.labels insts h.0 h.1 d.1 ∙ rw d.0),
              expire-Distinct insts h.1 d.1,
            )
    ]

    pub expire_bucket-BucketInv :
        (insts : List Instance)
        → BucketInv hash fp insts
        → BucketInv hash fp (expire_bucket keep retention now insts)
    expire_bucket-BucketInv insts v = record {
      belong = expire-Belongs insts v.belong;
      distinct = expire-Distinct insts (Belongs-Keyed hash fp insts v.belong) v.distinct;
    }

  clear-Belongs :
      (insts : List Instance)
      → All (Belongs hash fp) insts
      → All (Belongs hash fp) (map clear_mark insts)
  clear-Belongs [] h = tt
  clear-Belongs (i ∷ insts) h = (h.0, clear-Belongs insts h.1)

  clear-Distinct : (insts : List Instance) → Distinct insts → Distinct (map clear_mark insts)
  clear-Distinct [] d = tt
  clear-Distinct (i ∷ insts) d =
      (find-clear i.alert.labels insts ∙ rw d.0, clear-Distinct insts d.1)

  pub clear-BucketInv :
      (insts : List Instance) → BucketInv hash fp insts → BucketInv hash fp (map clear_mark insts)
  clear-BucketInv insts v = record {
    belong = clear-Belongs insts v.belong;
    distinct = clear-Distinct insts v.distinct;
  }
