-- ===== src/Alert/State/Bucket.antt =====
-- What `track`, the write through its slot, and `expire` do to one bucket, read by `find_labels`.
use clickhouse_ruler.Base.{
  ℕ, ◌≡◌, refl, true, false, List, [], ◌∷◌, Option, none, some, All, arith, string_eq, Duration,
}
use clickhouse_ruler.GoMap.{WellKeyed}
use clickhouse_ruler.Alert.Data.{LabelSet, Instance, Labelled}
use clickhouse_ruler.Alert.Labels.{same_labels}
use clickhouse_ruler.Alert.Labels.Same.{same_labels_cong, same_labels_sym, same_labels_trans}
use clickhouse_ruler.Alert.State.{new_instance, track, plug, expire_one}
use clickhouse_ruler.Alert.State.Machine.{find_labels, renew}

abbrev pub Keyed : Instance → Type 0
Keyed i = WellKeyed i.alert.labels

-- The bucket with another instance in the tracked slot.
abbrev pub write : Labelled → ℕ → Instance → List Instance → List Instance
write l now j insts = let z = track l now insts in plug (record z { inst = j })

module _ (l : Labelled) (now : ℕ) (wl : WellKeyed l.labels) where
  -- The tracked instance is the identity's own, or a new one where it has none that is active.
  pub track-renew :
      (ls : LabelSet) (insts : List Instance)
      → WellKeyed ls
      → All Keyed insts
      → same_labels l.labels ls ≡ true
      → (track l now insts).inst ≡ renew l now (find_labels ls insts)
  unfolding track find_labels
  track-renew ls [] w a e = refl
  track-renew ls (i ∷ insts) w a e =
      ground (
        arith,
        same_labels_cong i.alert.labels l.labels ls a.0 wl w e,
        track-renew ls insts w a.1 e,
      )

  pub track_labels :
      (insts : List Instance)
      → All Keyed insts
      → same_labels l.labels l.labels ≡ true
      → (same_labels (track l now insts).inst.alert.labels l.labels ≡ true)
        × Keyed (track l now insts).inst
  unfolding track new_instance
  track_labels [] a e = (e, wl)
  track_labels (i ∷ insts) a e = ground (arith, track_labels insts a.1 e)

  -- A write is read back by the label sets that are the row's.
  pub find-write_same :
      (j : Instance) (ls : LabelSet) (insts : List Instance)
      → WellKeyed ls
      → All Keyed insts
      → same_labels l.labels ls ≡ true
      → same_labels j.alert.labels ls ≡ true
      → find_labels ls (write l now j insts) ≡ some j
  unfolding track find_labels
  find-write_same j ls [] w a e f = ground arith
  find-write_same j ls (i ∷ insts) w a e f = ground (
    arith,
    same_labels_cong i.alert.labels l.labels ls a.0 wl w e,
    find-write_same j ls insts w a.1 e f,
  )

  -- It is not seen by any other.
  pub find-write_other :
      (j : Instance) (ls : LabelSet) (insts : List Instance)
      → WellKeyed ls
      → All Keyed insts
      → same_labels l.labels ls ≡ false
      → same_labels j.alert.labels ls ≡ false
      → find_labels ls (write l now j insts) ≡ find_labels ls insts
  unfolding track find_labels
  find-write_other j ls [] w a e f = ground arith
  find-write_other j ls (i ∷ insts) w a e f = ground (
    arith,
    same_labels_trans l.labels i.alert.labels ls wl a.0 w,
    same_labels_sym i.alert.labels l.labels a.0 wl,
    find-write_other j ls insts w a.1 e f,
  )

pub find_labels-cong :
    (a b : LabelSet) (insts : List Instance)
    → WellKeyed a
    → WellKeyed b
    → All Keyed insts
    → same_labels a b ≡ true
    → find_labels a insts ≡ find_labels b insts
unfolding find_labels
find_labels-cong a b [] wa wb h e = refl
find_labels-cong a b (i ∷ insts) wa wb h e =
    ground (
      arith,
      same_labels_cong i.alert.labels a b h.0 wa wb e,
      find_labels-cong a b insts wa wb h.1 e,
    )

abbrev pub bind {ℓ κ} : {A : Type ℓ} {B : Type κ} → Option A → (A → Option B) → Option B
bind none f = none
bind (some a) f = f a

module _ (keep retention : Duration) (now : ℕ) where
  -- Expiry keeps an instance's labels.
  pub expire_one_labels :
      (i : Instance) {j : Instance}
      → expire_one keep retention now i ≡ some j
      → (j.alert.labels ≡ i.alert.labels) × (j.alert.fingerprint ≡ i.alert.fingerprint)
  unfolding expire_one
  expire_one_labels i e = ground arith
