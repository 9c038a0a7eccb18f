-- ===== src/Alert/State/Machine.antt =====
-- What one evaluation promises of each alert identity, apart from all others: the state machine of a
-- single instance. `find` reads the instance of a label set, `advance` is one step of it.
use clickhouse_ruler.Base.{
  ℕ, ◌≡◌, true, List, [], ◌∷◌, Option, none, some, if◌then◌else◌, All, nat_eq, string_eq,
}
use clickhouse_ruler.GoMap.{WellKeyed}
use clickhouse_ruler.Alert.Data.{LabelSet, Instance, Labelled}
use clickhouse_ruler.Alert.Labels.{same_labels}
use clickhouse_ruler.Alert.Annotate.{Engine}
use clickhouse_ruler.Alert.State.{
  State, Buckets, bucket, is_resolved, new_instance, expire_one, clear_mark,
}
use clickhouse_ruler.Alert.State.Step.{see_row}

unfoldable pub find_labels : LabelSet → List Instance → Option Instance
find_labels ls [] = none
find_labels ls (i ∷ insts) = if same_labels i.alert.labels ls then some i else find_labels ls insts

unfoldable pub find : LabelSet → State → Option Instance
unfolding find_labels
find ls s = find_labels ls (bucket (s.hash ls) s.active)

-- The row of an evaluation that has these labels.
unfoldable pub row_for : LabelSet → List Labelled → Option Labelled
row_for ls [] = none
row_for ls (l ∷ rows) = if same_labels l.labels ls then some l else row_for ls rows

-- An instance that resolved, or was never there, begins anew.
abbrev pub renew : Labelled → ℕ → Option Instance → Instance
renew l now none = new_instance l now
renew l now (some i) = if is_resolved i.alert.phase then new_instance l now else i

abbrev pub drop_or_keep : State → ℕ → Option Instance → Option Instance
drop_or_keep s now none = none
drop_or_keep s now (some i) = expire_one s.rule.keep_firing_for s.retention now (clear_mark i)

abbrev pub advance : Engine → State → ℕ → Option Labelled → Option Instance → Option Instance
advance E s now (some l) o = some (see_row E s now l (renew l now o))
advance E s now none o = drop_or_keep s now o

abbrev pub Distinct : List Instance → Type 0
Distinct [] = Unit
Distinct (i ∷ insts) = (find_labels i.alert.labels insts ≡ none) × Distinct insts

abbrev pub Belongs : (LabelSet → ℕ) → ℕ → Instance → Type 0
Belongs hash fp i =
    WellKeyed i.alert.labels × (hash i.alert.labels ≡ fp) × (i.alert.fingerprint ≡ fp)

-- A bucket holds instances of its fingerprint, no two with the same labels.
pub record BucketInv (hash : LabelSet → ℕ) (fp : ℕ) (insts : List Instance) : Type 0 where
  pub belong : All (Belongs hash fp) insts
  pub distinct : Distinct insts

abbrev pub BucketsInv : (LabelSet → ℕ) → Buckets → Type 0
BucketsInv hash [] = Unit
BucketsInv hash ((fp, insts) ∷ m) = BucketInv hash fp insts × BucketsInv hash m

pub record Inv (s : State) : Type 0 where
  pub keyed : WellKeyed s.active
  pub base_keyed : WellKeyed s.base
  pub buckets : BucketsInv s.hash s.active

-- The hash agrees on label sets that read alike.
abbrev pub Respects : (LabelSet → ℕ) → Type 0
Respects hash =
    (a b : LabelSet) → WellKeyed a → WellKeyed b → same_labels a b ≡ true → hash a ≡ hash b
