-- ===== src/Alert/State/Adopt.antt =====
-- A reload that keeps the state keeps every alert's identity.
use clickhouse_ruler.Base.{
  ◌≡◌, true, false, string_eq, eq_iff, arith, Duration, Bool-cases, inl, inr, ◌⊎◌,
}
use clickhouse_ruler.GoMap.{WellKeyed}
use clickhouse_ruler.GoMap.Same.{map_equal, map_equal_iff}
use clickhouse_ruler.Rule.{Rule}
use clickhouse_ruler.Source.{Source}
use clickhouse_ruler.Alert.Data.{LabelSet, Sample}
use clickhouse_ruler.Alert.Labels.{same_labels, base_labels, labels_for}
use clickhouse_ruler.Alert.Labels.Same.{same_labels_iff}
use clickhouse_ruler.Alert.Labels.Precedence.{get-labels_for_base}
use clickhouse_ruler.Alert.Annotate.{Engine}
use clickhouse_ruler.Alert.State.{State}
use clickhouse_ruler.Alert.State.Step.{adopt}
use clickhouse_ruler.Alert.State.Rows.{labels_for-WellKeyed}

-- The instances of `s` are those of `t`, and a row has the same labels in both.
pub record Kept (s : State) (smpl : Sample) (t : State) : Type 0 where
  pub active_eq : t.active ≡ s.active
  pub hash_eq : t.hash ≡ s.hash
  pub labels_eq :
      same_labels (labels_for t.base t.rule t.src smpl) (labels_for s.base s.rule s.src smpl) ≡ true

module _ (E : Engine) (s : State) (r : Rule) (group_labels : LabelSet) (src : Source)
    (retention : Duration) where
  adopt_same :
      (adopt E s r group_labels src retention).1 ≡ true
      → (r.alert ≡ s.rule.alert)
        × (src.name ≡ s.src.name)
        × (map_equal (base_labels r group_labels) s.base ≡ true)
        × (map_equal src.labels s.src.labels ≡ true)
  unfolding adopt
  adopt_same h = ground (arith, eq_iff r.alert s.rule.alert, eq_iff src.name s.src.name)

  adopt_fields :
      (adopt E s r group_labels src retention).1 ≡ true
      → let t = (adopt E s r group_labels src retention).0 in
        (t.active ≡ s.active)
        × (t.hash ≡ s.hash)
        × (t.base ≡ base_labels r group_labels)
        × (t.rule ≡ r)
        × (t.src ≡ src)
  unfolding adopt
  adopt_fields h = ground arith

  labels_kept :
      (smpl : Sample)
      → WellKeyed (base_labels r group_labels)
      → WellKeyed s.base
      → WellKeyed src.labels
      → WellKeyed s.src.labels
      → WellKeyed smpl.labels
      → (r.alert ≡ s.rule.alert)
        × (src.name ≡ s.src.name)
        × (map_equal (base_labels r group_labels) s.base ≡ true)
        × (map_equal src.labels s.src.labels ≡ true)
      → same_labels
          (labels_for (base_labels r group_labels) r src smpl)
          (labels_for s.base s.rule s.src smpl)
        ≡ true
  labels_kept smpl wb wsb ws wss wc (alert_eq, name_eq, base_eq, labels_eq) =
      (same_labels_iff _ _ (labels_for-WellKeyed _ r src smpl)
          (labels_for-WellKeyed s.base s.rule s.src smpl)).1
        λ k. ground (
          arith,
          get-labels_for_base (base_labels r group_labels) r src smpl k wb ws wc,
          get-labels_for_base s.base s.rule s.src smpl k wsb wss wc,
          (map_equal_iff (base_labels r group_labels) s.base wb wsb).0 base_eq k,
          (map_equal_iff src.labels s.src.labels ws wss).0 labels_eq k,
        )

  -- A reloaded definition is refused, and the state is as it was, or adopted: then the instances are kept, and
  -- the definition composes the same labels from any row as the old one did, so that every instance is
  -- found again.
  pub adopt-same_labels :
      (smpl : Sample)
      → WellKeyed (base_labels r group_labels)
      → WellKeyed s.base
      → WellKeyed src.labels
      → WellKeyed s.src.labels
      → WellKeyed smpl.labels
      → (((adopt E s r group_labels src retention).1 ≡ false)
          × ((adopt E s r group_labels src retention).0 ≡ s))
        ⊎ (((adopt E s r group_labels src retention).1 ≡ true)
            × Kept s smpl (adopt E s r group_labels src retention).0)
  unfolding adopt
  adopt-same_labels smpl wb wsb ws wss wc =
      elim (Bool-cases (adopt E s r group_labels src retention).1) [
        | inr k ↦ inl (k, ground arith)
        | inl k ↦
            let (a, h, b, rl, sr) = adopt_fields k in
            inr (
              k,
              record {
                active_eq = a;
                hash_eq = h;
                labels_eq = rw (b, rl, sr) (labels_kept smpl wb wsb ws wss wc (adopt_same k));
              },
            )
      ]
