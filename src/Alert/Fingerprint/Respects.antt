-- ===== src/Alert/Fingerprint/Respects.antt =====
-- internal/alert/fingerprint.go: the fingerprint against sameLabels.
use mathlib.Core.List.{Permᴰ}
use mathlib.Core.List.Permᴰ
use clickhouse_ruler.Base.{
  ◌≡◌, refl, sym, ap, subst, ◌∙◌, true, String, List, [], ◌∷◌, none, some, string_eq, ◌==◌, eq_iff,
  arith, Bool-cases, inl, inr,
}
use clickhouse_ruler.GoMap.{get, del, WellKeyed}
use clickhouse_ruler.GoMap.Laws.{get-del, del-WellKeyed, del_absent}
use clickhouse_ruler.Text.{sort_strings}
use clickhouse_ruler.Text.Unique.{sort_strings-Perm}
use clickhouse_ruler.Alert.Data.{LabelSet}
use clickhouse_ruler.Alert.Labels.{same_labels}
use clickhouse_ruler.Alert.Labels.Same.{same_labels_iff}
use clickhouse_ruler.Alert.Annotate.{keys_of}
use clickhouse_ruler.Alert.Fingerprint.{stream, fnv_offset, fnv_write, hashed, fingerprint}

stream-cong :
    (ks : List String) (a b : LabelSet)
    → ((k : String) → get k a ≡ get k b)
    → stream ks a ≡ stream ks b
unfolding stream
stream-cong [] a b h = refl
stream-cong (k ∷ ks) a b h = rw (stream, h k, stream-cong ks a b h) refl

keys_of-del :
    (k v : String) (b : LabelSet)
    → WellKeyed b
    → get k b ≡ some v
    → Permᴰ (keys_of b) (k ∷ keys_of (del k b))
unfolding keys_of del get
keys_of-del k v [] w g = ground arith
keys_of-del k v ((j, u) ∷ b) w g = elim (Bool-cases (k == j)) [
  | inl e ↦
      let p : k ≡ j = (eq_iff k j).0 e in
      let absent : get k b ≡ none = subst (λ i. get i b ≡ none) (sym p) w.0 in
      rw (e, del_absent k b absent) (Permᴰ.cons (sym p) (Permᴰ.refl (keys_of b)))
  | inr e ↦
      let found : get k b ≡ some v = ground arith in
      rw e (Permᴰ.trans (Permᴰ.cons refl (keys_of-del k v b w.1 found)) (Permᴰ.swap refl refl))
]

pub keys_of-Perm :
    (a b : LabelSet)
    → WellKeyed a
    → WellKeyed b
    → ((k : String) → get k a ≡ get k b)
    → Permᴰ (keys_of a) (keys_of b)
unfolding keys_of get
keys_of-Perm [] [] wa wb h = Permᴰ.nil
keys_of-Perm [] ((k, v) ∷ b) wa wb h = ground (arith, h k, eq_iff k k)
keys_of-Perm ((k, v) ∷ a) b wa wb h =
    let found : get k b ≡ some v = ground (arith, h k, eq_iff k k) in
    Permᴰ.trans (Permᴰ.cons refl (keys_of-Perm a (del k b) wa.1 (del-WellKeyed k b wb) left_over))
      (Permᴰ.symm (keys_of-del k v b wb found))
  where
    left_over : (j : String) → get j a ≡ get j (del k b)
    left_over j = ground (arith, h j, get-del j k b, eq_iff j k, wa.0)

-- Two label sets that `sameLabels` holds of have the same fingerprint, in whatever order their maps are
-- visited; each has a label once.
pub fingerprint-same_labels :
    (a b : LabelSet)
    → WellKeyed a
    → WellKeyed b
    → same_labels a b ≡ true
    → fingerprint a ≡ fingerprint b
unfolding fingerprint hashed
fingerprint-same_labels a b wa wb h =
    let alike = (same_labels_iff a b wa wb).0 h in
    let keys_eq : sort_strings (keys_of a) ≡ sort_strings (keys_of b) =
      sort_strings-Perm (keys_of-Perm a b wa wb alike) in
    let stream_eq : stream (sort_strings (keys_of a)) a ≡ stream (sort_strings (keys_of b)) b =
      ap (λ ks. stream ks a) keys_eq ∙ stream-cong (sort_strings (keys_of b)) a b alike in
    ap (λ bs. fnv_write bs fnv_offset) stream_eq
