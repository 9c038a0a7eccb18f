-- ===== src/Alert/Fingerprint/Distinct.antt =====
-- internal/alert/fingerprint.go: two label sets that are hashed by the same bytes are the same.
use clickhouse_ruler.Base.{
  ℕ, ◌≡◌, refl, sym, ap, ◌∙◌, true, false, ◌||◌, String, List, [], ◌∷◌, ◌++◌, Option, none, some,
  string_eq, ◌==◌, eq_iff, arith, All, is_some, Option-cases, Bool-cases, inl, inr,
}
use clickhouse_ruler.GoMap.{get, WellKeyed}
use clickhouse_ruler.Text.{codes, sort_strings, sort_by, insert_by, str_less}
use clickhouse_ruler.Policy.{contains}
use clickhouse_ruler.Policy.Keys.{contains-sort_strings}
use clickhouse_ruler.Alert.Data.{LabelSet}
use clickhouse_ruler.Alert.Labels.{same_labels}
use clickhouse_ruler.Alert.Labels.Same.{same_labels_iff}
use clickhouse_ruler.Alert.Annotate.{keys_of}
use clickhouse_ruler.Alert.Fingerprint.{
  bytes, bytes_of, written, little_endian, or_zero, stream, hashed,
}
use clickhouse_ruler.Alert.Fingerprint.Injective.{IsShort, written-injective}

written_some : (s : String) (x : List ℕ) → written s ++ x ≡ [] → ⊥
unfolding written little_endian
written_some s x e = ground arith

contains-keys_of : (k : String) (m : LabelSet) → contains k (keys_of m) ≡ is_some (get k m)
unfolding contains keys_of get
contains-keys_of k [] = refl
contains-keys_of k ((j, v) ∷ m) = ground (arith, contains-keys_of k m)

-- Each label's name and text have fewer than 2 ^ 64 bytes.
abbrev pub Short : LabelSet → Type 0
Short [] = Unit
Short ((k, v) ∷ m) = (IsShort k × IsShort v) × Short m

empty-IsShort : IsShort ""
unfolding bytes bytes_of codes
empty-IsShort = omega arith

Short-get : (k : String) (m : LabelSet) → Short m → IsShort (or_zero (get k m))
unfolding get
Short-get k [] h = empty-IsShort
Short-get k ((j, v) ∷ m) h = elim (Bool-cases (k == j)) [
  | inl e ↦ rw e h.0.1
  | inr e ↦ rw e (Short-get k m h.1)
]

Short-keys_of : (m : LabelSet) → Short m → All IsShort (keys_of m)
unfolding keys_of
Short-keys_of [] h = tt
Short-keys_of ((j, v) ∷ m) h = (h.0.0, Short-keys_of m h.1)

insert_by-Short :
    (k : String) (ks : List String)
    → IsShort k
    → All IsShort ks
    → All IsShort (insert_by str_less k ks)
unfolding insert_by
insert_by-Short k [] h hs = (h, tt)
insert_by-Short k (j ∷ ks) h hs = elim (Bool-cases (str_less j k)) [
  | inl e ↦ rw (insert_by, e) (hs.0, insert_by-Short k ks h hs.1)
  | inr e ↦ rw (insert_by, e) (h, hs)
]

sort_strings-Short : (ks : List String) → All IsShort ks → All IsShort (sort_strings ks)
unfolding sort_strings sort_by
sort_strings-Short [] h = tt
sort_strings-Short (k ∷ ks) h =
    insert_by-Short k (sort_by str_less ks) h.0 (sort_strings-Short ks h.1)

stream-injective :
    (ks ls : List String) (a b : LabelSet)
    → Short a
    → Short b
    → All IsShort ks
    → All IsShort ls
    → stream ks a ≡ stream ls b
    → (ks ≡ ls) × ((k : String) → contains k ks ≡ true → or_zero (get k a) ≡ or_zero (get k b))
unfolding stream contains
stream-injective [] [] a b ha hb hk hl e = (refl, λ k h. ground arith)
stream-injective [] (l ∷ ls) a b ha hb hk hl e = absurd (written_some l _ (sym e))
stream-injective (k ∷ ks) [] a b ha hb hk hl e = absurd (written_some k _ e)
stream-injective (k ∷ ks) (l ∷ ls) a b ha hb hk hl e =
    let (key_eq, e₁) =
      written-injective k l (written (or_zero (get k a)) ++ stream ks a)
        (written (or_zero (get l b)) ++ stream ls b) hk.0 hl.0 e in
    let (value_eq, e₂) =
      written-injective (or_zero (get k a)) (or_zero (get l b)) (stream ks a) (stream ls b)
        (Short-get k a ha) (Short-get l b hb) e₁ in
    let (keys_eq, values_eq) = stream-injective ks ls a b ha hb hk.1 hl.1 e₂ in
    (
      cc,
      λ j h. elim (Bool-cases (j == k)) [
        | inl s ↦
            let p : j ≡ k = (eq_iff j k).0 s in
            rw p (value_eq ∙ ap (λ i. or_zero (get i b)) (sym key_eq))
        | inr s ↦ values_eq j (sym (ap (λ t. t || contains j ks) s) ∙ h)
      ],
    )

same_or_zero : (o u : Option String) → is_some o ≡ is_some u → or_zero o ≡ or_zero u → o ≡ u
same_or_zero none none h e = refl
same_or_zero none (some v) h e = ground arith
same_or_zero (some w) none h e = ground arith
same_or_zero (some w) (some v) h e = ap some e

-- The bytes that are hashed tell label sets apart: two label sets that are hashed by the same bytes are the
-- same alert to `sameLabels`, whatever separators their texts hold. Each has a label once, and
-- names and texts of fewer than 2 ^ 64 bytes.
pub hashed-same_labels :
    (a b : LabelSet)
    → WellKeyed a
    → WellKeyed b
    → Short a
    → Short b
    → hashed a ≡ hashed b
    → same_labels a b ≡ true
unfolding hashed
hashed-same_labels a b wa wb ha hb e =
    let ks = sort_strings (keys_of a) in
    let ls = sort_strings (keys_of b) in
    let (keys_eq, values_eq) =
      stream-injective ks ls a b ha hb (sort_strings-Short (keys_of a) (Short-keys_of a ha))
        (sort_strings-Short (keys_of b) (Short-keys_of b hb)) e in
    (same_labels_iff a b wa wb).1 (λ k.
      let in_a : contains k ks ≡ is_some (get k a) =
        contains-sort_strings k (keys_of a) ∙ contains-keys_of k a in
      let in_b : contains k ls ≡ is_some (get k b) =
        contains-sort_strings k (keys_of b) ∙ contains-keys_of k b in
      let held : is_some (get k a) ≡ is_some (get k b) =
        sym in_a ∙ ap (contains k) keys_eq ∙ in_b in
      elim (Option-cases (get k a)) [
        | inl n ↦ n ∙ sym (absent (get k b) (sym held ∙ ap is_some n))
        | inr (v, n) ↦ same_or_zero (get k a) (get k b) held (values_eq k (in_a ∙ ap is_some n))
      ])
  where
    absent : (o : Option String) → is_some o ≡ false → o ≡ none
    absent none h = refl
    absent (some v) h = ground arith
