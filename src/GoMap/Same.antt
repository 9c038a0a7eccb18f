-- ===== src/GoMap/Same.antt =====
-- The comparison of two maps by length and entries, as `maps.Equal` and the program's own
-- `sameLabels` make it, decides that the maps read alike at every key.
use clickhouse_ruler.Base.{
  ◌≡◌, refl, Bool, true, false, ◌&&◌, Option, none, some, [], ◌∷◌, ◌==◌, Eq, if◌then◌else◌, arith,
  length, nat_beq, nat_beq_iff, &&_true, ◌↔◌,
}
use clickhouse_ruler.GoMap.{Map, get, del, WellKeyed}
use clickhouse_ruler.GoMap.Laws.{get-del, length-del, del-WellKeyed}

module _ {κ} {V : Type κ} ⦃f : Eq V⦄ where
  abbrev pub value_is : Option V → V → Bool
  value_is none v = false
  value_is (some w) v = w == v

  value_is-some : (o : Option V) (v : V) → value_is o v ≡ true → o ≡ some v
  value_is-some none v h = cc
  value_is-some (some w) v h = ground (arith, f.same_iff w v)

module _ {ℓ κ} {K : Type ℓ} {V : Type κ} ⦃e : Eq K⦄ ⦃f : Eq V⦄ where
  -- for k, v := range a { if other, ok := b[k]; !ok || other != v { return false } }
  unfoldable pub entries_in : Map K V → Map K V → Bool
  entries_in [] b = true
  entries_in ((k, v) ∷ a) b = value_is (get k b) v && entries_in a b

  unfoldable pub map_equal : Map K V → Map K V → Bool
  unfolding entries_in
  map_equal a b = if nat_beq (length a) (length b) then entries_in a b else false

  entries_in-del :
      (k : K) (a b : Map K V)
      → get k a ≡ none
      → entries_in a b ≡ true
      → entries_in a (del k b) ≡ true
  unfolding entries_in get
  entries_in-del k [] b n h = refl
  entries_in-del k ((j, v) ∷ a) b n h =
      ground (arith, get-del j k b, e.same_iff j k, e.same_iff k j, entries_in-del k a b)

  del-entries_in : (k : K) (a b : Map K V) → entries_in a (del k b) ≡ true → entries_in a b ≡ true
  unfolding entries_in
  del-entries_in k [] b h = refl
  del-entries_in k ((j, v) ∷ a) b h = ground (arith, get-del j k b, del-entries_in k a b)

  -- Equal lengths and entries leave no key of the second map over.
  entries_in-get :
      (a b : Map K V)
      → WellKeyed a
      → WellKeyed b
      → length a ≡ length b
      → entries_in a b ≡ true
      → (j : K) → get j a ≡ get j b
  unfolding entries_in get
  entries_in-get [] [] wa wb l h j = refl
  entries_in-get [] (x ∷ b) wa wb l h j = absurd (omega arith)
  entries_in-get ((k, v) ∷ a) b wa wb l h j =
      let (head, rest) = &&_true (value_is (get k b) v) (entries_in a b) h in
      let found : get k b ≡ some v = value_is-some (get k b) v head in
      ground (
        arith,
        entries_in-get a (del k b) wa.1 (del-WellKeyed k b wb)
            (omega (arith, length-del k v b wb found)) (entries_in-del k a b wa.0 rest) j,
        get-del j k b,
        e.same_iff j k,
      )

  pub map_equal-get :
      (a b : Map K V)
      → WellKeyed a
      → WellKeyed b
      → map_equal a b ≡ true
      → (j : K) → get j a ≡ get j b
  unfolding map_equal
  map_equal-get a b wa wb h =
      entries_in-get a b wa wb (ground (arith, nat_beq_iff (length a) (length b))) (ground arith)

  -- The other way: maps that read alike have equal lengths and entries.
  get-map_equal :
      (a b : Map K V)
      → WellKeyed a
      → WellKeyed b
      → ((j : K) → get j a ≡ get j b)
      → (length a ≡ length b) × (entries_in a b ≡ true)
  unfolding entries_in get
  get-map_equal [] [] wa wb h = (refl, refl)
  get-map_equal [] ((k, v) ∷ b) wa wb h = ground (arith, h k, e.same_iff k k)
  get-map_equal ((k, v) ∷ a) b wa wb h =
      let found : get k b ≡ some v = ground (arith, h k, e.same_iff k k) in
      let rest = get-map_equal a (del k b) wa.1 (del-WellKeyed k b wb) (λ j. left_over j) in
      ground
        (arith, rest, found, f.same_iff v v, length-del k v b wb found, del-entries_in k a b rest.1)
    where
      left_over : (j : K) → get j a ≡ get j (del k b)
      left_over j = ground (arith, h j, get-del j k b, e.same_iff j k, wa.0)

  -- The comparison is exactly equality at every key.
  pub map_equal_iff :
      (a b : Map K V)
      → WellKeyed a
      → WellKeyed b
      → (map_equal a b ≡ true) ↔ ((j : K) → get j a ≡ get j b)
  unfolding map_equal
  map_equal_iff a b wa wb = (
    map_equal-get a b wa wb,
    λ h. ground (arith, get-map_equal a b wa wb h, nat_beq_iff (length a) (length b)),
  )
