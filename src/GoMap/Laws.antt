-- ===== src/GoMap/Laws.antt =====
-- What a read gives after each write to a map, and that writes keep the keys distinct.
use clickhouse_ruler.Base.{
  ◌≡◌, refl, Option, none, some, [], ◌∷◌, ◌==◌, Eq, if◌then◌else◌, arith, ◌+◌, length,
}
use clickhouse_ruler.GoMap.{Map, get, put, del, put_all, WellKeyed}

-- A value read from the first of two maps that holds the key.
abbrev pub or_else {ℓ} : {V : Type ℓ} → Option V → Option V → Option V
or_else (some v) o = some v
or_else none o = o

module _ {ℓ κ} {K : Type ℓ} {V : Type κ} ⦃e : Eq K⦄ where
  pub get-put :
      (j k : K) (v : V) (m : Map K V) → get j (put k v m) ≡ (if j == k then some v else get j m)
  unfolding get put
  get-put j k v [] = refl
  get-put j k v ((i, w) ∷ m) =
      ground (arith, e.same_iff j k, e.same_iff k i, e.same_iff j i, get-put j k v m)

  pub get-put_self : (k : K) (v : V) (m : Map K V) → get k (put k v m) ≡ some v
  get-put_self k v m = ground (arith, get-put k k v m, e.same_iff k k)

  pub get-del : (j k : K) (m : Map K V) → get j (del k m) ≡ (if j == k then none else get j m)
  unfolding get del
  get-del j k [] = ground arith
  get-del j k ((i, w) ∷ m) =
      ground (arith, e.same_iff j k, e.same_iff k i, e.same_iff j i, get-del j k m)

  pub put-WellKeyed : (k : K) (v : V) (m : Map K V) → WellKeyed m → WellKeyed (put k v m)
  unfolding get put
  put-WellKeyed k v [] h = (refl, tt)
  put-WellKeyed k v ((j, w) ∷ m) h =
      ground (arith, e.same_iff k j, e.same_iff j k, get-put j k v m, put-WellKeyed k v m h.1)

  pub del-WellKeyed : (k : K) (m : Map K V) → WellKeyed m → WellKeyed (del k m)
  unfolding get del
  del-WellKeyed k [] h = tt
  del-WellKeyed k ((j, w) ∷ m) h = ground (arith, get-del j k m, del-WellKeyed k m h.1)

  pub put_all-WellKeyed : (dst src : Map K V) → WellKeyed dst → WellKeyed (put_all dst src)
  unfolding put_all
  put_all-WellKeyed dst [] h = h
  put_all-WellKeyed dst ((k, v) ∷ src) h =
      put_all-WellKeyed (put k v dst) src (put-WellKeyed k v dst h)

  pub get-put_all :
      (j : K) (dst src : Map K V)
      → WellKeyed src
      → get j (put_all dst src) ≡ or_else (get j src) (get j dst)
  unfolding get put_all
  get-put_all j dst [] h = refl
  get-put_all j dst ((k, v) ∷ src) h =
      ground (arith, get-put_all j (put k v dst) src h.1, get-put j k v dst, e.same_iff j k)

  pub del_absent : (k : K) (m : Map K V) → get k m ≡ none → del k m ≡ m
  unfolding get del
  del_absent k [] h = refl
  del_absent k ((j, w) ∷ m) h = ground (arith, del_absent k m)

  pub length-del :
      (k : K) (v : V) (m : Map K V)
      → WellKeyed m
      → get k m ≡ some v
      → length (del k m) + 1 ≡ length m
  unfolding get del
  length-del k v [] h g = cc
  length-del k v ((j, w) ∷ m) h g =
      ground (arith, e.same_iff k j, del_absent k m, length-del k v m h.1)
