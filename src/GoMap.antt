-- ===== src/GoMap.antt =====
-- Go's maps, for any key type with an equality test, as association lists. The program never relies
-- on the order in which a `range` visits a map: what it builds from one is read back by key, or
-- sorted. `get` is the two-valued index `m[k]`, `put` is `m[k] = v`, `del` is `delete(m, k)`,
-- `put_all` is the loop `for k, v := range src { dst[k] = v }`.
pub mod Laws
pub mod Same
use clickhouse_ruler.Base.{
  ℕ, ◌≡◌, Bool, true, false, ◌&&◌, Option, none, some, List, [], ◌∷◌, ◌++◌, ◌==◌, Eq, if◌then◌else◌,
  length,
}

abbrev pub Map {ℓ κ} : Type ℓ → Type κ → Type (ℓ ⊔ κ)
Map K V = List (K × V)

module _ {ℓ κ} {K : Type ℓ} {V : Type κ} ⦃e : Eq K⦄ where
  unfoldable pub get : K → Map K V → Option V
  get k [] = none
  get k ((j, v) ∷ m) = if k == j then some v else get k m

  unfoldable pub put : K → V → Map K V → Map K V
  put k v [] = (k, v) ∷ []
  put k v ((j, w) ∷ m) = let rest = put k v m in if k == j then (k, v) ∷ m else (j, w) ∷ rest

  unfoldable pub del : K → Map K V → Map K V
  del k [] = []
  del k ((j, w) ∷ m) = let rest = del k m in if k == j then rest else (j, w) ∷ rest

  unfoldable pub put_all : Map K V → Map K V → Map K V
  unfolding put
  put_all dst [] = dst
  put_all dst ((k, v) ∷ src) = put_all (put k v dst) src

  -- No key twice, as in every Go map.
  abbrev pub WellKeyed : Map K V → Type κ
  WellKeyed [] = Unit
  WellKeyed ((k, v) ∷ m) = (get k m ≡ none) × WellKeyed m
