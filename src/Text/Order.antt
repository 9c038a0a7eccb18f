-- ===== src/Text/Order.antt =====
-- The order of strings is a strict total order.
use clickhouse_ruler.Base.{ℕ, ◌≡◌, refl, true, false, List, [], ◌∷◌, arith}
use clickhouse_ruler.Text.{codes, less_codes, str_less}
use clickhouse_ruler.Text.Sort.{StrictOrder}

less_codes-asym : (s t : List ℕ) → less_codes s t ≡ true → less_codes t s ≡ false
unfolding less_codes
less_codes-asym s [] h = cc
less_codes-asym [] (b ∷ t) h = refl
less_codes-asym (a ∷ s) (b ∷ t) h = ground (arith, less_codes-asym s t)

less_codes-le_trans :
    (x y z : List ℕ) → less_codes y x ≡ false → less_codes z y ≡ false → less_codes z x ≡ false
unfolding less_codes
less_codes-le_trans [] y z h k = refl
less_codes-le_trans (a ∷ x) [] z h k = cc
less_codes-le_trans (a ∷ x) (b ∷ y) [] h k = cc
less_codes-le_trans (a ∷ x) (b ∷ y) (c ∷ z) h k = ground (arith, less_codes-le_trans x y z)

pub less_codes-eq : (s t : List ℕ) → less_codes s t ≡ false → less_codes t s ≡ false → s ≡ t
unfolding less_codes
less_codes-eq [] [] h k = refl
less_codes-eq [] (b ∷ t) h k = cc
less_codes-eq (a ∷ s) [] h k = cc
less_codes-eq (a ∷ s) (b ∷ t) h k = ground (arith, less_codes-eq s t)

pub str_less-order : StrictOrder str_less
unfolding str_less
str_less-order = record {
  asym = λ s t. less_codes-asym (codes s) (codes t);
  le_trans = λ s t u. less_codes-le_trans (codes s) (codes t) (codes u);
}
