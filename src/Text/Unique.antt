-- ===== src/Text/Unique.antt =====
-- A sort by a strict total order gives the same list for every rearrangement of its input.
use mathlib.Core.List.{Permᴰ}
use text.Mathlib.TextEquality.{Char-path}
use clickhouse_ruler.Base.{ℕ, ◌≡◌, refl, ap, ◌∙◌, false, String, List, [], ◌∷◌, arith}
use clickhouse_ruler.Text.{codes, str_less, insert_by, sort_by, sort_strings}
use clickhouse_ruler.Text.Order.{less_codes-eq, str_less-order}

abbrev first_code : List ℕ → ℕ
first_code [] = 0
first_code (c ∷ cs) = c

abbrev later_codes : List ℕ → List ℕ
later_codes [] = []
later_codes (c ∷ cs) = cs

pub codes-injective : (s t : String) → codes s ≡ codes t → s ≡ t
unfolding codes
codes-injective String.[] String.[] e = refl
codes-injective String.[] (String.◌∷◌ d t) e = ground arith
codes-injective (String.◌∷◌ c s) String.[] e = ground arith
codes-injective (String.◌∷◌ c s) (String.◌∷◌ d t) e =
    let p : c ≡ d = Char-path c d (ap first_code e) in
    let q : s ≡ t = codes-injective s t (ap later_codes e) in λ i. String.◌∷◌ (p i) (q i)

str_less-eq : (s t : String) → str_less s t ≡ false → str_less t s ≡ false → s ≡ t
unfolding str_less
str_less-eq s t h k = codes-injective s t (less_codes-eq (codes s) (codes t) h k)

insert_twice :
    (x y : String) (ys : List String)
    → insert_by str_less x (insert_by str_less y ys)
      ≡ insert_by str_less y (insert_by str_less x ys)
unfolding insert_by
insert_twice x y [] =
    ground (arith, str_less-eq x y, str_less-order.asym x y, str_less-order.asym y x)
insert_twice x y (z ∷ ys) = ground (
  arith,
  insert_twice x y ys,
  str_less-eq x y,
  str_less-order.asym x y,
  str_less-order.asym y x,
  str_less-order.le_trans x y z,
  str_less-order.le_trans y x z,
  str_less-order.asym x z,
  str_less-order.asym y z,
  str_less-order.asym z x,
  str_less-order.asym z y,
)

pub sort_strings-Perm : {xs ys : List String} → Permᴰ xs ys → sort_strings xs ≡ sort_strings ys
unfolding sort_strings sort_by
sort_strings-Perm Permᴰ.nil = refl
sort_strings-Perm (Permᴰ.cons {a} {b} {l₁} {l₂} e p) =
    rw e (ap (insert_by str_less b) (sort_strings-Perm p))
sort_strings-Perm (Permᴰ.swap {a} {b} {a'} {b'} {l} e f) =
    rw (e, f) (insert_twice b' a' (sort_by str_less l))
sort_strings-Perm (Permᴰ.trans p q) = sort_strings-Perm p ∙ sort_strings-Perm q
