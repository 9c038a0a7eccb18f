-- ===== src/Policy/Keys.antt =====
-- internal/policy/merge.go: key lists as sets.
use clickhouse_ruler.Base.{
  ◌≡◌, refl, Bool, ◌&&◌, ◌||◌, String, List, [], ◌∷◌, ◌++◌, string_eq, ◌==◌, keep_if, arith, eq_iff,
  ◌∙◌,
}
use clickhouse_ruler.Text.{insert_by, sort_by, sort_strings, str_less}
use clickhouse_ruler.Policy.{contains, compact_from, compact, intersect, distinct, union}

contains-insert_by :
    (less : String → String → Bool) (x y : String) (ys : List String)
    → contains x (insert_by less y ys) ≡ ((x == y) || contains x ys)
unfolding contains insert_by
contains-insert_by less x y [] = refl
contains-insert_by less x y (z ∷ ys) = ground (arith, contains-insert_by less x y ys)

contains-sort_by :
    (less : String → String → Bool) (x : String) (ys : List String)
    → contains x (sort_by less ys) ≡ contains x ys
unfolding contains sort_by
contains-sort_by less x [] = refl
contains-sort_by less x (y ∷ ys) =
    ground (arith, contains-insert_by less x y (sort_by less ys), contains-sort_by less x ys)

pub contains-sort_strings :
    (x : String) (ys : List String) → contains x (sort_strings ys) ≡ contains x ys
unfolding sort_strings
contains-sort_strings x ys = contains-sort_by str_less x ys

contains-compact_from :
    (x y : String) (ys : List String) → contains x (compact_from y ys) ≡ ((x == y) || contains x ys)
unfolding contains compact_from
contains-compact_from x y [] = refl
contains-compact_from x y (z ∷ ys) =
    ground (arith, contains-compact_from x z ys, eq_iff y z, eq_iff x y, eq_iff x z)

contains-compact : (x : String) (ys : List String) → contains x (compact ys) ≡ contains x ys
unfolding contains compact
contains-compact x [] = refl
contains-compact x (y ∷ ys) = contains-compact_from x y ys

contains-append :
    (x : String) (ys zs : List String) → contains x (ys ++ zs) ≡ (contains x ys || contains x zs)
unfolding contains
contains-append x [] zs = refl
contains-append x (y ∷ ys) zs = ground (arith, contains-append x ys zs)

contains-keep_if :
    (p : String → Bool) (x : String) (ys : List String)
    → contains x (keep_if p ys) ≡ (p x && contains x ys)
unfolding contains
contains-keep_if p x [] = ground arith
contains-keep_if p x (y ∷ ys) = ground (arith, contains-keep_if p x ys, eq_iff x y)

contains-distinct : (x : String) (ys : List String) → contains x (distinct ys) ≡ contains x ys
unfolding contains distinct
contains-distinct x [] = refl
contains-distinct x (y ∷ ys) = ground (arith, contains-distinct x ys, eq_iff x y)

pub contains-union :
    (x : String) (a b : List String) → contains x (union a b) ≡ (contains x a || contains x b)
unfolding contains union
contains-union x a [] = ground arith
contains-union x a (k ∷ ks) =
    contains-sort_strings x (distinct (a ++ k ∷ ks))
    ∙ contains-distinct x (a ++ k ∷ ks)
    ∙ contains-append x a (k ∷ ks)

pub contains-intersect :
    (x : String) (a b : List String) → contains x (intersect a b) ≡ (contains x a && contains x b)
unfolding intersect
contains-intersect x a b =
    contains-compact x (sort_strings (keep_if (λ k. contains k a) b))
    ∙ contains-sort_strings x (keep_if (λ k. contains k a) b)
    ∙ contains-keep_if (λ k. contains k a) x b
