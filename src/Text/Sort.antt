-- ===== src/Text/Sort.antt =====
-- A sort returns a rearrangement of its input, ascending where `less` is a strict weak order.
use mathlib.Core.List.{Perm}
use mathlib.Core.List.Perm
use clickhouse_ruler.Base.{◌≡◌, Bool, true, false, List, [], ◌∷◌, All, Bool-cases, inl, inr}
use clickhouse_ruler.Text.{insert_by, sort_by}

pub record StrictOrder {ℓ} {A : Type ℓ} (less : A → A → Bool) : Type ℓ where
  pub asym : (x y : A) → less x y ≡ true → less y x ≡ false
  pub le_trans : (x y z : A) → less y x ≡ false → less z y ≡ false → less z x ≡ false

module _ {ℓ} {A : Type ℓ} (less : A → A → Bool) where
  -- Nothing that comes later is less.
  abbrev pub IsSortedBy : List A → Type 0
  IsSortedBy [] = Unit
  IsSortedBy (x ∷ xs) = All (λ y. less y x ≡ false) xs × IsSortedBy xs

  insert_by-perm : (x : A) (xs : List A) → Perm (insert_by less x xs) (x ∷ xs)
  unfolding insert_by
  insert_by-perm x [] = Perm.rfl
  insert_by-perm x (y ∷ ys) = elim (Bool-cases (less y x)) [
    | inl e ↦ rw (e, insert_by) (Perm.trans (Perm.cons y (insert_by-perm x ys)) (Perm.swap x y ys))
    | inr e ↦ rw (e, insert_by) Perm.rfl
  ]

  pub sort_by-perm : (xs : List A) → Perm (sort_by less xs) xs
  unfolding sort_by
  sort_by-perm [] = Perm.rfl
  sort_by-perm (x ∷ xs) =
      Perm.trans (insert_by-perm x (sort_by less xs)) (Perm.cons x (sort_by-perm xs))

  All-insert_by :
      (P : A → Type 0) (x : A) (xs : List A) → P x → All P xs → All P (insert_by less x xs)
  unfolding insert_by
  All-insert_by P x [] h hs = (h, tt)
  All-insert_by P x (y ∷ ys) h hs = elim (Bool-cases (less y x)) [
    | inl e ↦ rw (e, insert_by) (hs.0, All-insert_by P x ys h hs.1)
    | inr e ↦ rw (e, insert_by) (h, hs)
  ]

  All-imp : (P Q : A → Type 0) → ((a : A) → P a → Q a) → (xs : List A) → All P xs → All Q xs
  All-imp P Q f [] h = tt
  All-imp P Q f (x ∷ xs) h = (f x h.0, All-imp P Q f xs h.1)

  module _ (o : StrictOrder less) where
    insert_by-IsSortedBy : (x : A) (xs : List A) → IsSortedBy xs → IsSortedBy (insert_by less x xs)
    unfolding insert_by
    insert_by-IsSortedBy x [] s = (tt, tt)
    insert_by-IsSortedBy x (y ∷ ys) s = elim (Bool-cases (less y x)) [
      | inl e ↦
          rw (e, insert_by)
            (
              All-insert_by (λ z. less z y ≡ false) x ys (o.asym y x e) s.0,
              insert_by-IsSortedBy x ys s.1,
            )
      | inr e ↦
          rw (e, insert_by)
            (
              (
                e,
                All-imp (λ z. less z y ≡ false) (λ z. less z x ≡ false)
                    (λ z h. o.le_trans x y z e h) ys s.0,
              ),
              s,
            )
    ]

    pub sort_by-IsSortedBy : (xs : List A) → IsSortedBy (sort_by less xs)
    unfolding sort_by
    sort_by-IsSortedBy [] = tt
    sort_by-IsSortedBy (x ∷ xs) = insert_by-IsSortedBy x (sort_by less xs) (sort_by-IsSortedBy xs)
