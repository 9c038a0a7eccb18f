-- ===== src/Query/KeySample/Resolved.antt =====
-- internal/query/sample.go: what resolveKeys makes of the keys of a rule.
use clickhouse_ruler.Base.{◌≡◌, ◌↔◌, ◌⊎◌, refl, sym, ap, List, [], ◌∷◌, ◌++◌, subst, inl, inr}
use clickhouse_ruler.Query.{Column}
use clickhouse_ruler.Query.KeySample.{
  MapKey, MapKeySkip, types_of, resolve_one, resolve_all, resolve_keys,
}
use clickhouse_ruler.Query.KeySample.OneKey.{
  In, AskedFor, SkippedFor, asked_one, skipped_one, resolve_one_lem, found, asked_one-to,
  asked_one-from, skipped_one-to, skipped_one-from,
}

-- One of the keys is such.
abbrev pub Some : (MapKey → Type 0) → List MapKey → Type 0
Some P [] = ⊥
Some P (k ∷ keys) = P k ⊎ Some P keys

In-app : {A : Type 0} (x : A) (xs ys : List A) → In x (xs ++ ys) ↔ (In x xs ⊎ In x ys)
In-app x [] ys = (λ h. inr h, λ h. elim h [ inl z ↦ absurd z | inr m ↦ m ])
In-app x (y ∷ xs) ys = (
  λ h. elim h [
    | inl e ↦ inl (inl e)
    | inr m ↦ elim ((In-app x xs ys).0 m) [ inl a ↦ inl (inr a) | inr b ↦ inr b ]
  ],
  λ h. elim h [
    | inl a ↦ elim a [ inl e ↦ inl e | inr m ↦ inr ((In-app x xs ys).1 (inl m)) ]
    | inr b ↦ inr ((In-app x xs ys).1 (inr b))
  ],
)

module _ (table : List Column) where
  asked_iff :
      (keys : List MapKey) (j : MapKey)
      → In j (resolve_all (types_of table []) keys).0 ↔ Some (λ k. AskedFor table k j) keys
  unfolding resolve_all
  asked_iff [] j = (λ h. h, λ h. h)
  asked_iff (k ∷ keys) j =
      let q = found table k in
      let r = resolve_all (types_of table []) keys in
      let e : (resolve_one k q r).0 ≡ asked_one k q ++ r.0 =
        ap (λ p. p.0) (resolve_one_lem k q r) in
      (
        λ h. elim ((In-app j (asked_one k q) r.0).0 (subst (In j) e h)) [
          | inl a ↦ inl (asked_one-to table k j q refl a)
          | inr b ↦ inr ((asked_iff keys j).0 b)
        ],
        λ h. subst (In j) (sym e) (
            (In-app j (asked_one k q) r.0).1 (elim h [
              | inl a ↦ inl (asked_one-from table k j a)
              | inr b ↦ inr ((asked_iff keys j).1 b)
            ])),
      )

  skipped_iff :
      (keys : List MapKey) (s : MapKeySkip)
      → In s (resolve_all (types_of table []) keys).1 ↔ Some (λ k. SkippedFor table k s) keys
  unfolding resolve_all
  skipped_iff [] s = (λ h. h, λ h. h)
  skipped_iff (k ∷ keys) s =
      let q = found table k in
      let r = resolve_all (types_of table []) keys in
      let e : (resolve_one k q r).1 ≡ skipped_one k q ++ r.1 =
        ap (λ p. p.1) (resolve_one_lem k q r) in
      (
        λ h. elim ((In-app s (skipped_one k q) r.1).0 (subst (In s) e h)) [
          | inl a ↦ inl (skipped_one-to table k s q refl a)
          | inr b ↦ inr ((skipped_iff keys s).0 b)
        ],
        λ h. subst (In s) (sym e) (
            (In-app s (skipped_one k q) r.1).1 (elim h [
              | inl a ↦ inl (skipped_one-from table k s a)
              | inr b ↦ inr ((skipped_iff keys s).1 b)
            ])),
      )

-- The keys that are asked for are the quoted keys of the rule whose column is one of the table with a type that reads
-- `Map(` after white space, each with its own text and under the name that the table has for its
-- column: the whole identifier, or where the table has no such column what stands after its last dot. The keys that are reported as skipped are the numeric ones of such a column and the quoted ones that
-- name no column of the table or one of another type, each with that reason. No other key is in either list:
-- what is left are the numeric ones that are of no Map column, which are array indices.
pub resolve_keys-Resolved :
    (keys : List MapKey) (table : List Column)
    → ((j : MapKey) → In j (resolve_keys keys table).0 ↔ Some (λ k. AskedFor table k j) keys)
      × ((s : MapKeySkip)
          → In s (resolve_keys keys table).1 ↔ Some (λ k. SkippedFor table k s) keys)
unfolding resolve_keys
resolve_keys-Resolved keys table = (asked_iff table keys, skipped_iff table keys)
