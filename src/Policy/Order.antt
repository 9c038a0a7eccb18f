-- ===== src/Policy/Order.antt =====
-- internal/policy/merge.go: the order in which Merge reads the scopes.
use mathlib.Core.List.{Permᴰ}
use clickhouse_ruler.Base.{
  ◌≡◌, refl, ◌∙◌, true, false, String, List, [], ◌∷◌, Option, none, some, arith, string_eq, length,
  Option-cases, List-cases, All, suc, sym, ap, inl, inr,
}
use clickhouse_ruler.GoMap.{get}
use clickhouse_ruler.Lint.{severity_rank}
use clickhouse_ruler.Policy.{Setting, Policy, contains, merge}
use clickhouse_ruler.Policy.Strictest.{asked, ScopeKeyed, get-merge_into}
use clickhouse_ruler.Policy.Merged.{highest, in_all, in_any, Merged, merge-Merged}

record Same (k : String) (ss ts : List Setting) : Type 0 where
  pub highest_eq : highest ss ≡ highest ts
  pub all_eq : in_all k ss ≡ in_all k ts
  pub any_eq : in_any k ss ≡ in_any k ts
  pub length_eq : length ss ≡ length ts

abbrev given : String → Option Policy → Option Setting
given name none = none
given name (some p) = get name p.checks

abbrev put_first : Option Setting → List Setting → List Setting
put_first none ss = ss
put_first (some s) ss = s ∷ ss

asked_cons :
    (name : String) (x : Option Policy) (xs : List (Option Policy))
    → asked name (x ∷ xs) ≡ put_first (given name x) (asked name xs)
asked_cons name none xs = refl
asked_cons name (some p) xs = elim (Option-cases (get name p.checks)) [
  | inl e ↦ rw e refl
  | inr e ↦ rw e.1 refl
]

put_first-Same :
    (k : String) (o : Option Setting) (ss ts : List Setting)
    → Same k ss ts
    → Same k (put_first o ss) (put_first o ts)
put_first-Same k none ss ts h = h
put_first-Same k (some s) ss ts h = record {
  highest_eq = omega (h.highest_eq, arith);
  all_eq = ground (arith, h.all_eq);
  any_eq = ground (arith, h.any_eq);
  length_eq = omega (h.length_eq, arith);
}

Same-refl : (k : String) (ss : List Setting) → Same k ss ss
Same-refl k ss = record { highest_eq = refl; all_eq = refl; any_eq = refl; length_eq = refl }

Same-trans : (k : String) (ss ts us : List Setting) → Same k ss ts → Same k ts us → Same k ss us
Same-trans k ss ts us h g = record {
  highest_eq = h.highest_eq ∙ g.highest_eq;
  all_eq = h.all_eq ∙ g.all_eq;
  any_eq = h.any_eq ∙ g.any_eq;
  length_eq = h.length_eq ∙ g.length_eq;
}

put_two-Same :
    (k : String) (o u : Option Setting) (ss : List Setting)
    → Same k (put_first o (put_first u ss)) (put_first u (put_first o ss))
put_two-Same k none u ss = Same-refl k (put_first u ss)
put_two-Same k (some s) none ss = Same-refl k (s ∷ ss)
put_two-Same k (some s) (some t) ss = record {
  highest_eq = omega arith;
  all_eq = ground arith;
  any_eq = ground arith;
  length_eq = refl;
}

asked-Same :
    (name k : String) {xs ys : List (Option Policy)}
    → Permᴰ xs ys
    → Same k (asked name xs) (asked name ys)
asked-Same name k Permᴰ.nil = Same-refl k []
asked-Same name k (Permᴰ.cons {a} {b} {l₁} {l₂} e p) =
    rw (asked_cons name a l₁, asked_cons name b l₂, e)
      (put_first-Same k (given name b) (asked name l₁) (asked name l₂) (asked-Same name k p))
asked-Same name k (Permᴰ.swap {a} {b} {a'} {b'} {l} e f) =
    rw
      (
        e,
        f,
        asked_cons name b' (a' ∷ l),
        asked_cons name a' l,
        asked_cons name a' (b' ∷ l),
        asked_cons name b' l,
      )
      (put_two-Same k (given name b') (given name a') (asked name l))
asked-Same name k (Permᴰ.trans {l₁} {l₂} {l₃} p q) =
    Same-trans k (asked name l₁) (asked name l₂) (asked name l₃) (asked-Same name k p)
      (asked-Same name k q)

-- Two settings with the same severity and the same set of keys, or no setting twice.
abbrev pub Agree : Option Setting → Option Setting → Type 0
Agree none none = Unit
Agree none (some t) = false ≡ true
Agree (some s) none = false ≡ true
Agree (some s) (some t) =
    (severity_rank s.severity ≡ severity_rank t.severity)
    × ((k : String) → contains k s.keys ≡ contains k t.keys)

Merged-Agree :
    (name : String) (ss ts : List Setting) (o u : Option Setting)
    → ((k : String) → Same k ss ts)
    → Merged name ss o
    → Merged name ts u
    → Agree o u
Merged-Agree name ss ts o u h m n =
    rw (m.result, n.result)
      (
        m.severity_eq ∙ (h "").highest_eq ∙ sym n.severity_eq,
        λ k. m.keys_eq k ∙ rw ((h k).all_eq, (h k).any_eq) refl ∙ sym (n.keys_eq k),
      )

unset :
    (name : String) (scopes : List (Option Policy))
    → All ScopeKeyed scopes
    → asked name scopes ≡ []
    → get name ((merge scopes).checks) ≡ none
unfolding merge get
unset name scopes w e = rw (merge, get-merge_into name scopes [] w, e) refl

no_length : (ss : List Setting) → length ss ≡ 0 → ss ≡ []
no_length [] h = refl
no_length (s ∷ ss) h = ground arith

-- The order of the scopes makes no difference to what a merge asks of a check: with the same scopes in another
-- order, the check has a setting in both merges or in neither, and the two settings have the same severity and
-- the same keys. A scope sets a check at most once.
pub merge_order :
    (name : String) (xs ys : List (Option Policy))
    → Permᴰ xs ys
    → All ScopeKeyed xs
    → All ScopeKeyed ys
    → Agree (get name ((merge xs).checks)) (get name ((merge ys).checks))
merge_order name xs ys p w v =
    let h : (k : String) → Same k (asked name xs) (asked name ys) = λ k. asked-Same name k p in
    let l = (h "").length_eq in
    elim (List-cases (asked name xs)) [
      | inl e ↦
          let e' : asked name ys ≡ [] = no_length (asked name ys) (sym l ∙ ap length e) in
          rw (unset name xs w e, unset name ys v e') tt
      | inr (s, (ss, e)) ↦
          let n : length (asked name xs) ≡ suc (length ss) = ap length e in
          Merged-Agree name (asked name xs) (asked name ys) (get name ((merge xs).checks))
            (get name ((merge ys).checks)) h (merge-Merged name xs w (omega (n, arith)))
            (merge-Merged name ys v (omega (n, l, arith)))
    ]
