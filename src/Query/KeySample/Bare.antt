-- ===== src/Query/KeySample/Bare.antt =====
-- internal/query/ast.go: bareColumn gives what stands after the last dot.
use Prim.Native.Char.{Char, code}
use Prim.Native.String.{◌++◌ as append}
use text.Mathlib.TextLemmas.{cons-append, nil-append}
use clickhouse_ruler.Base.{
  ◌≡◌, ◌↔◌, ◌⊎◌, refl, sym, ◌∙◌, ap, true, false, String, none, some, if◌then◌else◌, nat_beq,
  Bool-cases, inl, inr,
}
use clickhouse_ruler.Query.KeySample.{after_dot, bare_column}

abbrev pub Undotted : String → Type 0
Undotted String.[] = Unit
Undotted (String.◌∷◌ c s) = (nat_beq (code c) 46 ≡ false) × Undotted s

-- The text ends in a dot and the name, which has none.
abbrev pub EndsIn : String → String → Type 0
EndsIn identifier name =
    (prefix : String) × (dot : Char) × ((nat_beq (code dot) 46 ≡ true)
      × ((identifier ≡ append prefix (String.◌∷◌ dot name)) × Undotted name))

-- The name without a qualifier.
abbrev pub BareOf : String → String → Type 0
BareOf identifier name = (Undotted identifier × (name ≡ identifier)) ⊎ EndsIn identifier name

after_dot-cons_some :
    (c : Char) (s t : String) → after_dot s ≡ some t → after_dot (String.◌∷◌ c s) ≡ some t
unfolding after_dot
after_dot-cons_some c s t h = rw h refl

after_dot-cons_none :
    (c : Char) (s : String)
    → after_dot s ≡ none
    → after_dot (String.◌∷◌ c s) ≡ (if nat_beq (code c) 46 then some s else none)
unfolding after_dot
after_dot-cons_none c s h = rw h refl

after_dot-Undotted : (s : String) → Undotted s → after_dot s ≡ none
unfolding after_dot
after_dot-Undotted String.[] h = refl
after_dot-Undotted (String.◌∷◌ c s) h =
    after_dot-cons_none c s (after_dot-Undotted s h.1) ∙ rw h.0 refl

after_dot-EndsIn :
    (prefix : String) (dot : Char) (name : String)
    → nat_beq (code dot) 46 ≡ true
    → Undotted name
    → after_dot (append prefix (String.◌∷◌ dot name)) ≡ some name
after_dot-EndsIn String.[] dot name d u =
    ap after_dot (nil-append (String.◌∷◌ dot name))
    ∙ (after_dot-cons_none dot name (after_dot-Undotted name u) ∙ rw d refl)
after_dot-EndsIn (String.◌∷◌ c prefix) dot name d u =
    ap after_dot (cons-append c prefix (String.◌∷◌ dot name))
    ∙ after_dot-cons_some c (append prefix (String.◌∷◌ dot name)) name
        (after_dot-EndsIn prefix dot name d u)

-- What is found, in both cases.
after_dot-cases :
    (s : String)
    → ((after_dot s ≡ none) × Undotted s)
      ⊎ ((name : String) × ((after_dot s ≡ some name) × EndsIn s name))
unfolding after_dot
after_dot-cases String.[] = inl (refl, tt)
after_dot-cases (String.◌∷◌ c s) = elim (after_dot-cases s) [
  | inr (name, (e, (prefix, dot, (d, (split, u))))) ↦ inr (
    name,
    (
      after_dot-cons_some c s name e,
      (
        String.◌∷◌ c prefix,
        dot,
        (d, (ap (λ t. String.◌∷◌ c t) split ∙ sym (cons-append c prefix (String.◌∷◌ dot name)), u)),
      ),
    ),
  )
  | inl (e, u) ↦ elim (Bool-cases (nat_beq (code c) 46)) [
    | inl d ↦ inr (
      s,
      (
        after_dot-cons_none c s e ∙ rw d refl,
        (String.[], c, (d, (sym (nil-append (String.◌∷◌ c s)), u))),
      ),
    )
    | inr d ↦ inl (after_dot-cons_none c s e ∙ rw d refl, (d, u))
  ]
]

pub bare_column_iff :
    (identifier name : String) → (name ≡ bare_column identifier) ↔ BareOf identifier name
unfolding bare_column
bare_column_iff identifier name = (
  λ h. elim (after_dot-cases identifier) [
    | inl (e, u) ↦
        let b : bare_column identifier ≡ identifier = rw (bare_column, e) refl in inl (u, h ∙ b)
    | inr (t, (e, ends)) ↦
        let b : bare_column identifier ≡ t = rw (bare_column, e) refl in rw (h ∙ b) (inr ends)
  ],
  λ h. elim h [
    | inl (u, e) ↦
        let b : bare_column identifier ≡ identifier =
          rw (bare_column, after_dot-Undotted identifier u) refl in
        e ∙ sym b
    | inr (prefix, dot, (d, (split, u))) ↦
        let a : after_dot identifier ≡ some name =
          ap after_dot split ∙ after_dot-EndsIn prefix dot name d u in
        rw (bare_column, a) refl
  ],
)
