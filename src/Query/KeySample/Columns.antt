-- ===== src/Query/KeySample/Columns.antt =====
-- internal/query/sample.go: isMapType, and columnOf on the columns of a table.
use clickhouse_ruler.Base.{
  ℕ, ◌≡◌, ◌↔◌, ◌⊎◌, refl, sym, ◌∙◌, ap, true, false, String, List, [], ◌∷◌, ◌++◌, Option, none,
  some, string_eq, eq_iff, arith, All, Bool-cases, Option-cases, inl, inr, nat_beq, nat_beq_iff,
}
use clickhouse_ruler.GoMap.{Map, get, put}
use clickhouse_ruler.GoMap.Laws.{get-put, or_else}
use clickhouse_ruler.Text.{codes, has_prefix}
use clickhouse_ruler.Query.{Column, last_type}
use clickhouse_ruler.Query.KeySample.Bare.{BareOf, bare_column_iff}
use clickhouse_ruler.Query.KeySample.{
  is_space, trim_left, is_map_type, types_of, column_of, bare_column,
}

-- A type that reads `Map(` after white space.
abbrev pub MapTyped : String → Type 0
MapTyped typ =
    (spaces rest : List ℕ) × ((codes typ ≡ spaces ++ (codes "Map(" ++ rest))
      × All (λ c. is_space c ≡ true) spaces)

-- The column that an identifier names: the one of that name, or where there is none the one that is named by what stands
-- after the last dot. Of two columns with one name, the last.
abbrev pub HasColumn : List Column → String → String → String → Type 0
HasColumn table identifier name typ =
    (last_type name table ≡ some typ)
    × ((name ≡ identifier) ⊎ ((last_type identifier table ≡ none) × BareOf identifier name))

abbrev pub NoColumn : List Column → String → Type 0
NoColumn table identifier =
    (last_type identifier table ≡ none)
    × ((name : String) → BareOf identifier name → last_type name table ≡ none)

has_prefix_rest : (cs ps : List ℕ) → has_prefix cs ps ≡ true → (rest : List ℕ) × (cs ≡ ps ++ rest)
unfolding has_prefix
has_prefix_rest cs [] h = (cs, refl)
has_prefix_rest [] (p ∷ ps) h = cc
has_prefix_rest (c ∷ cs) (p ∷ ps) h = elim (Bool-cases (nat_beq c p)) [
  | inl e ↦
      let h' : has_prefix cs ps ≡ true = rw (has_prefix, e) at h in
      let (rest, r) = has_prefix_rest cs ps h' in (rest, rw ((nat_beq_iff c p).0 e, r) refl)
  | inr e ↦ let h' : false ≡ true = rw (has_prefix, e) at h in cc
]

has_prefix-app : (ps rest : List ℕ) → has_prefix (ps ++ rest) ps ≡ true
unfolding has_prefix
has_prefix-app [] rest = refl
has_prefix-app (p ∷ ps) rest =
    let e : nat_beq p p ≡ true = (nat_beq_iff p p).1 refl in rw (e, has_prefix-app ps rest) refl

trim_left_rest :
    (cs : List ℕ)
    → (spaces : List ℕ) × ((cs ≡ spaces ++ trim_left cs) × All (λ c. is_space c ≡ true) spaces)
unfolding trim_left
trim_left_rest [] = ([], (refl, tt))
trim_left_rest (c ∷ cs) = elim (Bool-cases (is_space c)) [
  | inl e ↦
      let (spaces, (r, h)) = trim_left_rest cs in
      (c ∷ spaces, (rw (trim_left, e) (ap (λ t. c ∷ t) r), (e, h)))
  | inr e ↦ ([], (rw (trim_left, e) refl, tt))
]

trim_left-app :
    (spaces cs : List ℕ)
    → All (λ c. is_space c ≡ true) spaces
    → trim_left (spaces ++ cs) ≡ trim_left cs
unfolding trim_left
trim_left-app [] cs h = refl
trim_left-app (c ∷ spaces) cs h = rw (h.0) (trim_left-app spaces cs h.1)

trim_left-map : (rest : List ℕ) → trim_left (codes "Map(" ++ rest) ≡ codes "Map(" ++ rest
unfolding trim_left is_space codes
trim_left-map rest = refl

pub is_map_type_iff : (typ : String) → (is_map_type typ ≡ true) ↔ MapTyped typ
unfolding is_map_type
is_map_type_iff typ = (
  λ h.
      let (spaces, (r, all)) = trim_left_rest (codes typ) in
      let (rest, p) = has_prefix_rest (trim_left (codes typ)) (codes "Map(") h in
      (spaces, rest, (r ∙ ap (λ t. spaces ++ t) p, all)),
  λ (spaces, rest, (r, all)).
      ap (λ cs. has_prefix cs (codes "Map("))
        (ap trim_left r ∙ (trim_left-app spaces (codes "Map(" ++ rest) all ∙ trim_left-map rest))
      ∙ has_prefix-app (codes "Map(") rest,
)

none-some : (t : String) → (none ≡ some t) → ⊥
none-some t h = cc

or_none : (o : Option String) → or_else o none ≡ o
or_none none = refl
or_none (some t) = refl

get-types_of :
    (name : String) (table : List Column) (types : Map String String)
    → get name (types_of table types) ≡ or_else (last_type name table) (get name types)
unfolding types_of
get-types_of name [] types = refl
get-types_of name (c ∷ table) types =
    get-types_of name table (put c.name c.typ types)
    ∙ ground (arith, get-put name c.name c.typ types, eq_iff name c.name)

types_of_lem :
    (name : String) (table : List Column) → get name (types_of table []) ≡ last_type name table
unfolding get
types_of_lem name table = get-types_of name table [] ∙ or_none (last_type name table)

-- What columnOf finds.
column_of-exact :
    (table : List Column) (identifier t : String)
    → last_type identifier table ≡ some t
    → column_of identifier (types_of table []) ≡ (identifier, some t)
unfolding column_of
column_of-exact table identifier t e = rw (column_of, types_of_lem identifier table, e) refl

column_of-bare :
    (table : List Column) (identifier : String)
    → last_type identifier table ≡ none
    → column_of identifier (types_of table []) ≡ elim (last_type (bare_column identifier) table) [
      | none ↦ (identifier, none)
      | some t ↦ (bare_column identifier, some t)
    ]
unfolding column_of
column_of-bare table identifier e =
    rw (column_of, types_of_lem identifier table, e, types_of_lem (bare_column identifier) table)
      refl

pub column_of_iff :
    (table : List Column) (identifier name typ : String)
    → (column_of identifier (types_of table []) ≡ (name, some typ))
      ↔ HasColumn table identifier name typ
column_of_iff table identifier name typ =
    let bare = bare_column identifier in
    elim (Option-cases (last_type identifier table)) [
      | inr (t, e) ↦ (
        λ h.
            let k : (identifier, some t) ≡ (name, some typ) =
              sym (column_of-exact table identifier t e) ∙ h in
            (rw (sym (ap (λ p. p.0) k)) (e ∙ ap (λ p. p.1) k), inl (sym (ap (λ p. p.0) k))),
        λ (l, why). elim why [
          | inl n ↦ rw n (column_of-exact table identifier typ (rw n at l))
          | inr (z, n) ↦ absurd (none-some t (sym z ∙ e))
        ],
      )
      | inl e ↦ elim (Option-cases (last_type bare table)) [
        | inr (t, e') ↦
            let c : column_of identifier (types_of table []) ≡ (bare, some t) =
              column_of-bare table identifier e ∙ rw e' refl in
            (
              λ h.
                  let k : (bare, some t) ≡ (name, some typ) = sym c ∙ h in
                  (
                    rw (sym (ap (λ p. p.0) k)) (e' ∙ ap (λ p. p.1) k),
                    inr (e, (bare_column_iff identifier name).0 (sym (ap (λ p. p.0) k))),
                  ),
              λ (l, why). elim why [
                | inl n ↦ absurd (none-some typ (sym e ∙ (rw n at l)))
                | inr (z, b) ↦
                    let n = (bare_column_iff identifier name).1 b in
                    c ∙ rw n (ap (λ o. (bare, o)) (sym e' ∙ (rw n at l)))
              ],
            )
        | inl e' ↦
            let c : column_of identifier (types_of table []) ≡ (identifier, none) =
              column_of-bare table identifier e ∙ rw e' refl in
            (
              λ h. absurd (none-some typ (ap (λ p. p.1) (sym c ∙ h))),
              λ (l, why). elim why [
                | inl n ↦ absurd (none-some typ (sym e ∙ (rw n at l)))
                | inr (z, b) ↦
                    let n = (bare_column_iff identifier name).1 b in
                    absurd (none-some typ (sym e' ∙ (rw n at l)))
              ],
            )
      ]
    ]

pub column_of-none :
    (table : List Column) (identifier : String)
    → NoColumn table identifier
    → column_of identifier (types_of table []) ≡ (identifier, none)
column_of-none table identifier (e, h) =
    let e' : last_type (bare_column identifier) table ≡ none =
      h (bare_column identifier) ((bare_column_iff identifier (bare_column identifier)).0 refl) in
    column_of-bare table identifier e ∙ rw e' refl

pub no_column :
    (table : List Column) (identifier name : String)
    → column_of identifier (types_of table []) ≡ (name, none)
    → NoColumn table identifier × (name ≡ identifier)
no_column table identifier name h = elim (Option-cases (last_type identifier table)) [
  | inr (t, e) ↦ absurd (none-some t (ap (λ p. p.1) (sym h ∙ column_of-exact table identifier t e)))
  | inl e ↦ elim (Option-cases (last_type (bare_column identifier) table)) [
    | inr (t, e') ↦
        let c : column_of identifier (types_of table []) ≡ (bare_column identifier, some t) =
          column_of-bare table identifier e ∙ rw e' refl in
        absurd (none-some t (ap (λ p. p.1) (sym h ∙ c)))
    | inl e' ↦
        let c : column_of identifier (types_of table []) ≡ (identifier, none) =
          column_of-bare table identifier e ∙ rw e' refl in
        ((e, λ n b. rw ((bare_column_iff identifier n).1 b) e'), ap (λ p. p.0) (sym h ∙ c))
  ]
]
