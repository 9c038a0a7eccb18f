-- ===== src/Source/Match.antt =====
-- internal/source/match.go: which sources a selector picks, and in which order.
use mathlib.Core.List.{Perm}
use clickhouse_ruler.Base.{
  ◌≡◌, refl, ◌↔◌, true, String, List, [], ◌∷◌, none, some, keep_if, arith, string_eq, eq_iff,
}
use clickhouse_ruler.GoMap.{Map, get, WellKeyed}
use clickhouse_ruler.Text.Sort.{StrictOrder, IsSortedBy, sort_by-perm, sort_by-IsSortedBy}
use clickhouse_ruler.Text.Order.{str_less-order}
use clickhouse_ruler.Source.{Source, label_of, selects, name_less, match}

selects_agrees :
    (selector : Map String String) (s : Source) (k v : String)
    → selects selector s ≡ true
    → get k selector ≡ some v
    → label_of k s ≡ v
unfolding selects get
selects_agrees [] s k v h g = ground arith
selects_agrees ((j, want) ∷ selector) s k v h g =
    ground (arith, selects_agrees selector s k v, eq_iff k j, eq_iff (label_of j s) want)

get_later :
    (k j want v : String) (selector : Map String String)
    → get j selector ≡ none
    → get k selector ≡ some v
    → get k ((j, want) ∷ selector) ≡ some v
unfolding get
get_later k j want v selector w g = ground (arith, eq_iff k j)

get_head :
    (j want : String) (selector : Map String String) → get j ((j, want) ∷ selector) ≡ some want
unfolding get
get_head j want selector = ground (arith, eq_iff j j)

agrees_selects :
    (selector : Map String String) (s : Source)
    → WellKeyed selector
    → ((k v : String) → get k selector ≡ some v → label_of k s ≡ v)
    → selects selector s ≡ true
unfolding selects
agrees_selects [] s w f = refl
agrees_selects ((j, want) ∷ selector) s w f = ground (
  arith,
  f j want (get_head j want selector),
  eq_iff (label_of j s) want,
  agrees_selects selector s w.1 (λ k v g. f k v (get_later k j want v selector w.0 g)),
)

-- What Match returns: a rearrangement of the sources that agree with every term of the selector, sorted by
-- name, where the selector is not empty.
pub record Matched (selector : Map String String) (sources found : List Source) : Type 0 where
  pub picked : Perm found (keep_if (λ s. selects selector s) sources)
  pub sorted : IsSortedBy name_less found
  pub agrees :
      (s : Source)
      → (selects selector s ≡ true) ↔ ((k v : String) → get k selector ≡ some v → label_of k s ≡ v)

name_less-order : StrictOrder name_less
name_less-order = record {
  asym = λ x y. str_less-order.asym x.name y.name;
  le_trans = λ x y z. str_less-order.le_trans x.name y.name z.name;
}

-- A selector that is not empty picks the sources whose labels have, for each of its terms, the term's value, where a
-- missing label counts as the empty value; Match returns each of them as often as the file has it, sorted by
-- name. No key is twice in the selector.
pub match-Matched :
    (k v : String) (selector : Map String String) (sources : List Source)
    → WellKeyed ((k, v) ∷ selector)
    → Matched ((k, v) ∷ selector) sources (match ((k, v) ∷ selector) sources)
unfolding match
match-Matched k v selector sources w =
    let terms : Map String String = (k, v) ∷ selector in
    record {
      picked = sort_by-perm name_less (keep_if (λ s. selects terms s) sources);
      sorted =
          sort_by-IsSortedBy name_less name_less-order (keep_if (λ s. selects terms s) sources);
      agrees = λ s. (λ h j u g. selects_agrees terms s j u h g, agrees_selects terms s w);
    }
