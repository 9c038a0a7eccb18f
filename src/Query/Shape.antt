-- ===== src/Query/Shape.antt =====
-- internal/query/shape.go: how two results differ.
pub mod Agree
use clickhouse_ruler.Base.{
  ℕ, not, String, List, [], ◌∷◌, ◌++◌, Option, none, some, if◌then◌else◌, string_eq, ◌==◌,
}
use clickhouse_ruler.GoMap.{Map, get, put, put_all}
use clickhouse_ruler.Text.{sort_strings, concat}
use clickhouse_ruler.Alert.Annotate.{keys_of}
use clickhouse_ruler.Query.{Column}

types_from : Map String String → List Column → Map String String
unfolding put
types_from out [] = out
types_from out (c ∷ cols) = types_from (put c.name c.typ out) cols

-- typesByName
unfoldable pub types_by_name : List Column → Map String String
unfolding types_from
types_by_name cols = types_from [] cols

-- columnNames: `seen` is the map whose keys are those of both.
unfoldable pub column_names : Map String String → Map String String → List String
unfolding put_all sort_strings keys_of
column_names a b = sort_strings (keys_of (put_all (put_all [] a) b))

unfoldable pub difference_at :
    String → String → String → Option String → Option String → List String
unfolding concat
difference_at a_name b_name name none none = []
difference_at a_name b_name name (some t) none =
    concat (a_name ∷ " returns " ∷ name ∷ " and " ∷ b_name ∷ " does not" ∷ []) ∷ []
difference_at a_name b_name name none (some u) =
    concat (b_name ∷ " returns " ∷ name ∷ " and " ∷ a_name ∷ " does not" ∷ []) ∷ []
difference_at a_name b_name name (some t) (some u) =
    if not (t == u)
    then concat
        (a_name ∷ " returns " ∷ name ∷ " as " ∷ t ∷ " and " ∷ b_name ∷ " returns it as " ∷ u ∷ [])
      ∷ []
    else []

unfoldable pub differences_over :
    Map String String → Map String String → String → String → List String → List String
unfolding get difference_at
differences_over a b a_name b_name [] = []
differences_over a b a_name b_name (name ∷ names) =
    difference_at a_name b_name name (get name a) (get name b)
    ++ differences_over a b a_name b_name names

-- Differences
unfoldable pub differences : List Column → List Column → String → String → List String
unfolding types_by_name column_names differences_over
differences a b a_name b_name =
    let a_types = types_by_name a in
    let b_types = types_by_name b in
    differences_over a_types b_types a_name b_name (column_names a_types b_types)
