-- ===== src/Ruleset.antt =====
-- internal/ruleset/ruleset.go: a loaded rule, its policy and its identity.
pub mod Duplicates
pub mod Identity
mod Tests
use Prim.Native.Char.{nul}
use clickhouse_ruler.Base.{ℕ, String, List, [], ◌∷◌, ◌++◌, Option, none, some, map, string_eq}
use clickhouse_ruler.GoMap.{Map, get}
use clickhouse_ruler.Text.{sort_strings, concat}
use clickhouse_ruler.Rule.{Rule, Group}
use clickhouse_ruler.Source.{Source, match}
use clickhouse_ruler.Policy.{Policy, merge}
use clickhouse_ruler.Alert.Annotate.{keys_of}
use clickhouse_ruler.Alert.Fingerprint.{or_zero}

-- Rule: a rule with all that its evaluation needs.
pub record LoadedRule : Type 0 where
  pub rule : Rule
  pub file : String
  pub path : String
  pub group : Group
  pub labels : Map String String
  pub sources : List Source
  pub policy : Option Policy

-- GroupID, and the method of that name.
unfoldable pub group_id : String → String → String
unfolding concat
group_id path group = concat (path ∷ ":" ∷ group ∷ [])

-- Team
unfoldable pub team : LoadedRule → String
unfolding get
team r = or_zero (get "team" r.labels)

abbrev policies : List Source → List (Option Policy)
policies [] = []
policies (s ∷ sources) = s.policy ∷ policies sources

-- policyFor: the scopes of the rule's location, and one for each source that its selector reaches.
unfoldable pub policy_for : Rule → List Source → Option Policy → Policy
unfolding match merge
policy_for r sources located = merge (located ∷ policies (match r.sources sources))

abbrev pub separator : String
separator = String.◌∷◌ nul String.[]

unfoldable pub label_pieces : List String → Map String String → List String
unfolding get
label_pieces [] labels = []
label_pieces (k ∷ ks) labels =
    separator ∷ k ∷ separator ∷ or_zero (get k labels) ∷ label_pieces ks labels

unfoldable pub source_pieces : List Source → List String
source_pieces [] = []
source_pieces (s ∷ sources) = separator ∷ s.name ∷ source_pieces sources

-- alertIdentity
unfoldable pub alert_identity : LoadedRule → String
unfolding label_pieces source_pieces sort_strings concat keys_of
alert_identity r = concat (
    r.rule.alert
    ∷ (label_pieces (sort_strings (keys_of r.labels)) r.labels ++ source_pieces r.sources))
