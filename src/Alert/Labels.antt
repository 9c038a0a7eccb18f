-- ===== src/Alert/Labels.antt =====
-- The label sets of state.go and fingerprint.go: how an instance's labels are composed, and when two
-- label sets are the same alert.
pub mod Same
pub mod Precedence
use clickhouse_ruler.Base.{
  ℕ, Bool, true, false, ◌++◌, String, List, [], ◌∷◌, Option, none, some, ◌==◌, if◌then◌else◌,
  string_eq,
}
use clickhouse_ruler.GoMap.{Map, get, put, put_all}
use clickhouse_ruler.GoMap.Same.{map_equal}
use clickhouse_ruler.Rule.{Rule}
use clickhouse_ruler.Source.{Source}
use clickhouse_ruler.Alert.Data.{LabelSet, Sample, label_source, label_alertname, label_team}

-- sameLabels: equal lengths, and each entry of the first in the second.
unfoldable pub same_labels : LabelSet → LabelSet → Bool
unfolding map_equal
same_labels a b = map_equal a b

unfoldable pub base_labels : Rule → LabelSet → LabelSet
unfolding put_all
base_labels r group_labels = put_all (put_all [] group_labels) r.labels

-- The result columns, less `team`.
unfoldable pub overlay_columns : LabelSet → LabelSet → LabelSet
unfolding put
overlay_columns dst [] = dst
overlay_columns dst ((k, v) ∷ cols) =
    overlay_columns (if k == label_team then dst else put k v dst) cols

unfoldable pub labels_for : LabelSet → Rule → Source → Sample → LabelSet
unfolding put_all overlay_columns put
labels_for base rule src smpl =
    let labels = put_all [] base in
    let labels' = overlay_columns labels smpl.labels in
    let labels'' = put_all labels' src.labels in
    put label_source src.name (put label_alertname rule.alert labels'')
