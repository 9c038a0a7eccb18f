-- ===== src/Alert/Labels/Precedence.antt =====
-- Which of the four origins of a label wins.
use clickhouse_ruler.Base.{
  ◌≡◌, ◌∙◌, ap, String, [], ◌∷◌, Option, none, some, if◌then◌else◌, ◌==◌, string_eq, eq_iff, arith,
  Bool-cases, inl, inr,
}
use clickhouse_ruler.GoMap.{get, put, put_all, WellKeyed}
use clickhouse_ruler.GoMap.Laws.{get-put, get-put_all, put_all-WellKeyed, or_else}
use clickhouse_ruler.Rule.{Rule}
use clickhouse_ruler.Source.{Source}
use clickhouse_ruler.Alert.Data.{LabelSet, Sample, label_source, label_alertname, label_team}
use clickhouse_ruler.Alert.Labels.{overlay_columns, labels_for, base_labels}

-- A result column is read, unless it is `team`.
abbrev pub column : String → LabelSet → Option String
column k cols = if k == label_team then none else get k cols

get-overlay :
    (k : String) (dst cols : LabelSet)
    → WellKeyed cols
    → get k (overlay_columns dst cols) ≡ or_else (column k cols) (get k dst)
unfolding overlay_columns get
get-overlay k dst [] w = ground arith
get-overlay k dst ((c, v) ∷ cols) w = elim (Bool-cases (c == label_team)) [
  | inl e ↦
      rw (e, overlay_columns)
        (get-overlay k dst cols w.1
          ∙ ground (arith, eq_iff c label_team, eq_iff k c, eq_iff k label_team))
  | inr e ↦
      rw (e, overlay_columns)
        (get-overlay k (put c v dst) cols w.1
          ∙ ground
              (arith, get-put k c v dst, w.0, eq_iff c label_team, eq_iff k c, eq_iff k label_team))
]

-- The label that an instance carries under a name, over the labels that the file gives.
abbrev pub effective : Option String → Rule → Source → Sample → String → Option String
effective base r src smpl k =
    if k == label_source
    then some src.name
    else if k == label_alertname
    then some r.alert
    else or_else (get k src.labels) (or_else (column k smpl.labels) base)

pub get-labels_for_base :
    (base : LabelSet) (r : Rule) (src : Source) (smpl : Sample) (k : String)
    → WellKeyed base
    → WellKeyed src.labels
    → WellKeyed smpl.labels
    → get k (labels_for base r src smpl) ≡ effective (get k base) r src smpl k
unfolding labels_for get
get-labels_for_base base r src smpl k wb ws wc =
    let labels = put_all [] base in
    let labels' = overlay_columns labels smpl.labels in
    let labels'' = put_all labels' src.labels in
    ground (
      arith,
      get-put k label_source src.name (put label_alertname r.alert labels''),
      get-put k label_alertname r.alert labels'',
      get-put_all k labels' src.labels ws,
      get-overlay k labels smpl.labels wc,
      get-put_all k [] base wb,
    )

-- The file-level labels: the rule's own over the group's.
get-base_labels :
    (r : Rule) (group_labels : LabelSet) (k : String)
    → WellKeyed group_labels
    → WellKeyed r.labels
    → get k (base_labels r group_labels) ≡ or_else (get k r.labels) (get k group_labels)
unfolding base_labels get
get-base_labels r group_labels k wg wr =
    ground
      (arith, get-put_all k (put_all [] group_labels) r.labels wr, get-put_all k [] group_labels wg)

base_labels-WellKeyed :
    (r : Rule) (group_labels : LabelSet) → WellKeyed (base_labels r group_labels)
unfolding base_labels
base_labels-WellKeyed r group_labels =
    put_all-WellKeyed (put_all [] group_labels) r.labels (put_all-WellKeyed [] group_labels tt)

-- Every label of a row of a rule is read from the strongest origin that has it: the source's name and the rule's name
-- for `source` and `alertname`, then the source's labels, then the result column unless it is `team`, then the
-- rule's own labels, then its group's. No origin has a name twice.
pub get-labels_for :
    (r : Rule) (group_labels : LabelSet) (src : Source) (smpl : Sample) (k : String)
    → WellKeyed group_labels
    → WellKeyed r.labels
    → WellKeyed src.labels
    → WellKeyed smpl.labels
    → get k (labels_for (base_labels r group_labels) r src smpl)
      ≡ effective (or_else (get k r.labels) (get k group_labels)) r src smpl k
get-labels_for r group_labels src smpl k wg wr ws wc =
    get-labels_for_base (base_labels r group_labels) r src smpl k
      (base_labels-WellKeyed r group_labels) ws wc
    ∙ ap (λ o. effective o r src smpl k) (get-base_labels r group_labels k wg wr)
