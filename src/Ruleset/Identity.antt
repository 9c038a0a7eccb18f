-- ===== src/Ruleset/Identity.antt =====
-- internal/ruleset/ruleset.go: which rules count as one alert.
use clickhouse_ruler.Base.{
  ◌≡◌, refl, sym, ap, ◌∙◌, true, String, List, [], ◌∷◌, ◌++◌, string_eq, ◌==◌, eq_iff,
}
use clickhouse_ruler.GoMap.{Map, get, WellKeyed}
use clickhouse_ruler.Text.{sort_strings, concat}
use clickhouse_ruler.Text.Unique.{sort_strings-Perm}
use clickhouse_ruler.Source.{Source}
use clickhouse_ruler.Alert.Labels.{same_labels}
use clickhouse_ruler.Alert.Labels.Same.{same_labels_iff}
use clickhouse_ruler.Alert.Annotate.{keys_of}
use clickhouse_ruler.Alert.Fingerprint.Respects.{keys_of-Perm}
use clickhouse_ruler.Ruleset.{LoadedRule, separator, label_pieces, source_pieces, alert_identity}

label_pieces-cong :
    (ks : List String) (a b : Map String String)
    → ((k : String) → get k a ≡ get k b)
    → label_pieces ks a ≡ label_pieces ks b
unfolding label_pieces
label_pieces-cong [] a b h = refl
label_pieces-cong (k ∷ ks) a b h = rw (label_pieces, h k, label_pieces-cong ks a b h) refl

abbrev pub names_of : List Source → List String
names_of [] = []
names_of (s ∷ sources) = s.name ∷ names_of sources

abbrev name_pieces : List String → List String
name_pieces [] = []
name_pieces (n ∷ names) = separator ∷ n ∷ name_pieces names

source_pieces-names_of : (xs : List Source) → source_pieces xs ≡ name_pieces (names_of xs)
unfolding source_pieces
source_pieces-names_of [] = refl
source_pieces-names_of (x ∷ xs) = ap (λ ps. separator ∷ x.name ∷ ps) (source_pieces-names_of xs)

-- Two rules with the same alert name, the same labels and sources of the same names in the same order have the
-- same identity, in whatever order their maps of labels are visited; each has a label once.
pub alert_identity-same_labels :
    (r t : LoadedRule)
    → WellKeyed r.labels
    → WellKeyed t.labels
    → r.rule.alert ≡ t.rule.alert
    → same_labels r.labels t.labels ≡ true
    → names_of r.sources ≡ names_of t.sources
    → alert_identity r ≡ alert_identity t
unfolding alert_identity
alert_identity-same_labels r t wr wt alert_eq labels_eq names_eq =
    let alike = (same_labels_iff r.labels t.labels wr wt).0 labels_eq in
    let keys_eq : sort_strings (keys_of r.labels) ≡ sort_strings (keys_of t.labels) =
      sort_strings-Perm (keys_of-Perm r.labels t.labels wr wt alike) in
    let labels_pieces_eq : label_pieces (sort_strings (keys_of r.labels)) r.labels
        ≡ label_pieces (sort_strings (keys_of t.labels)) t.labels =
      ap (λ ks. label_pieces ks r.labels) keys_eq
      ∙ label_pieces-cong (sort_strings (keys_of t.labels)) r.labels t.labels alike in
    let sources_eq : source_pieces r.sources ≡ source_pieces t.sources =
      source_pieces-names_of r.sources
      ∙ ap name_pieces names_eq
      ∙ sym (source_pieces-names_of t.sources) in
    ap
      (λ a.
        concat (
          a ∷ (label_pieces (sort_strings (keys_of r.labels)) r.labels ++ source_pieces r.sources)))
      alert_eq
    ∙ ap (λ ps. concat (t.rule.alert ∷ (ps ++ source_pieces r.sources))) labels_pieces_eq
    ∙ ap
        (λ ps.
          concat (t.rule.alert ∷ (label_pieces (sort_strings (keys_of t.labels)) t.labels ++ ps)))
        sources_eq

-- The identity does not tell a label from two sources: a rule with the one label `k`, of value `v`, has the
-- identity of the rule with the same alert name, no label, and the same sources after one
-- that is named `k` and one that is named `v`.
pub alert_identity-clash :
    (r : LoadedRule) (k v : String) (x y : Source)
    → x.name ≡ k
    → y.name ≡ v
    → alert_identity (record r { labels = (k, v) ∷ [] })
      ≡ alert_identity (record r { labels = []; sources = x ∷ y ∷ r.sources })
unfolding alert_identity label_pieces source_pieces get
alert_identity-clash r k v x y ex ey =
    let self : (k == k) ≡ true = (eq_iff k k).1 refl in rw (self, ex, ey) refl
