-- ===== src/Scheduler/Reload/Gone.antt =====
-- internal/scheduler/scheduler.go: deleteGoneSeries, on the problem gauge.
use clickhouse_ruler.Base.{
  ◌≡◌, refl, ◌∙◌, ap, Bool, true, false, ◌&&◌, ◌||◌, not, String, List, [], ◌∷◌, some,
  if◌then◌else◌, string_eq, ◌==◌, eq_iff, arith, is_some, Time, Bool-cases, inl, inr,
}
use clickhouse_ruler.GoMap.{Map, get, put}
use clickhouse_ruler.GoMap.Laws.{get-put}
use clickhouse_ruler.Alert.Annotate.{Engine}
use clickhouse_ruler.Source.{Source}
use clickhouse_ruler.Ruleset.{LoadedRule}
use clickhouse_ruler.Scheduler.Gauge.{Series, Labels, no_labels, matches, GaugeVec, IsLawful}
use clickhouse_ruler.Scheduler.Reload.{
  TextPair, pair_eq, Configured, problem_key, put_sources, describe_rule, describe_from, describe,
  delete_problems, delete_sources, delete_gone_series, Scheduler, reload,
}

abbrev pub pair_of : Series → TextPair
pair_of s = record { fst_text = s.rule; snd_text = s.file }

-- A key that the old configuration has and the next one does not.
abbrev pub gone_pair : TextPair → Map TextPair Bool → Map TextPair Bool → Bool
gone_pair k old next = is_some (get k old) && not (is_some (get k next))

abbrev pub gone_source : String → Map String Bool → Map String Bool → Bool
gone_source name old next = is_some (get name old) && not (is_some (get name next))

module _ (G : GaugeVec) (lawful : IsLawful G) (s : Series) where
  matches-pair :
      (k : TextPair)
      → matches (record no_labels { rule = some k.fst_text; file = some k.snd_text }) s
        ≡ (pair_of s == k)
  unfolding matches
  matches-pair k = ground (
    arith,
    eq_iff k.fst_text s.rule,
    eq_iff s.rule k.fst_text,
    eq_iff k.snd_text s.file,
    eq_iff s.file k.snd_text,
  )

  holds-delete_problems :
      (old next : Map TextPair Bool) (g : G.Gauge)
      → G.holds s (delete_problems G old next g)
        ≡ (not (gone_pair (pair_of s) old next) && G.holds s g)
  unfolding delete_problems get
  holds-delete_problems [] next g = ground arith
  holds-delete_problems ((k, b) ∷ old) next g =
      let l : Labels = record no_labels { rule = some k.fst_text; file = some k.snd_text } in
      elim (Bool-cases (pair_of s == k)) [
        | inl same ↦
            let e : pair_of s ≡ k = (pair_eq.same_iff (pair_of s) k).0 same in
            ground (
              arith,
              holds-delete_problems old next g,
              holds-delete_problems old next (G.delete l g),
              lawful.holds-delete s l g,
              matches-pair k,
              ap (λ j. get j next) e,
              ap (λ j. get j old) e,
              same,
            )
        | inr other ↦ ground (
          arith,
          holds-delete_problems old next g,
          holds-delete_problems old next (G.delete l g),
          lawful.holds-delete s l g,
          matches-pair k,
          other,
        )
      ]

  matches-source :
      (name : String) → matches (record no_labels { source = some name }) s ≡ (s.source == name)
  unfolding matches
  matches-source name = ground (arith, eq_iff name s.source, eq_iff s.source name)

  holds-delete_sources :
      (old next : Map String Bool) (g : G.Gauge)
      → G.holds s (delete_sources G old next g)
        ≡ (not (gone_source s.source old next) && G.holds s g)
  unfolding delete_sources get
  holds-delete_sources [] next g = ground arith
  holds-delete_sources ((name, b) ∷ old) next g =
      let l : Labels = record no_labels { source = some name } in
      elim (Bool-cases (s.source == name)) [
        | inl same ↦
            let e : s.source ≡ name = (eq_iff s.source name).0 same in
            ground (
              arith,
              holds-delete_sources old next g,
              holds-delete_sources old next (G.delete l g),
              lawful.holds-delete s l g,
              matches-source name,
              ap (λ j. get j next) e,
              ap (λ j. get j old) e,
            )
        | inr other ↦ ground (
          arith,
          holds-delete_sources old next g,
          holds-delete_sources old next (G.delete l g),
          lawful.holds-delete s l g,
          matches-source name,
        )
      ]

  -- A reload deletes from the gauge exactly the series of a rule and path that are no longer loaded together, and
  -- those of a source that no rule reaches any more.
  pub holds-delete_gone_series :
      (old next : Configured) (g : G.Gauge)
      → G.holds s (delete_gone_series G old next g) ≡ (
          not (gone_source s.source old.sources next.sources)
          && (not (gone_pair (pair_of s) old.problems next.problems) && G.holds s g))
  unfolding delete_gone_series
  holds-delete_gone_series old next g =
      holds-delete_sources old.sources next.sources (delete_problems G old.problems next.problems g)
      ∙ ap (λ b. not (gone_source s.source old.sources next.sources) && b)
          (holds-delete_problems old.problems next.problems g)

-- Whether some rule of a set has the alert name and path, and whether some rule reaches the source.
abbrev pub loads : TextPair → List LoadedRule → Bool
loads k [] = false
loads k (r ∷ rules) = (k == problem_key r) || loads k rules

abbrev pub has_name : String → List Source → Bool
has_name name [] = false
has_name name (s ∷ ss) = (name == s.name) || has_name name ss

abbrev pub reached : String → List LoadedRule → Bool
reached name [] = false
reached name (r ∷ rules) = has_name name r.sources || reached name rules

put_sources-has_name :
    (name : String) (ss : List Source) (m : Map String Bool)
    → is_some (get name (put_sources ss m)) ≡ (has_name name ss || is_some (get name m))
unfolding put_sources
put_sources-has_name name [] m = refl
put_sources-has_name name (s ∷ ss) m =
    ground (arith, put_sources-has_name name ss (put s.name true m), get-put name s.name true m)

describe_from-loads :
    (k : TextPair) (rules : List LoadedRule) (c : Configured)
    → is_some (get k (describe_from rules c).problems)
      ≡ (loads k rules || is_some (get k c.problems))
unfolding describe_from describe_rule
describe_from-loads k [] c = refl
describe_from-loads k (r ∷ rules) c =
    describe_from-loads k rules (describe_rule r c)
    ∙ ground (arith, get-put k (problem_key r) true c.problems)

describe_from-reached :
    (name : String) (rules : List LoadedRule) (c : Configured)
    → is_some (get name (describe_from rules c).sources)
      ≡ (reached name rules || is_some (get name c.sources))
unfolding describe_from describe_rule
describe_from-reached name [] c = refl
describe_from-reached name (r ∷ rules) c =
    describe_from-reached name rules (describe_rule r c)
    ∙ ground (arith, put_sources-has_name name r.sources c.sources)

describe-loads :
    (k : TextPair) (rules : List LoadedRule)
    → is_some (get k (describe rules).problems) ≡ loads k rules
unfolding describe get
describe-loads k rules = describe_from-loads k rules _ ∙ ground arith

describe-reached :
    (name : String) (rules : List LoadedRule)
    → is_some (get name (describe rules).sources) ≡ reached name rules
unfolding describe get
describe-reached name rules = describe_from-reached name rules _ ∙ ground arith

module _ (E : Engine) (G : GaugeVec) (lawful : IsLawful G) where
  reload_gauge_cases :
      (now : Time) (rules : List LoadedRule) (sch : Scheduler) (g : G.Gauge)
      → (reload E G now rules sch g).1
        ≡ (if sch.stopped then g else delete_gone_series G sch.loaded (describe rules) g)
  unfolding reload
  reload_gauge_cases now rules sch g = elim (Bool-cases sch.stopped) [
    | inl e ↦ rw (e, reload)
    | inr e ↦ rw (e, reload)
  ]

  -- A reload from the rules `old` to the rules `rules` deletes from the problem gauge exactly the series whose rule
  -- and path were loaded and are not, and those whose source was reached and is not; one that comes
  -- after the shutdown deletes none.
  pub reload-gauge :
      (now : Time) (old rules : List LoadedRule) (sch : Scheduler) (g : G.Gauge) (s : Series)
      → sch.loaded ≡ describe old
      → G.holds s (reload E G now rules sch g).1 ≡ (
          if sch.stopped
          then G.holds s g
          else not (reached s.source old && not (reached s.source rules))
            && (not (loads (pair_of s) old && not (loads (pair_of s) rules)) && G.holds s g))
  reload-gauge now old rules sch g s loaded =
      ap (G.holds s) (reload_gauge_cases now rules sch g) ∙ elim (Bool-cases sch.stopped) [
        | inl e ↦ rw e
        | inr e ↦
            rw (e, loaded)
              (holds-delete_gone_series G lawful s (describe old) (describe rules) g
                ∙ ground (
                  arith,
                  describe-loads (pair_of s) old,
                  describe-loads (pair_of s) rules,
                  describe-reached s.source old,
                  describe-reached s.source rules,
                ))
      ]
