-- ===== src/Scheduler/Reload.antt =====
-- internal/scheduler/scheduler.go: the configuration that a reload builds, and the series of the problem gauge
-- that it deletes.
pub mod Build
pub mod Gone
pub mod Left
pub mod Stagger
use clickhouse_ruler.Base.{
  ℕ, suc, ◌+◌, ◌%◌, ◌≡◌, ◌↔◌, Bool, true, false, ◌&&◌, ◌||◌, not, String, List, [], ◌∷◌, ◌++◌,
  Option, none, some, if◌then◌else◌, string_eq, nat_eq, ◌==◌, Eq, eq_iff, nat_beq_iff, arith, Time,
  Duration, ℤ, pos, negsuc, time_add, ltb_ℤ, leb_ℤ, mul_int64, is_some, nat_beq,
}
use clickhouse_ruler.GoMap.{Map, get, put}
use clickhouse_ruler.Text.{concat, str_less, sort_by}
use clickhouse_ruler.Alert.Annotate.{Engine}
use clickhouse_ruler.Alert.Fingerprint.{bytes, fnv_write, fnv_offset}
use clickhouse_ruler.Source.{Source}
use clickhouse_ruler.Ruleset.{LoadedRule, group_id}
use clickhouse_ruler.Scheduler.Evaluate.{new_rule_eval, carry}
use clickhouse_ruler.Scheduler.Evaluate.Results.{RuleEval}
use clickhouse_ruler.Scheduler.Gauge.{Series, Labels, no_labels, GaugeVec}

pub record RuleKey : Type 0 where
  pub group : String
  pub alert : String
  pub occurrence : ℕ

abbrev key_beq : RuleKey → RuleKey → Bool
key_beq j k = (j.group == k.group) && (j.alert == k.alert) && nat_beq j.occurrence k.occurrence

pub key_beq_iff : (j k : RuleKey) → (key_beq j k ≡ true) ↔ (j ≡ k)
key_beq_iff j k = ground (arith, eq_iff j.group k.group, eq_iff j.alert k.alert)

instance abbrev pub key_eq : Eq RuleKey
key_eq = record { same = key_beq; same_iff = key_beq_iff }

-- groupKey, and problemKey: two texts.
pub record TextPair : Type 0 where
  pub fst_text : String
  pub snd_text : String

abbrev pair_beq : TextPair → TextPair → Bool
pair_beq j k = (j.fst_text == k.fst_text) && (j.snd_text == k.snd_text)

pub pair_beq_iff : (j k : TextPair) → (pair_beq j k ≡ true) ↔ (j ≡ k)
pair_beq_iff j k = ground (arith, eq_iff j.fst_text k.fst_text, eq_iff j.snd_text k.snd_text)

instance abbrev pub pair_eq : Eq TextPair
pair_eq = record { same = pair_beq; same_iff = pair_beq_iff }

-- Resend
pub record Resend : Type 0 where
  pub interval : Duration
  pub tolerance : ℤ

unfoldable pub retention : Resend → Duration → Duration
retention r group_interval =
    mul_int64 r.tolerance (if ltb_ℤ r.interval group_interval then group_interval else r.interval)

-- staggerOffset; the sum of the hash is below 2^64.
unfoldable pub stagger_offset : String → Duration → Duration
unfolding bytes fnv_write
stagger_offset key (negsuc n) = pos 0
stagger_offset key (pos interval) =
    if nat_beq interval 0 then pos 0 else pos (fnv_write (bytes key) fnv_offset % interval)

-- One group of the loaded rules, with the interval of its first rule.
pub record Grouped : Type 0 where
  pub interval : Duration
  pub rules : List LoadedRule

abbrev pub group_key : LoadedRule → TextPair
group_key r = record { fst_text = r.path; snd_text = r.group.name }

abbrev add_rule : LoadedRule → Option Grouped → Grouped
add_rule r none = record { interval = r.group.interval; rules = r ∷ [] }
add_rule r (some g) = record g { rules = g.rules ++ r ∷ [] }

-- The rules by group, in the order in which the groups first appear.
unfoldable pub group_rules : List LoadedRule → Map TextPair Grouped → Map TextPair Grouped
unfolding get put
group_rules [] m = m
group_rules (r ∷ rules) m =
    group_rules rules (put (group_key r) (add_rule r (get (group_key r) m)) m)

abbrev pub group_less : TextPair × Grouped → TextPair × Grouped → Bool
group_less (j, g) (k, h) =
    if not (j.fst_text == k.fst_text)
    then str_less j.fst_text k.fst_text
    else str_less j.snd_text k.snd_text

abbrev pub reaches : List Source → Bool
reaches [] = false
reaches (s ∷ ss) = true

abbrev pub seen_of : String → Map String ℕ → ℕ
seen_of alert seen = elim (get alert seen) [ none ↦ 0 | some n ↦ n ]

-- GroupSpec: the group's evaluators are those under its keys.
pub record GroupSpec : Type 0 where
  pub name : String
  pub interval : Duration
  pub start : Time
  pub evals : List RuleKey

module _ (E : Engine) where
  -- The evaluator of one rule.
  unfoldable pub evaluator_of : Duration → Map RuleKey RuleEval → RuleKey → LoadedRule → RuleEval
  unfolding new_rule_eval carry get
  evaluator_of kept prev key r = elim (get key prev) [
    | none ↦ new_rule_eval E r kept
    | some p ↦ carry E (new_rule_eval E r kept) p kept
  ]

  -- The loop over the rules of one group: `seen` counts the rules by name, `evals` is written to.
  unfoldable pub build_group :
      String
      → Duration
      → Map RuleKey RuleEval
      → Map String ℕ
      → List LoadedRule
      → Map RuleKey RuleEval
      → List RuleKey × Map RuleKey RuleEval
  unfolding evaluator_of get put
  build_group name kept prev seen [] evals = ([], evals)
  build_group name kept prev seen (r ∷ rules) evals =
      let n = seen_of r.rule.alert seen in
      let key : RuleKey = record { group = name; alert = r.rule.alert; occurrence = n } in
      let skipped = build_group name kept prev seen rules evals in
      let (keys, evals') =
        build_group name kept prev (put r.rule.alert (suc n) seen) rules
          (put key (evaluator_of kept prev key r) evals) in
      if reaches r.sources then (key ∷ keys, evals') else skipped

  unfoldable pub build_groups :
      Resend
      → Time
      → Map RuleKey RuleEval
      → List (TextPair × Grouped)
      → Map RuleKey RuleEval
      → List GroupSpec × Map RuleKey RuleEval
  unfolding build_group group_id retention stagger_offset concat
  build_groups resend now prev [] evals = ([], evals)
  build_groups resend now prev ((k, g) ∷ groups) evals =
      let name = group_id k.fst_text k.snd_text in
      let (keys, evals') = build_group name (retention resend g.interval) prev [] g.rules evals in
      let (specs, evals'') = build_groups resend now prev groups evals' in
      (
        record {
          name = name;
          interval = g.interval;
          start =
              time_add now
                (stagger_offset (concat (k.fst_text ∷ "|" ∷ k.snd_text ∷ [])) g.interval);
          evals = keys;
        }
            ∷ specs,
        evals'',
      )

  -- build, but for the limits and the re-check pass.
  unfoldable pub build :
      Resend → Time → Map RuleKey RuleEval → List LoadedRule → List GroupSpec × Map RuleKey RuleEval
  unfolding build_groups group_rules sort_by str_less
  build resend now prev rules =
      build_groups resend now prev (sort_by group_less (group_rules rules [])) []

-- matchedSources
abbrev add_source : List Source → Map String Bool → List Source × Map String Bool
add_source [] seen = ([], seen)
add_source (s ∷ ss) seen =
    let (rest, seen') = add_source ss (put s.name true seen) in
    let skipped = add_source ss seen in
    if is_some (get s.name seen) then skipped else (s ∷ rest, seen')

unfoldable pub matched_from : List LoadedRule → Map String Bool → List Source
unfolding get put
matched_from [] seen = []
matched_from (r ∷ rules) seen =
    let (found, seen') = add_source r.sources seen in found ++ matched_from rules seen'

unfoldable pub matched_sources : List LoadedRule → List Source
unfolding matched_from
matched_sources rules = matched_from rules []

-- configured
pub record Configured : Type 0 where
  pub groups : Map String Bool
  pub rules : Map RuleKey Bool
  pub sources : Map String Bool
  pub names : Map String ℕ
  pub problems : Map TextPair Bool

abbrev pub problem_key : LoadedRule → TextPair
problem_key r = record { fst_text = r.rule.alert; snd_text = r.path }

unfoldable pub put_sources : List Source → Map String Bool → Map String Bool
unfolding put
put_sources [] m = m
put_sources (s ∷ ss) m = put_sources ss (put s.name true m)

unfoldable pub describe_rule : LoadedRule → Configured → Configured
unfolding get put put_sources group_id
describe_rule r c =
    let group = group_id r.path r.group.name in
    let key : RuleKey = record { group = group; alert = r.rule.alert; occurrence = 0 } in
    let fresh = not (is_some (get key c.rules)) in
    record {
      groups = put group true c.groups;
      problems = put (problem_key r) true c.problems;
      rules = if fresh then put key true c.rules else c.rules;
      names =
          if fresh then put r.rule.alert (suc (seen_of r.rule.alert c.names)) c.names else c.names;
      sources = put_sources r.sources c.sources;
    }

unfoldable pub describe_from : List LoadedRule → Configured → Configured
unfolding describe_rule
describe_from [] c = c
describe_from (r ∷ rules) c = describe_from rules (describe_rule r c)

unfoldable pub describe : List LoadedRule → Configured
unfolding describe_from
describe rules =
    describe_from rules
      (record { groups = []; rules = []; sources = []; names = []; problems = [] })

-- deleteProblem and deleteSource, on the problem gauge: the one of the vectors that both write to.
module _ (G : GaugeVec) where
  delete_problems : Map TextPair Bool → Map TextPair Bool → G.Gauge → G.Gauge
  delete_problems [] next g = g
  delete_problems ((k, b) ∷ old) next g =
      let gone = G.delete (record no_labels { rule = some k.fst_text; file = some k.snd_text }) g in
      delete_problems old next (if is_some (get k next) then g else gone)

  delete_sources : Map String Bool → Map String Bool → G.Gauge → G.Gauge
  delete_sources [] next g = g
  delete_sources ((name, b) ∷ old) next g =
      let gone = G.delete (record no_labels { source = some name }) g in
      delete_sources old next (if is_some (get name next) then g else gone)

  -- deleteGoneSeries
  unfoldable pub delete_gone_series : Configured → Configured → G.Gauge → G.Gauge
  unfolding delete_problems delete_sources get
  delete_gone_series old next g =
      delete_sources old.sources next.sources (delete_problems old.problems next.problems g)

-- Scheduler: the loaded configuration; `running` says whether its groups have been started.
pub record Scheduler : Type 0 where
  pub resend : Resend
  pub groups : List GroupSpec
  pub evals : Map RuleKey RuleEval
  pub loaded : Configured
  pub running : Bool
  pub stopped : Bool

-- New, with the clock's reading.
unfoldable pub new_scheduler : Engine → Resend → Time → List LoadedRule → Scheduler
new_scheduler E resend now rules =
    let (groups, evals) = build E resend now [] rules in
    record {
      resend = resend;
      groups = groups;
      evals = evals;
      loaded = describe rules;
      running = false;
      stopped = false;
    }

-- Reload, once the evaluations in flight have returned; the gauge is the one of the problems.
unfoldable pub reload :
    Engine → (G : GaugeVec) → Time → List LoadedRule → Scheduler → G.Gauge → Scheduler × G.Gauge
reload E G now rules s g =
    let (groups, evals) = build E s.resend now s.evals rules in
    let next = describe rules in
    if s.stopped then (s, g) else (
      record s { groups = groups; evals = evals; loaded = next },
      delete_gone_series G s.loaded next g,
    )

-- Shutdown's changes of the scheduler; the queue's drain is SendQueue's.
unfoldable pub shutdown : Scheduler → Scheduler
shutdown s = record s { stopped = true; running = false }

-- Start
unfoldable pub start : Scheduler → Scheduler
start s = record s { running = true }
