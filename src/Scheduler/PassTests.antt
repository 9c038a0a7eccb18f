-- ===== src/Scheduler/PassTests.antt =====
-- A rule on two clusters, its evaluations on the problem gauge, and a reload that takes it off one of them.
use clickhouse_ruler.Base.{
  ℕ, ◌≡◌, ◌≢◌, eq_iff, Bool, refl, true, false, String, List, [], ◌∷◌, none, some, pos, string_eq,
  nat_eq, err, inl, inr, ◌&&◌, not, All, if◌then◌else◌,
}
use clickhouse_ruler.GoMap.{get}
use clickhouse_ruler.Rule.{Rule, Group}
use clickhouse_ruler.Source.{Source}
use clickhouse_ruler.Alert.Annotate.{Engine}
use clickhouse_ruler.Query.Cost.{Floats}
use clickhouse_ruler.Ruleset.{LoadedRule}
use clickhouse_ruler.Scheduler.Evaluate.{new_rule_eval, evaluate_sources, evaluate, carry}
use clickhouse_ruler.Scheduler.Evaluate.Results.{RuleEval, Reply, no_connection, came_back, no_wait}
use clickhouse_ruler.Scheduler.Evaluate.Answered.{told}
use clickhouse_ruler.Scheduler.Evaluate.Carry.{Among, Unnamed, DistinctNames, adopted_or, carry-get}
use clickhouse_ruler.Scheduler.Evaluate.Counts.{cause, causes, evaluate-keeps}
use clickhouse_ruler.Scheduler.Reload.{Resend, key_eq, Scheduler, new_scheduler, reload, describe}
use clickhouse_ruler.Scheduler.Reload.Gone.{pair_of, loads, reached, reload-gauge}
use clickhouse_ruler.Scheduler.Reload.Left.{
  Event, reloaded, evaluated, Spares, after_events, left_source-stands,
}
use clickhouse_ruler.Alert.State.{State}
use clickhouse_ruler.Alert.State.Step.{new_state}
use clickhouse_ruler.Scheduler.Evaluate.Standing.{
  IsReady, Tick, recorded, evaluate-stands, evaluate-rebuilds,
}
use clickhouse_ruler.Scheduler.Gauge.{Series, same_series}
use clickhouse_ruler.Scheduler.Gauge.Memory.{memory_gauge, memory_gauge-IsLawful}
use clickhouse_ruler.Scheduler.Gauge.Pass.{NamedRule, any_finding}
use clickhouse_ruler.Scheduler.Limits.{QueryLimits}
use clickhouse_ruler.Scheduler.Recheck.{sampled, sampling_of, recheck_rule_once, record_recheck}
use clickhouse_ruler.Scheduler.Recheck.Asked.{recheck-unheard}
use clickhouse_ruler.Scheduler.SendQueue.{SendQueue, new_send_queue}

abbrev engine : Engine
engine = record {
  parse = λ name text. err "no templates";
  run = λ t values. err "no templates";
  format_float = λ n. "0";
  quote = λ s. s;
}

-- Numbers in place of floats.
abbrev whole_numbers : Floats
whole_numbers = record {
  Float = ℕ;
  of_nat = λ n. n;
  div = λ a b. a;
  seconds = λ d. 1;
  gt = λ a b. false;
  whole = λ a. "0";
  print_duration = λ d. "1m";
}

abbrev cluster : String → Source
cluster name = record {
  name = name;
  table = "logs";
  timestamp_column = "at";
  evaluation_delay = pos 0;
  max_rows = pos 10;
  max_concurrent_queries = pos 1;
  labels = [];
  policy = none;
  exemptions = [];
}

abbrev errors_rule : Rule
errors_rule = record {
  alert = "Errors";
  expr = "SELECT count() AS value FROM logs";
  sources = ("env", "prod") ∷ [];
  window = pos 60;
  for_duration = pos 0;
  keep_firing_for = pos 0;
  labels = [];
  annotations = [];
  lines = record { start = 3; keys = [] };
}

abbrev web : Group
web = record {
  name = "web";
  interval = pos 60;
  labels = [];
  rules = errors_rule ∷ [];
  lines = record { start = 1; keys = [] };
}

abbrev on : List Source → LoadedRule
on sources = record {
  rule = errors_rule;
  file = "/rules/web.yaml";
  path = "web.yaml";
  group = web;
  labels = ("team", "core") ∷ [];
  sources = sources;
  policy = none;
}

abbrev west_only : RuleEval
west_only = new_rule_eval engine (on (cluster "west" ∷ [])) (pos 600)

abbrev errors : NamedRule
errors = record { rule = "Errors"; team = "core"; file = "web.yaml" }

abbrev east_finding : Series
east_finding = record {
  rule = "Errors";
  check = "rule/execution";
  severity = "error";
  team = "core";
  file = "web.yaml";
  source = "east";
}

abbrev west_refuses : String → Reply
west_refuses name = came_back no_wait (err "timeout")

abbrev no_limits : QueryLimits
no_limits = record { global = none; by_source = [] }

west_only-IsReady : IsReady west_only
unfolding new_rule_eval get
west_only-IsReady = record { named = (λ h. cc, tt); held = (λ h. cc, tt) }

abbrev empty_queue : SendQueue
empty_queue = new_send_queue (pos 100)

-- The cluster cannot be reached, and its finding of the pass before stands.
evaluate-stands_example :
    memory_gauge.holds
      (record east_finding { source = "west" })
      (recorded engine whole_numbers memory_gauge memory_gauge-IsLawful no_limits
        (λ name. no_connection)
        60
        60
        errors
        west_only
        empty_queue
        (record east_finding { source = "west" } ∷ []))
    ≡ true
unfolding new_rule_eval same_series
evaluate-stands_example =
    evaluate-stands engine whole_numbers memory_gauge memory_gauge-IsLawful no_limits
      (λ name. no_connection) 60 60 errors west_only empty_queue
      (record east_finding { source = "west" } ∷ []) (record east_finding { source = "west" })
      west_only-IsReady refl refl refl

west_told :
    told "rule/execution" "west"
      (evaluate_sources engine 60 west_refuses west_only.rule.sources west_only.states).1
    ≡ true
unfolding evaluate_sources new_rule_eval get
west_told = refl

evaluate-rebuilds_example :
    memory_gauge.holds
      (record east_finding { source = "west" })
      (recorded engine whole_numbers memory_gauge memory_gauge-IsLawful no_limits west_refuses 60 60
        errors west_only empty_queue [])
    ≡ any_finding errors
        (record east_finding { source = "west" })
        (evaluate engine whole_numbers no_limits west_refuses 60 60 west_only
          empty_queue).2.problems
evaluate-rebuilds_example =
    evaluate-rebuilds engine whole_numbers memory_gauge memory_gauge-IsLawful no_limits west_refuses
      60 60 errors west_only empty_queue [] (record east_finding { source = "west" }) refl refl
      west_told

evaluate-keeps_example :
    let (e', q', res) =
      evaluate engine whole_numbers no_limits west_refuses 60 60 west_only empty_queue in
    (res.source_errors ≡ causes engine 60 west_refuses west_only.states west_only.rule.sources)
    × (((src : Source) (s : State)
          → Among src west_only.rule.sources
          → get src.name west_only.states ≡ some s
          → cause engine 60 (west_refuses src.name) s ≢ none
          → get src.name e'.states ≡ some s)
        × ((name : String)
            → Unnamed name west_only.rule.sources
            → get name e'.states ≡ get name west_only.states))
unfolding new_rule_eval
evaluate-keeps_example =
    evaluate-keeps engine whole_numbers no_limits west_refuses 60 60 west_only empty_queue (tt, tt)

both_distinct : DistinctNames (cluster "east" ∷ cluster "west" ∷ [])
both_distinct = ((refl, tt), (tt, tt))

-- A rule that gains a cluster.
carry_example :
    get "west"
      (carry engine
        (new_rule_eval engine (on (cluster "east" ∷ cluster "west" ∷ [])) (pos 600))
        west_only
        (pos 600)).states
    ≡ adopted_or engine
        (on (cluster "east" ∷ cluster "west" ∷ []))
        (pos 600)
        (cluster "west")
        (get "west" west_only.states)
        (some (new_state engine errors_rule (("team", "core") ∷ []) (cluster "west") (pos 600)))
carry_example =
    carry-get engine (on (cluster "east" ∷ cluster "west" ∷ [])) west_only (pos 600)
      (cluster "west") both_distinct (inr (inl refl))

abbrev minutely : Resend
minutely = record { interval = pos 60; tolerance = pos 4 }

abbrev twice : List LoadedRule
twice = on (cluster "east" ∷ []) ∷ on (cluster "west" ∷ []) ∷ []

-- Both rules reached the cluster `east`, and the first one left it.
abbrev before_reload : List LoadedRule
before_reload = on (cluster "east" ∷ cluster "west" ∷ []) ∷ []

abbrev after_reload : List LoadedRule
after_reload =
    on (cluster "west" ∷ []) ∷ record (on (cluster "east" ∷ [])) { path = "db.yaml" } ∷ []

abbrev live : Scheduler
live = new_scheduler engine minutely 0 before_reload

live_loaded : live.loaded ≡ describe before_reload
unfolding new_scheduler
live_loaded = refl

reload-gauge_example :
    memory_gauge.holds east_finding
      (reload engine memory_gauge 1000 after_reload live (east_finding ∷ [])).1
    ≡ (if live.stopped
        then memory_gauge.holds east_finding (east_finding ∷ [])
        else not (reached "east" before_reload && not (reached "east" after_reload))
          && (not (
                loads (pair_of east_finding) before_reload
                && not (loads (pair_of east_finding) after_reload))
              && memory_gauge.holds east_finding (east_finding ∷ [])))
reload-gauge_example =
    reload-gauge engine memory_gauge memory_gauge-IsLawful 1000 before_reload after_reload live
      (east_finding ∷ []) east_finding live_loaded

east_absent : All (λ src. src.name ≢ "east") west_only.rule.sources
unfolding new_rule_eval
east_absent = (λ h. let p : ◌≡◌ {A = Bool} false true = (eq_iff "west" "east").1 h in cc, tt)

-- The rule leaves `east`, is evaluated, the other rule is, and a reload changes nothing.
abbrev one_tick : List Tick
one_tick = record { reply = west_refuses; now = 60; queued_at = 60 } ∷ []

abbrev leaving : List Event
leaving =
    reloaded 1000 after_reload
    ∷ evaluated errors one_tick west_only empty_queue
    ∷ evaluated (record errors { file = "db.yaml" }) one_tick west_only empty_queue
    ∷ reloaded 2000 after_reload
    ∷ []

leaving-Spares : All (Spares east_finding) leaving
leaving-Spares =
    ((refl, refl), (inr (west_only-IsReady, east_absent), (inl refl, ((refl, refl), tt))))

left_source_example :
    memory_gauge.holds east_finding
      (after_events engine whole_numbers memory_gauge no_limits leaving live (east_finding ∷ [])).1
    ≡ true
unfolding same_series
left_source_example =
    left_source-stands engine whole_numbers memory_gauge memory_gauge-IsLawful no_limits leaving
      before_reload live (east_finding ∷ []) east_finding live_loaded leaving-Spares refl refl

-- The east cluster refuses its sample, and the finding about its key stands.
abbrev east_key : Series
east_key = record east_finding { check = "rule/attribute-key" }

recheck_example :
    memory_gauge.holds east_key (
      record_recheck memory_gauge errors
        (recheck_rule_once
          (λ name wanted. sampled (err "timeout"))
          (on (cluster "west" ∷ cluster "east" ∷ []))
          60)
        (east_key ∷ []))
    ≡ memory_gauge.holds east_key (east_key ∷ [])
unfolding sampling_of
recheck_example =
    recheck-unheard memory_gauge memory_gauge-IsLawful errors east_key
      (λ name wanted. sampled (err "timeout")) (on (cluster "west" ∷ cluster "east" ∷ [])) 60
      (east_key ∷ []) refl
