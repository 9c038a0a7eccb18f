-- ===== src/Scheduler/Reload/Stagger.antt =====
-- internal/scheduler/scheduler.go: staggerOffset, and when the groups of a configuration start.
use native.Mathlib.Nat.{mod-lt}
use clickhouse_ruler.Base.{
  zero, suc, ◌+◌, ◌%◌, ◌≤◌, ◌<◌, ◌≡◌, String, List, [], ◌∷◌, arith, Time, Duration, pos, negsuc,
  time_add, All,
}
use clickhouse_ruler.GoMap.{Map}
use clickhouse_ruler.Text.{concat, sort_by}
use clickhouse_ruler.Alert.Annotate.{Engine}
use clickhouse_ruler.Alert.Fingerprint.{bytes, fnv_write, fnv_offset}
use clickhouse_ruler.Ruleset.{LoadedRule, group_id}
use clickhouse_ruler.Scheduler.Evaluate.Results.{RuleEval}
use clickhouse_ruler.Scheduler.Reload.{
  Resend, RuleKey, TextPair, Grouped, stagger_offset, retention, group_rules, group_less,
  build_group, build_groups, build,
}

-- Where the time stands to the first tick: within one interval, or at once where the interval is not positive.
abbrev pub IsSoon : Time → Duration → Time → Type 0
IsSoon now (pos zero) start = start ≡ now
IsSoon now (pos (suc n)) start = (now ≤ start) × (start < now + suc n)
IsSoon now (negsuc n) start = start ≡ now

stagger_offset-IsSoon :
    (key : String) (now : Time) (interval : Duration)
    → IsSoon now interval (time_add now (stagger_offset key interval))
unfolding stagger_offset
stagger_offset-IsSoon key now (pos zero) = omega arith
stagger_offset-IsSoon key now (pos (suc n)) =
    let below : fnv_write (bytes key) fnv_offset % suc n < suc n = mod-lt _ (omega arith) in
    ground arith
stagger_offset-IsSoon key now (negsuc n) = omega arith

module _ (E : Engine) (resend : Resend) (now : Time) (prev : Map RuleKey RuleEval) where
  build_groups-IsSoon :
      (groups : List (TextPair × Grouped)) (evals : Map RuleKey RuleEval)
      → All
          (λ spec. IsSoon now spec.interval spec.start)
          (build_groups E resend now prev groups evals).0
  unfolding build_groups
  build_groups-IsSoon [] evals = tt
  build_groups-IsSoon ((k, g) ∷ groups) evals = (
    stagger_offset-IsSoon (concat (k.fst_text ∷ "|" ∷ k.snd_text ∷ [])) now g.interval,
    build_groups-IsSoon groups
        (build_group E (group_id k.fst_text k.snd_text) (retention resend g.interval) prev []
          g.rules evals).1,
  )

  -- Every group of a configuration has its first tick within one of its intervals from the time of the build, and
  -- not before that time; a group whose interval is not positive starts at that time.
  pub build-IsSoon :
      (rules : List LoadedRule)
      → All (λ spec. IsSoon now spec.interval spec.start) (build E resend now prev rules).0
  unfolding build
  build-IsSoon rules = build_groups-IsSoon (sort_by group_less (group_rules rules [])) []
