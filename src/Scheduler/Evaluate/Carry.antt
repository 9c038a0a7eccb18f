-- ===== src/Scheduler/Evaluate/Carry.antt =====
-- internal/scheduler/ruleeval.go: NewRuleEval and carry, which give a reloaded rule its states.
use clickhouse_ruler.Base.{
  ◌≡◌, refl, ◌∙◌, ap, ◌⊎◌, inl, inr, false, String, List, [], ◌∷◌, Option, none, some,
  if◌then◌else◌, string_eq, ◌==◌, eq_iff, arith, All, Duration, Bool-cases, nat_eq,
}
use clickhouse_ruler.GoMap.{Map, get}
use clickhouse_ruler.GoMap.Laws.{get-put}
use clickhouse_ruler.Alert.Annotate.{Engine}
use clickhouse_ruler.Alert.State.{State}
use clickhouse_ruler.Alert.State.Step.{new_state, adopt}
use clickhouse_ruler.Source.{Source}
use clickhouse_ruler.Ruleset.{LoadedRule}
use clickhouse_ruler.Scheduler.Evaluate.{new_states, new_rule_eval, carry_one, carry_over, carry}
use clickhouse_ruler.Scheduler.Evaluate.Results.{RuleEval}

-- No source of the list has the name, and no two have one name.
abbrev pub Unnamed : String → List Source → Type 0
Unnamed name sources = All (λ src. (name == src.name) ≡ false) sources

abbrev pub DistinctNames : List Source → Type 0
DistinctNames [] = Unit
DistinctNames (src ∷ sources) = Unnamed src.name sources × DistinctNames sources

abbrev pub Among : Source → List Source → Type 0
Among src [] = ⊥
Among src (x ∷ sources) = (src ≡ x) ⊎ Among src sources

-- What the state of one source becomes: `fresh` is the one that NewRuleEval made.
abbrev pub adopted_or :
    Engine → LoadedRule → Duration → Source → Option State → Option State → Option State
adopted_or E r retention src none fresh = fresh
adopted_or E r retention src (some state) fresh =
    if (adopt E state r.rule r.labels src retention).1
    then some (adopt E state r.rule r.labels src retention).0
    else fresh

pub Unnamed-Among :
    (src : Source) (sources : List Source) (name : String)
    → Unnamed name sources
    → Among src sources
    → (name == src.name) ≡ false
Unnamed-Among src [] name h m = absurd m
Unnamed-Among src (x ∷ sources) name h (inl e) = rw e h.0
Unnamed-Among src (x ∷ sources) name h (inr m) = Unnamed-Among src sources name h.1 m

module _ (E : Engine) (r : LoadedRule) (retention : Duration) where
  new_states_other :
      (name : String) (sources : List Source) (states : Map String State)
      → Unnamed name sources
      → get name (new_states E r retention sources states) ≡ get name states
  unfolding new_states
  new_states_other name [] states h = refl
  new_states_other name (x ∷ sources) states h =
      new_states_other name sources _ h.1
      ∙ ground (arith, h.0, get-put name x.name (new_state E r.rule r.labels x retention) states)

  new_states-get :
      (src : Source) (sources : List Source) (states : Map String State)
      → DistinctNames sources
      → Among src sources
      → get src.name (new_states E r retention sources states)
        ≡ some (new_state E r.rule r.labels src retention)
  unfolding new_states
  new_states-get src [] states d m = absurd m
  new_states-get src (x ∷ sources) states d (inl e) = rw e (
      new_states_other x.name sources _ d.0
      ∙ ground (
        arith,
        eq_iff x.name x.name,
        get-put x.name x.name (new_state E r.rule r.labels x retention) states,
      ))
  new_states-get src (x ∷ sources) states d (inr m) = new_states-get src sources _ d.1 m

  get-carry_one :
      (name : String) (src : Source) (o : Option State) (states : Map String State)
      → get name (carry_one E r retention src o states) ≡ (
          if name == src.name
          then adopted_or E r retention src o (get src.name states)
          else get name states)
  unfolding carry_one
  get-carry_one name src none states = ground (arith, eq_iff name src.name)
  get-carry_one name src (some t) states =
      elim (Bool-cases (adopt E t r.rule r.labels src retention).1) [
        | inl e ↦
            rw (carry_one, e)
              (get-put name src.name (adopt E t r.rule r.labels src retention).0 states)
        | inr e ↦ rw (carry_one, e) (ground (arith, eq_iff name src.name))
      ]

  module _ (prev : Map String State) where
    carry_over_other :
        (name : String) (sources : List Source) (states : Map String State)
        → Unnamed name sources
        → get name (carry_over E r retention sources prev states) ≡ get name states
    unfolding carry_over
    carry_over_other name [] states h = refl
    carry_over_other name (x ∷ sources) states h =
        carry_over_other name sources _ h.1 ∙ get-carry_one name x (get x.name prev) states ∙ rw h.0

    carry_over-get :
        (src : Source) (sources : List Source) (states : Map String State)
        → DistinctNames sources
        → Among src sources
        → get src.name (carry_over E r retention sources prev states)
          ≡ adopted_or E r retention src (get src.name prev) (get src.name states)
    unfolding carry_over
    carry_over-get src [] states d m = absurd m
    carry_over-get src (x ∷ sources) states d (inl e) = rw e (
        carry_over_other x.name sources _ d.0
        ∙ get-carry_one x.name x (get x.name prev) states
        ∙ rw ((eq_iff x.name x.name).1 refl))
    carry_over-get src (x ∷ sources) states d (inr m) =
        carry_over-get src sources _ d.1 m
        ∙ ap (adopted_or E r retention src (get src.name prev)) (
            get-carry_one src.name x (get x.name prev) states
            ∙ ground (
              arith,
              Unnamed-Among src sources x.name d.0 m,
              eq_iff src.name x.name,
              eq_iff x.name src.name,
            ))

-- A reloaded rule evaluates each of its sources on the state that the rule before it held for a source of that name,
-- adopted, where that state accepts the reloaded definition, and on a fresh one where there was none
-- or it refuses. The sources of the rule have distinct names.
pub carry-get :
    (E : Engine) (r : LoadedRule) (prev : RuleEval) (retention : Duration) (src : Source)
    → DistinctNames r.sources
    → Among src r.sources
    → get src.name (carry E (new_rule_eval E r retention) prev retention).states
      ≡ adopted_or E r retention src
          (get src.name prev.states)
          (some (new_state E r.rule r.labels src retention))
unfolding carry new_rule_eval
carry-get E r prev retention src d m =
    carry_over-get E r retention prev.states src r.sources (new_states E r retention r.sources []) d
      m
    ∙ ap (adopted_or E r retention src (get src.name prev.states))
        (new_states-get E r retention src r.sources [] d m)
