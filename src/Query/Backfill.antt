-- ===== src/Query/Backfill.antt =====
-- internal/query/backfill.go: the plan of a replay, and what it counts. What a window's query answers is a parameter.
pub mod Plan
use clickhouse_ruler.Base.{
  ℕ, zero, suc, ◌+◌, ◌*◌, ◌/◌, ◌%◌, ◌-◌, ◌≡◌, ◌↔◌, Bool, true, false, ◌&&◌, ◌||◌, not, String, List,
  [], ◌∷◌, ◌++◌, Option, none, some, if◌then◌else◌, nat_beq, nat_beq_iff, nat_eq, string_eq, ◌==◌,
  Eq, arith, ltb, leb, length, take, Time, Duration, ℤ, pos, negsuc, leb_ℤ, ltb_ℤ, time_sub,
  time_add, mul_int64, add_int64, two_64, Result, ok, err,
}
use clickhouse_ruler.GoMap.{Map, get, put}
use clickhouse_ruler.Text.{concat, join, sort_by, sort_strings, str_less}
use clickhouse_ruler.Alert.Data.{LabelSet, Sample, Alert, Phase, pending, firing, resolved}
use clickhouse_ruler.Alert.Annotate.{Engine}
use clickhouse_ruler.Alert.State.{State, DuplicateLabelSet}
use clickhouse_ruler.Alert.State.Step.{Evaluated, eval}

abbrev pub max_int32 : ℕ
max_int32 = 2147483647

-- replayWindows, on an int64 division that rounds towards zero.
unfoldable pub replay_windows : Duration → Duration → ℕ
replay_windows (pos span) (pos step) =
    if nat_beq step 0 then 1 else if ltb (span / step) 1 then 1 else span / step
replay_windows (pos span) (negsuc step) = 1
replay_windows (negsuc span) step = 1

-- How many times the step has to be raised.
unfoldable pub step_multiple : ℕ → ℕ → ℕ → ℕ
step_multiple windows per_window ceiling =
    let allowed = if ltb (ceiling / per_window) 1 then 1 else ceiling / per_window in
    (windows + allowed + two_64 - 1) % two_64 / allowed

-- stepWithinCeiling
unfoldable pub step_within_ceiling : Duration → Duration → ℕ → ℕ → Duration × Bool
step_within_ceiling span step per_window ceiling =
    let windows = replay_windows span step in
    let multiple = step_multiple windows per_window ceiling in
    if nat_beq ceiling 0 || nat_beq per_window 0
    then (step, false)
    else if leb per_window (ceiling / windows)
    then (step, false)
    else if ltb max_int32 multiple
    then (span, true)
    else (mul_int64 step (pos multiple), true)

-- saturatingMul
unfoldable pub saturating_mul : ℕ → ℕ → ℕ
saturating_mul a b =
    if nat_beq a 0 || nat_beq b 0 then 0 else if ltb ((two_64 - 1) / b) a then two_64 - 1 else a * b

abbrev negated : ℕ → ℤ
negated zero = pos 0
negated (suc n) = negsuc n

-- replayInstants, the oldest first.
unfoldable pub replay_instants : Time → Duration → ℕ → List Time
replay_instants now step zero = []
replay_instants now step (suc i) =
    time_add now (mul_int64 (negated i) step) ∷ replay_instants now step i

pub record InstanceKey : Type 0 where
  pub fingerprint : ℕ
  pub active_at : Time

abbrev instance_beq : InstanceKey → InstanceKey → Bool
instance_beq j k = nat_beq j.fingerprint k.fingerprint && nat_beq j.active_at k.active_at

pub instance_beq_iff : (j k : InstanceKey) → (instance_beq j k ≡ true) ↔ (j ≡ k)
instance_beq_iff j k = ground arith

instance abbrev pub instance_eq : Eq InstanceKey
instance_eq = record { same = instance_beq; same_iff = instance_beq_iff }

pub record FiringSpan : Type 0 where
  pub fired_at : Time
  pub last_firing : Time

pub record LabelSetHits : Type 0 where
  pub labels : String
  pub hits : ℕ

pub record ReplayCounts : Type 0 where
  pub alerts : ℕ
  pub hits : ℕ
  pub longest_streak : Duration
  pub still_firing : Bool
  pub top : List LabelSetHits

pub data ReplayError : Type 0 where
  query_failed : String → ReplayError
  duplicate : DuplicateLabelSet → ReplayError

abbrev no_labels : String
no_labels = "(no labels)"

pairs_of : LabelSet → List String
unfolding concat
pairs_of [] = []
pairs_of ((k, v) ∷ labels) = concat (k ∷ "=" ∷ v ∷ []) ∷ pairs_of labels

-- labelSetKey
unfoldable pub label_set_key : LabelSet → String
unfolding pairs_of sort_strings join
label_set_key [] = no_labels
label_set_key (l ∷ labels) = join "," (sort_strings (pairs_of (l ∷ labels)))

abbrev pub count_at : String → Map String ℕ → ℕ
count_at key hits = elim (get key hits) [ none ↦ 0 | some n ↦ n ]

unfoldable pub count_hits : List Sample → Map String ℕ → Map String ℕ
unfolding label_set_key get put
count_hits [] hits = hits
count_hits (s ∷ samples) hits =
    let key = label_set_key s.labels in count_hits samples (put key (suc (count_at key hits)) hits)

abbrev hits_less : LabelSetHits → LabelSetHits → Bool
hits_less a b =
    if not (nat_beq a.hits b.hits) then ltb b.hits a.hits else str_less a.labels b.labels

hits_list : Map String ℕ → List LabelSetHits
hits_list [] = []
hits_list ((labels, n) ∷ hits) = record { labels = labels; hits = n } ∷ hits_list hits

abbrev top_label_sets : ℕ
top_label_sets = 3

-- topHits
unfoldable pub top_hits : Map String ℕ → List LabelSetHits
unfolding hits_list sort_by str_less
top_hits hits = take top_label_sets (sort_by hits_less (hits_list hits))

abbrev Spans : Type 0
Spans = Map InstanceKey FiringSpan

abbrev extend : Time → Alert → Option FiringSpan → FiringSpan
extend at a none = record { fired_at = a.fired_at; last_firing = at }
extend at a (some span) = record span { last_firing = at }

abbrev is_firing : Phase → Bool
is_firing pending = false
is_firing firing = true
is_firing resolved = false

-- The loop over the alerts of one evaluation; the map's order is that in which the keys first appear.
unfoldable pub note_firing : Time → List Alert → Spans → Spans
unfolding get put
note_firing at [] spans = spans
note_firing at (a ∷ alerts) spans =
    let key : InstanceKey = record { fingerprint = a.fingerprint; active_at = a.active_at } in
    note_firing at alerts
      (if is_firing a.phase then put key (extend at a (get key spans)) spans else spans)

-- What the loop over the instants has so far.
pub record Replay : Type 0 where
  pub state : State
  pub hits : ℕ
  pub by_labels : Map String ℕ
  pub spans : Map InstanceKey FiringSpan

module _ (E : Engine) (answer : Time → Result String (List Sample)) where
  unfoldable pub replay_step : Time → List Sample → Replay → Result ReplayError Replay
  unfolding count_hits eval note_firing
  replay_step at samples p =
      let (state', outcome) = eval E p.state at samples in
      elim outcome [
        | err d ↦ err (duplicate d)
        | ok done ↦ ok (record {
          state = state';
          hits = p.hits + length samples;
          by_labels = count_hits samples p.by_labels;
          spans = note_firing at done.alerts p.spans;
        })
      ]

  unfoldable pub replay_all : List Time → Replay → Result ReplayError Replay
  unfolding replay_step
  replay_all [] p = ok p
  replay_all (at ∷ instants) p = elim (answer at) [
    | err e ↦ err (query_failed e)
    | ok samples ↦ elim (replay_step at samples p) [
      | err e ↦ err e
      | ok p' ↦ replay_all instants p'
    ]
  ]

-- The longest streak, and whether it was still firing at the last instant.
unfoldable pub longest : Time → Duration → Spans → Duration × Bool → Duration × Bool
longest last step [] best = best
longest last step ((k, span) ∷ spans) best =
    let streak = add_int64 (time_sub span.last_firing span.fired_at) step in
    longest last step spans
      (if leb_ℤ streak best.0 then best else (streak, nat_beq span.last_firing last))

abbrev last_of : Time → List Time → Time
last_of t [] = t
last_of t (u ∷ us) = last_of u us

unfoldable pub replay :
    Engine
    → (Time → Result String (List Sample))
    → State
    → List Time
    → Duration
    → Result ReplayError ReplayCounts
unfolding replay_all longest top_hits
replay E answer state instants step =
    elim (replay_all E answer instants
      (record { state = state; hits = 0; by_labels = []; spans = [] })) [
        | err e ↦ err e
        | ok p ↦
            let (streak, still) = longest (last_of 0 instants) step p.spans (pos 0, false) in
            ok (record {
              alerts = length p.spans;
              hits = p.hits;
              longest_streak = streak;
              still_firing = still;
              top = top_hits p.by_labels;
            })
      ]
