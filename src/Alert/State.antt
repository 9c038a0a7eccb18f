-- ===== src/Alert/State.antt =====
-- internal/alert/state.go: State, and one evaluation of it. A method returns the new state. The
-- pointer that `track` returns is a slot of its bucket, written through by `plug`; `range` over the
-- map of buckets visits it in the order of the association list.
pub mod Step
pub mod Machine
pub mod Bucket
pub mod BucketInv
pub mod Buckets
pub mod Rows
pub mod Refinement
pub mod Eval
pub mod Refusal
pub mod Timely
pub mod Snapshot
pub mod Adopt
use clickhouse_ruler.Base.{
  ℕ, ◌+◌, Bool, true, false, ◌&&◌, not, ◌++◌, String, List, [], ◌∷◌, Option, none, some, ltb, map,
  if◌then◌else◌, ◌==◌, string_eq, nat_eq, nat_beq, length, Result, ok, err, Duration, pos, time_sub,
  leb_ℤ, ltb_ℤ, ℤ,
}
use clickhouse_ruler.GoMap.{Map, get, put}
use clickhouse_ruler.GoMap.Same.{map_equal}
use clickhouse_ruler.Text.{sort_by, str_less, sort_strings, concat, join}
use clickhouse_ruler.Rule.{Rule}
use clickhouse_ruler.Rule.Template.{Node}
use clickhouse_ruler.Source.{Source}
use clickhouse_ruler.Alert.Data.{
  LabelSet, Sample, Phase, pending, firing, resolved, Alert, Instance, Labelled,
}
use clickhouse_ruler.Alert.Labels.{same_labels, base_labels, labels_for}
use clickhouse_ruler.Alert.Annotate.{Engine, AnnotationError, annotate, parse_annotations, keys_of}

abbrev pub Buckets : Type 0
Buckets = Map ℕ (List Instance)

pub record State : Type 0 where
  pub rule : Rule
  pub src : Source
  pub base : LabelSet
  pub active : Buckets
  pub annotations : Map String Node
  pub parse_errs : Map String String
  pub retention : Duration
  pub hash : LabelSet → ℕ

pub record DuplicateLabelSet : Type 0 where
  pub alert : String
  pub labels : LabelSet

abbrev pub is_pending : Phase → Bool
is_pending pending = true
is_pending _ = false

abbrev pub is_resolved : Phase → Bool
is_resolved resolved = true
is_resolved _ = false

-- insts := s.active[fp], empty for a key that is not there.
abbrev pub or_empty : Option (List Instance) → List Instance
or_empty none = []
or_empty (some insts) = insts

unfoldable pub bucket : ℕ → Buckets → List Instance
unfolding get
bucket fp active = or_empty (get fp active)

-- A row's labels and fingerprint; a row whose labels another row already has refuses the result.
abbrev pub clashes : Labelled → Labelled → Bool
clashes l seen = nat_beq seen.fp l.fp && same_labels seen.labels l.labels

unfoldable pub any_clash : Labelled → List Labelled → Bool
any_clash l [] = false
any_clash l (seen ∷ out) = let rest = any_clash l out in if clashes l seen then true else rest

unfoldable pub label_row : State → Sample → Labelled
unfolding labels_for
label_row s smpl =
    let labels = labels_for s.base s.rule s.src smpl in
    record { labels = labels; fp = s.hash labels; value = smpl.value }

resolve_from : State → List Labelled → List Sample → Result DuplicateLabelSet (List Labelled)
unfolding any_clash label_row
resolve_from s out [] = ok out
resolve_from s out (smpl ∷ samples) =
    let l = label_row s smpl in
    let rest = resolve_from s (out ++ l ∷ []) samples in
    if any_clash l out then err (record { alert = s.rule.alert; labels = l.labels }) else rest

unfoldable pub resolve_labels : State → List Sample → Result DuplicateLabelSet (List Labelled)
unfolding resolve_from
resolve_labels s samples = resolve_from s [] samples

-- A slot of a bucket: what stands before it, the instance, what stands after it.
pub record Slot : Type 0 where
  pub front : List Instance
  pub inst : Instance
  pub back : List Instance

abbrev pub plug : Slot → List Instance
plug z = z.front ++ z.inst ∷ z.back

unfoldable pub new_instance : Labelled → ℕ → Instance
new_instance l now = record {
  alert = record {
    fingerprint = l.fp;
    labels = l.labels;
    value = 0;
    phase = pending;
    active_at = now;
    fired_at = 0;
    resolved_at = 0;
    annotations = [];
    valid_until = 0;
  };
  last_seen = 0;
  present = false;
}

-- The loop of `track` over a bucket, and the append after it.
unfoldable pub track : Labelled → ℕ → List Instance → Slot
unfolding new_instance
track l now [] = record { front = []; inst = new_instance l now; back = [] }
track l now (i ∷ insts) =
    let rest = track l now insts in
    if not (same_labels i.alert.labels l.labels)
    then record rest { front = i ∷ rest.front }
    else if not (is_resolved i.alert.phase)
    then record { front = []; inst = i; back = insts }
    else record { front = []; inst = new_instance l now; back = insts }

-- The writes of one round of the loop of Eval, before the annotations are rendered.
unfoldable pub see : Duration → ℕ → ℕ → Instance → Instance
see hold now value i =
    let a = i.alert in
    let due = is_pending a.phase && leb_ℤ hold (time_sub now a.active_at) in
    record {
      alert = record a {
        value = value;
        phase = if due then firing else a.phase;
        fired_at = if due then now else a.fired_at;
      };
      last_seen = now;
      present = true;
    }

abbrev pub put_failures :
    Map String AnnotationError → List AnnotationError → Map String AnnotationError
put_failures broken [] = broken
put_failures broken (f ∷ fs) = put_failures (put f.annotation f broken) fs

-- What is done to an instance that no row of this evaluation has.
unfoldable pub expire_one : Duration → Duration → ℕ → Instance → Option Instance
expire_one keep retention now i =
    let a = i.alert in
    if i.present then some i else elim a.phase [
      | pending ↦ none
      | resolved ↦ if ltb_ℤ retention (time_sub now a.resolved_at) then none else some i
      | firing ↦
          if ltb_ℤ (time_sub now i.last_seen) keep
          then some i
          else some (record i { alert = record a { phase = resolved; resolved_at = now } })
    ]

unfoldable pub expire_bucket : Duration → Duration → ℕ → List Instance → List Instance
unfolding expire_one
expire_bucket keep retention now [] = []
expire_bucket keep retention now (i ∷ insts) =
    let kept = expire_bucket keep retention now insts in
    elim (expire_one keep retention now i) [ none ↦ kept | some j ↦ j ∷ kept ]

-- A bucket with nothing left is deleted.
abbrev pub keep_bucket : ℕ → List Instance → Buckets → Buckets
keep_bucket fp [] rest = rest
keep_bucket fp (i ∷ insts) rest = (fp, i ∷ insts) ∷ rest

unfoldable pub expire_all : Duration → Duration → ℕ → Buckets → Buckets
unfolding expire_bucket
expire_all keep retention now [] = []
expire_all keep retention now ((fp, insts) ∷ m) =
    keep_bucket fp (expire_bucket keep retention now insts) (expire_all keep retention now m)

abbrev pub clear_mark : Instance → Instance
clear_mark i = record i { present = false }

unfoldable pub clear_marks : Buckets → Buckets
clear_marks [] = []
clear_marks ((fp, insts) ∷ m) = (fp, map clear_mark insts) ∷ clear_marks m

unfoldable pub all_alerts : Buckets → List Alert
all_alerts [] = []
all_alerts ((fp, insts) ∷ m) = map (λ i. i.alert) insts ++ all_alerts m

key_values : LabelSet → List String → List String
unfolding concat get
key_values labels [] = []
key_values labels (k ∷ ks) =
    concat (k ∷ "=" ∷ elim (get k labels) [ some v ↦ v | none ↦ "" ] ∷ []) ∷ key_values labels ks

unfoldable pub label_key : LabelSet → String
unfolding key_values keys_of sort_strings join
label_key labels = join ", " (key_values labels (sort_strings (keys_of labels)))

unfoldable pub alert_less : Alert → Alert → Bool
unfolding label_key str_less
alert_less a b =
    if not (nat_beq a.fingerprint b.fingerprint)
    then ltb a.fingerprint b.fingerprint
    else str_less (label_key a.labels) (label_key b.labels)

unfoldable pub snapshot : State → List Alert
unfolding all_alerts alert_less sort_by
snapshot s = sort_by alert_less (all_alerts s.active)

unfoldable pub expire : State → ℕ → State × List Alert
unfolding expire_all snapshot
expire s now =
    let s' = record s { active = expire_all s.rule.keep_firing_for s.retention now s.active } in
    (s', snapshot s')

failure_less : AnnotationError → AnnotationError → Bool
unfolding str_less
failure_less a b = str_less a.annotation b.annotation

values_of : {V : Type 0} → Map String V → List V
values_of [] = []
values_of ((k, v) ∷ m) = v ∷ values_of m

-- One entry for each annotation, ordered by name.
unfoldable pub sorted_failures : Map String AnnotationError → List AnnotationError
unfolding sort_by failure_less values_of
sorted_failures broken = sort_by failure_less (values_of broken)

-- tracked: how many instances the state holds.
unfoldable pub tracked : Buckets → ℕ
tracked [] = 0
tracked ((fp, insts) ∷ m) = length insts + tracked m
