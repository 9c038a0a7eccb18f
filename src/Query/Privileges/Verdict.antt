-- ===== src/Query/Privileges/Verdict.antt =====
-- internal/query/privileges.go: what the assertions about grants and constraints pass on.
use clickhouse_ruler.Base.{
  ◌≡◌, refl, ◌∙◌, ap, Bool, true, false, ◌&&◌, ◌||◌, not, String, List, [], ◌∷◌, ◌++◌, map, Option,
  none, some, if◌then◌else◌, nat_beq, arith, Option-cases, inl, inr, All, string_eq, is_some,
}
use clickhouse_ruler.GoMap.{get}
use clickhouse_ruler.Text.{sort_strings}
use clickhouse_ruler.Query.Privileges.{
  Probe, probes, Connection, sort_out, run_probes, revoked_verdict, assert_sources_revoked,
}
use clickhouse_ruler.Query.Privileges.Settings.{
  SettingRow, bounded, constant, row_named, constrained, constrained_names, unconstrained,
  unconstrained_one, constraints_verdict, eval_constraints,
}
use clickhouse_ruler.Query.Privileges.Answers.{
  Status, passes, fails, inconclusive, Exception, DriverError, classify_denial, classify_probe,
  code_access_denied,
}

-- The server answered with a denial.
abbrev pub is_denial : Option Exception → Bool
is_denial none = false
is_denial (some ex) = nat_beq ex.code code_access_denied

abbrev pub denied : Option DriverError → Bool
denied none = false
denied (some e) = not e.is_deadline && is_denial e.exception

-- The query was let through: it ran, it was still running while the check had time left, or the server failed on it
-- after the privilege check.
abbrev pub let_through : Option DriverError → Bool → Bool
let_through none alive = true
let_through (some e) alive =
    if e.is_deadline then alive else is_some e.exception && not (is_denial e.exception)

abbrev pub any_through : Connection → List Probe → Bool
any_through c [] = false
any_through c (p ∷ ps) = let_through (c.exec p.sql) (c.is_alive p.sql) || any_through c ps

abbrev pub all_denied : Connection → List Probe → Bool
all_denied c [] = true
all_denied c (p ∷ ps) = denied (c.exec p.sql) && all_denied c ps

abbrev pub status_of : Bool → Bool → Status
status_of through refused = if through then fails else if refused then passes else inconclusive

-- The verdict on one more probe.
abbrev joined : Status → Status → Status
joined passes st = st
joined fails st = fails
joined inconclusive passes = inconclusive
joined inconclusive fails = fails
joined inconclusive inconclusive = inconclusive

classify_probe-status :
    (answer : Option DriverError) (alive : Bool)
    → (classify_probe answer alive).0 ≡ status_of (let_through answer alive) (denied answer)
unfolding classify_probe classify_denial
classify_probe-status none alive = refl
classify_probe-status (some e) alive = elim (Option-cases e.exception) [
  | inl n ↦ rw (classify_denial, n) (ground arith)
  | inr (ex, n) ↦ rw (classify_denial, n) (ground arith)
]

sort_out-granted :
    (p : String) (st : Status) (d : String) (l : List String × List String)
    → (revoked_verdict (sort_out p (st, d) l)).status ≡ joined st (revoked_verdict l).status
unfolding sort_out revoked_verdict
sort_out-granted p passes d ([], []) = refl
sort_out-granted p passes d ([], u ∷ us) = refl
sort_out-granted p passes d (g ∷ gs, us) = refl
sort_out-granted p fails d ([], []) = refl
sort_out-granted p fails d ([], u ∷ us) = refl
sort_out-granted p fails d (g ∷ gs, us) = refl
sort_out-granted p inconclusive d ([], []) = refl
sort_out-granted p inconclusive d ([], u ∷ us) = refl
sort_out-granted p inconclusive d (g ∷ gs, us) = refl

joined_status :
    (t d ts ds : Bool) → joined (status_of t d) (status_of ts ds) ≡ status_of (t || ts) (d && ds)
joined_status t d ts ds = ground arith

run_probes-status :
    (c : Connection) (ps : List Probe)
    → (revoked_verdict (run_probes c ps)).status ≡ status_of (any_through c ps) (all_denied c ps)
unfolding run_probes revoked_verdict
run_probes-status c [] = refl
run_probes-status c (p ∷ ps) =
    let answer = c.exec p.sql in
    let verdict = classify_probe answer (c.is_alive p.sql) in
    sort_out-granted p.privilege verdict.0 verdict.1 (run_probes c ps)
    ∙ rw (classify_probe-status answer (c.is_alive p.sql)) (
        rw (run_probes-status c ps) (
          joined_status (let_through answer (c.is_alive p.sql)) (denied answer) (any_through c ps)
            (all_denied c ps)))

-- The assertion that the table functions are revoked fails exactly where the server let one of the four probes through,
-- and passes exactly where it let none through and denied every one of them: a probe that
-- it did not answer leaves it inconclusive.
pub sources_revoked-status :
    (c : Connection)
    → (assert_sources_revoked c).status ≡ status_of (any_through c probes) (all_denied c probes)
unfolding assert_sources_revoked
sources_revoked-status c = run_probes-status c probes

-- What the contract wants behind a setting: a row in system.settings that is bounded, or one that is const.
abbrev pub held : List SettingRow → String × Bool → Bool
held rows (name, bound) = elim (row_named rows name) [
  | none ↦ false
  | some r ↦ if bound then bounded r else constant r
]

abbrev pub all_held : List SettingRow → List (String × Bool) → Bool
all_held rows [] = true
all_held rows (entry ∷ entries) = held rows entry && all_held rows entries

is_empty : List String → Bool
is_empty [] = true
is_empty (x ∷ xs) = false

is_empty-append : (xs ys : List String) → is_empty (xs ++ ys) ≡ (is_empty xs && is_empty ys)
unfolding is_empty
is_empty-append [] ys = refl
is_empty-append (x ∷ xs) ys = refl

unconstrained_one-is_empty :
    (rows : List SettingRow) (name : String) (bound : Bool)
    → is_empty (unconstrained_one (row_named rows name) name (some bound)) ≡ held rows (name, bound)
unfolding unconstrained_one is_empty
unconstrained_one-is_empty rows name bound = ground arith

unconstrained-is_empty :
    (rows : List SettingRow) (entries : List (String × Bool))
    → All (λ entry. get entry.0 constrained ≡ some entry.1) entries
    → is_empty (unconstrained rows (map (λ entry. entry.0) entries)) ≡ all_held rows entries
unfolding unconstrained is_empty
unconstrained-is_empty rows [] h = refl
unconstrained-is_empty rows ((name, bound) ∷ entries) h =
    is_empty-append (unconstrained_one (row_named rows name) name (get name constrained)) _
    ∙ rw (h.0, unconstrained_one-is_empty rows name bound, unconstrained-is_empty rows entries h.1)
        refl

-- `constrained` in the order of its names.
abbrev sorted_settings : List (String × Bool)
sorted_settings =
    ("max_execution_time", true)
    ∷ ("max_memory_usage", true)
    ∷ ("max_result_rows", true)
    ∷ ("result_overflow_mode", false)
    ∷ ("skip_unavailable_shards", false)
    ∷ ("timeout_overflow_mode", false)
    ∷ []

constrained_names_lem : constrained_names ≡ map (λ entry. entry.0) sorted_settings
unfolding constrained_names sort_strings
constrained_names_lem = refl

sorted_settings_lem : All (λ entry. get entry.0 constrained ≡ some entry.1) sorted_settings
unfolding get
sorted_settings_lem = (refl, (refl, (refl, (refl, (refl, (refl, tt))))))

all_held-sorted_settings :
    (rows : List SettingRow) → all_held rows sorted_settings ≡ all_held rows constrained
all_held-sorted_settings rows = ground arith

constraints_verdict-status :
    (us : List String) → (constraints_verdict us).status ≡ (if is_empty us then passes else fails)
unfolding constraints_verdict is_empty
constraints_verdict-status [] = refl
constraints_verdict-status (u ∷ us) = refl

-- The assertion about constraints passes exactly where system.settings has, for each of the limits that the ruler
-- sends, a row with a bound or one that is const, and for each of the other three settings one that is
-- const, and fails otherwise.
pub eval_constraints-status :
    (rows : List SettingRow)
    → (eval_constraints rows).status ≡ (if all_held rows constrained then passes else fails)
unfolding eval_constraints
eval_constraints-status rows =
    constraints_verdict-status (unconstrained rows constrained_names)
    ∙ ap (λ b. if b then passes else fails)
        (ap (λ names. is_empty (unconstrained rows names)) constrained_names_lem
          ∙ unconstrained-is_empty rows sorted_settings sorted_settings_lem
          ∙ all_held-sorted_settings rows)
