-- ===== src/Scheduler/Evaluate/Answered.antt =====
-- internal/scheduler/ruleeval.go: answeredChecks.
use clickhouse_ruler.Base.{
  ◌≡◌, refl, ◌∙◌, Bool, false, ◌&&◌, ◌||◌, String, List, [], ◌∷◌, ◌++◌, if◌then◌else◌, string_eq,
  ◌==◌, arith, leb, ltb, length, is_some,
}
use clickhouse_ruler.Source.{Source}
use clickhouse_ruler.Query.Cost.{check_rule_cost}
use clickhouse_ruler.Scheduler.Drift.{
  check_rule_columns, check_rule_execution, check_rule_source_schema,
}
use clickhouse_ruler.Scheduler.Evaluate.Results.{
  SourceResult, Answer, answers_of, source_answers, replied, answered_checks, is_ok,
  check_annotations_template,
}

-- Whether a list of answers has one for a check and a source. One without a source is for every source.
abbrev pub covers : String → String → Answer → Bool
covers check source a = (a.check == check) && ((a.source == "") || (a.source == source))

abbrev pub covered : String → String → List Answer → Bool
covered check source [] = false
covered check source (a ∷ answers) = covers check source a || covered check source answers

-- What one source's result is evidence of: that it replied, that its query ran or was refused, or that there was an
-- alert to render.
abbrev pub tells : String → SourceResult → Bool
tells check r =
    (((check_rule_columns == check) || (check_rule_cost == check)) && is_ok r.err)
    || ((check_rule_execution == check) && (is_ok r.err || is_some r.query_err))
    || ((check_annotations_template == check) && r.rendered)

abbrev pub told : String → String → List (Source × SourceResult) → Bool
told check source [] = false
told check source ((src, r) ∷ results) =
    (((src.name == "") || (src.name == source)) && tells check r) || told check source results

-- Two results to compare, or one source that replied and none to compare it with.
abbrev pub compared : List (Source × SourceResult) → Bool
compared results = leb 2 (replied results) || (ltb 0 (replied results) && ltb (length results) 2)

covered-append :
    (check source : String) (xs ys : List Answer)
    → covered check source (xs ++ ys) ≡ (covered check source xs || covered check source ys)
covered-append check source [] ys = refl
covered-append check source (x ∷ xs) ys = ground (arith, covered-append check source xs ys)

-- The answers of a source, as three conditions.
covered_parts :
    (check source name : String) (fine ran rendered : Bool)
    → covered check source (
        (if fine
          then record { check = check_rule_columns; source = name }
            ∷ record { check = check_rule_cost; source = name }
            ∷ []
          else [])
        ++ (if ran then record { check = check_rule_execution; source = name } ∷ [] else [])
        ++ (if rendered
            then record { check = check_annotations_template; source = name } ∷ []
            else []))
      ≡ (((name == "") || (name == source))
          && ((((check_rule_columns == check) || (check_rule_cost == check)) && fine)
              || ((check_rule_execution == check) && ran)
              || ((check_annotations_template == check) && rendered)))
covered_parts check source name fine ran rendered = ground arith

covered-answers_of :
    (check source : String) (src : Source) (r : SourceResult)
    → covered check source (answers_of src r)
      ≡ (((src.name == "") || (src.name == source)) && tells check r)
unfolding answers_of
covered-answers_of check source src r =
    covered_parts check source src.name (is_ok r.err) (is_ok r.err || is_some r.query_err)
      r.rendered

covered-source_answers :
    (check source : String) (results : List (Source × SourceResult))
    → covered check source (source_answers results) ≡ told check source results
unfolding source_answers
covered-source_answers check source [] = refl
covered-source_answers check source ((src, r) ∷ results) =
    covered-append check source (answers_of src r) (source_answers results)
    ∙ ground
        (arith, covered-answers_of check source src r, covered-source_answers check source results)

-- The pass answers a check for a source exactly where that source's own result is evidence of it; the comparison of
-- sources is answered exactly where two sources replied, or the only one did. (A source without a
-- name would answer for all.)
pub covered-answered_checks :
    (check source : String) (results : List (Source × SourceResult))
    → covered check source (answered_checks results)
      ≡ (told check source results || ((check_rule_source_schema == check) && compared results))
unfolding answered_checks
covered-answered_checks check source results =
    covered-append check source (source_answers results) _
    ∙ ground (arith, covered-source_answers check source results)
