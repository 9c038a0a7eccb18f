-- ===== src/Lint/Changed/Tests.antt =====
-- A branch that changed one rule file, and one that changed a policy too.
use clickhouse_ruler.Base.{
  ◌≡◌, refl, true, false, String, List, [], ◌∷◌, Result, ok, err, if◌then◌else◌, string_eq, ◌==◌,
}
use clickhouse_ruler.Lint.{Problem, error}
use clickhouse_ruler.Lint.Changed.{Host, changed_since, is_kept, lines}
use clickhouse_ruler.Lint.Changed.Kept.{kept_by_git, is_kept-changed_since}

-- Paths from the root are their own names here.
abbrev host : Host
host = record {
  abs = λ path. ok path;
  clean = λ path. path;
  eval_symlinks = λ path. err "no link";
  join_path = λ root rel. rel;
  base = λ rel. if rel == "core/policy.yaml" then "policy.yaml" else rel;
}

abbrev git_of : String → List String → Result String String
git_of diff [] = err "no command"
git_of diff (command ∷ args) =
    if command == "diff" then ok diff else if command == "ls-files" then ok "" else ok "/repo"

abbrev finding_in : String → Problem
finding_in file = record {
  file = file;
  line = 3;
  subject = "Errors";
  check = "rule/expr";
  severity = error;
  text = "expr is empty";
  policy_file = "";
  policy_line = 0;
}

is_kept_example :
    is_kept host
      (changed_since host (git_of "web.yaml\ndb.yaml") "main" ("sources.yaml" ∷ []))
      (finding_in "api.yaml")
    ≡ kept_by_git host
        (git_of "web.yaml\ndb.yaml")
        "main"
        ("sources.yaml" ∷ [])
        (finding_in "api.yaml")
is_kept_example =
    is_kept-changed_since host (git_of "web.yaml\ndb.yaml") "main" ("sources.yaml" ∷ [])
      (finding_in "api.yaml")

api_dropped :
    kept_by_git host
      (git_of "web.yaml\ndb.yaml")
      "main"
      ("sources.yaml" ∷ [])
      (finding_in "api.yaml")
    ≡ false
unfolding lines is_kept changed_since
api_dropped = refl

policy_widens :
    is_kept host
      (changed_since host (git_of "web.yaml\ncore/policy.yaml") "main" [])
      (finding_in "api.yaml")
    ≡ true
unfolding changed_since is_kept
policy_widens = refl
