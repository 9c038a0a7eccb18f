-- ===== src/Source/Tests.antt =====
-- Two clusters, of which a selector picks one.
use clickhouse_ruler.Base.{refl, String, List, [], ◌∷◌, none, pos, string_eq}
use clickhouse_ruler.GoMap.{get, WellKeyed}
use clickhouse_ruler.Source.{Exemption, Source, match}
use clickhouse_ruler.Source.Match.{Matched, match-Matched}

abbrev staging : Source
staging = record {
  name = "staging";
  table = "logs";
  timestamp_column = "at";
  evaluation_delay = pos 0;
  max_rows = pos 10;
  max_concurrent_queries = pos 1;
  labels = ("env", "staging") ∷ [];
  policy = none;
  exemptions = [];
}

abbrev live : Source
live = record staging { name = "live"; labels = ("env", "live") ∷ [] }

only_env : WellKeyed {K = String} {V = String} (("env", "live") ∷ [])
unfolding get
only_env = (refl, tt)

match-Matched_example :
    Matched
      (("env", "live") ∷ [])
      (staging ∷ live ∷ [])
      (match (("env", "live") ∷ []) (staging ∷ live ∷ []))
match-Matched_example = match-Matched "env" "live" [] (staging ∷ live ∷ []) only_env

abbrev two_exemptions : List Exemption
two_exemptions =
    record { check = "rule/cost"; reason = "migration"; until = 100; line = 3 }
    ∷ record { check = "rule/cost"; reason = "again"; until = 300; line = 6 }
    ∷ []
