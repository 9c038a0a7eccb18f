-- ===== src/Rule.antt =====
-- internal/rule: the parsed rule file.
pub mod Checks
pub mod Expr
pub mod Template
pub mod Validate
use clickhouse_ruler.Base.{String, List, [], Duration, string_eq}
use clickhouse_ruler.GoMap.{Map, put_all}
use clickhouse_ruler.Lint.{Lines}

pub record Rule : Type 0 where
  pub alert : String
  pub expr : String
  pub sources : Map String String
  pub window : Duration
  pub for_duration : Duration
  pub keep_firing_for : Duration
  pub labels : Map String String
  pub annotations : Map String String
  pub lines : Lines

pub record Group : Type 0 where
  pub name : String
  pub interval : Duration
  pub labels : Map String String
  pub rules : List Rule
  pub lines : Lines

pub record RuleFile : Type 0 where
  pub file : String
  pub groups : List Group

-- Group.EffectiveLabels
unfoldable pub effective_labels : Group → Rule → Map String String
unfolding put_all
effective_labels g r = put_all (put_all [] g.labels) r.labels
