-- ===== src/Lint.antt =====
-- internal/lint: severities, the findings that checks report, and lines of a parsed file.
pub mod Changed
pub mod Checks
pub mod Table
use clickhouse_ruler.Base.{
  ℕ, Bool, true, false, String, List, [], ◌∷◌, Option, none, some, ltb, if◌then◌else◌, string_eq,
}
use clickhouse_ruler.GoMap.{Map, get}

-- The constants of lint.Severity, in their numeric order.
pub data Severity : Type 0 where
  off warning error : Severity

abbrev pub severity_rank : Severity → ℕ
severity_rank off = 0
severity_rank warning = 1
severity_rank error = 2

abbrev pub is_off : Severity → Bool
is_off off = true
is_off _ = false

-- a > b on severities.
abbrev pub severity_gt : Severity → Severity → Bool
severity_gt a b = ltb (severity_rank b) (severity_rank a)

pub record Problem : Type 0 where
  pub file : String
  pub line : ℕ
  pub subject : String
  pub check : String
  pub severity : Severity
  pub text : String
  pub policy_file : String
  pub policy_line : ℕ

pub record Lines : Type 0 where
  pub start : ℕ
  pub keys : Map String ℕ

-- Lines.Of: the line of the first key present.
unfoldable pub line_of : Lines → List String → ℕ
line_of l [] = l.start
line_of l (k ∷ ks) = let rest = line_of l ks in elim (get k l.keys) [ some n ↦ n | none ↦ rest ]
