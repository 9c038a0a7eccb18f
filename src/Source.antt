-- ===== src/Source.antt =====
-- internal/source: a queryable cluster, as much of it as the ruler's own decisions read.
pub mod Match
mod Tests
pub mod Exempt
use clickhouse_ruler.Base.{
  ℕ, Bool, true, false, ◌&&◌, ◌||◌, String, List, [], ◌∷◌, Option, none, some, if◌then◌else◌,
  Duration, Time, ℤ, before, keep_if, string_eq, ◌==◌,
}
use clickhouse_ruler.GoMap.{Map, get}
use clickhouse_ruler.Text.{concat, sort_by, str_less}
use clickhouse_ruler.Lint.{Problem, error}
use clickhouse_ruler.Policy.{Policy}

pub record Exemption : Type 0 where
  pub check : String
  pub reason : String
  pub until : Time
  pub line : ℕ

pub record Source : Type 0 where
  pub name : String
  pub table : String
  pub timestamp_column : String
  pub evaluation_delay : Duration
  pub max_rows : ℤ
  pub max_concurrent_queries : ℤ
  pub labels : Map String String
  pub policy : Option Policy
  pub exemptions : List Exemption

-- s.Labels[k]: a missing label reads as "".
abbrev pub label_of : String → Source → String
label_of k s = elim (get k s.labels) [ none ↦ "" | some v ↦ v ]

unfoldable pub selects : Map String String → Source → Bool
selects [] s = true
selects ((k, want) ∷ selector) s = (label_of k s == want) && selects selector s

abbrev pub name_less : Source → Source → Bool
name_less a b = str_less a.name b.name

-- File.Match, over the sources of a file that is not nil.
unfoldable pub match : Map String String → List Source → List Source
unfolding selects sort_by
match [] sources = []
match (term ∷ selector) sources =
    sort_by name_less (keep_if (λ s. selects (term ∷ selector) s) sources)

unfoldable pub exempts : List Exemption → String → Time → Bool
exempts [] check now = false
exempts (e ∷ list) check now = ((e.check == check) && before now e.until) || exempts list check now

-- The findings of `expired`, over time's Format.
unfoldable pub expired : (Time → String) → String → String → Time → List Exemption → List Problem
expired format file subject now [] = []
expired format file subject now (e ∷ list) =
    let rest = expired format file subject now list in
    let p : Problem = record {
      file = file;
      line = e.line;
      subject = subject;
      check = "source/exemption";
      severity = error;
      text =
          concat (
            "the exemption for "
            ∷ e.check
            ∷ " expired on "
            ∷ format e.until
            ∷ ": "
            ∷ e.reason
            ∷ []);
      policy_file = "";
      policy_line = 0;
    } in
    if before now e.until then rest else p ∷ rest
