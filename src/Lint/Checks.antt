-- ===== src/Lint/Checks.antt =====
-- internal/lint/checks.go: questions to the table of checks. `byName` has one entry for each name, so
-- the first entry of the table is the one.
use clickhouse_ruler.Base.{
  Bool, true, false, not, String, List, [], ◌∷◌, Option, none, some, if◌then◌else◌, string_eq, ◌==◌,
}
use clickhouse_ruler.Text.{sort_strings}
use clickhouse_ruler.Lint.Table.{Check, no_list, required, allowlist, ceiling, checks}

-- Check.Configurable
abbrev pub is_configurable : Check → Bool
is_configurable c = not c.fixed

unfoldable pub find_check : String → List Check → Option Check
find_check name [] = none
find_check name (c ∷ cs) = let rest = find_check name cs in if name == c.name then some c else rest

-- Lookup
unfoldable pub lookup : String → Option Check
unfolding find_check checks
lookup name = find_check name checks

abbrev has : (Check → Bool) → Option Check → Bool
has p none = false
has p (some c) = p c

abbrev is_allowlist : Check → Bool
is_allowlist c = elim c.list [
  | no_list ↦ false
  | required ↦ false
  | allowlist ↦ true
  | ceiling ↦ false
]

abbrev is_ceiling : Check → Bool
is_ceiling c = elim c.list [
  | no_list ↦ false
  | required ↦ false
  | allowlist ↦ false
  | ceiling ↦ true
]

-- Fixed, Configurable, Allowlist, Ceiling, Limits, Flags: an unknown name is none of them.
unfoldable pub fixed : String → Bool
unfolding lookup
fixed name = has (λ c. c.fixed) (lookup name)

unfoldable pub configurable : String → Bool
unfolding lookup
configurable name = has is_configurable (lookup name)

unfoldable pub is_allowlist_check : String → Bool
unfolding lookup
is_allowlist_check name = has is_allowlist (lookup name)

unfoldable pub is_ceiling_check : String → Bool
unfolding lookup
is_ceiling_check name = has is_ceiling (lookup name)

unfoldable pub limits : String → List String
unfolding lookup
limits name = elim (lookup name) [ none ↦ [] | some c ↦ c.limits ]

unfoldable pub flags : String → List String
unfolding lookup
flags name = elim (lookup name) [ none ↦ [] | some c ↦ c.flags ]

names_where : (Check → Bool) → List Check → List String
names_where p [] = []
names_where p (c ∷ cs) = let rest = names_where p cs in if p c then c.name ∷ rest else rest

-- Configurables
unfoldable pub configurables : List String
unfolding names_where checks sort_strings
configurables = sort_strings (names_where is_configurable checks)
