-- ===== src/Source/Exempt.antt =====
-- internal/source/exempt.go: how long a list of exemptions covers a check.
use clickhouse_ruler.Base.{
  max, ◌≡◌, String, List, [], ◌∷◌, if◌then◌else◌, Time, before, arith, string_eq, ◌==◌,
}
use clickhouse_ruler.Source.{Exemption, exempts}

-- The latest instant until which an exemption for the check holds.
abbrev pub latest_until : List Exemption → String → Time
latest_until [] check = 0
latest_until (e ∷ list) check =
    max (if e.check == check then e.until else 0) (latest_until list check)

-- A list exempts a check exactly before the latest `until` of its exemptions for that check; one without such an
-- exemption never does.
pub exempts_lem :
    (list : List Exemption) (check : String) (now : Time)
    → exempts list check now ≡ before now (latest_until list check)
unfolding exempts
exempts_lem [] check now = ground arith
exempts_lem (e ∷ list) check now = ground (arith, exempts_lem list check now)
