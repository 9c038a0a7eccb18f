-- ===== src/Query/Privileges/Answers.antt =====
-- internal/query/privileges.go: what the driver's answer to one statement says of a privilege, and the quoting of
-- names. A server's error codes are not negative.
use Prim.Native.Char.{Char, code}
use clickhouse_ruler.Base.{
  ℕ, Bool, false, not, String, [], ◌∷◌, Option, none, some, if◌then◌else◌, string_eq, nat_beq,
}
use clickhouse_ruler.Text.{concat, decimal}

abbrev pub code_access_denied : ℕ
code_access_denied = 497

abbrev pub sources_revoked : String
sources_revoked = "sources-revoked"

abbrev pub readonly : String
readonly = "readonly"

abbrev pub constraints : String
constraints = "constraints"

abbrev pub table_readable : String
table_readable = "table-readable"

abbrev pub clusters_readable : String
clusters_readable = "clusters-readable"

-- The constants of Status.
pub data Status : Type 0 where
  passes fails inconclusive : Status

pub record Assertion : Type 0 where
  pub name : String
  pub status : Status
  pub detail : String

-- clickhouse.Exception: an error that the server answered with.
pub record Exception : Type 0 where
  pub code : ℕ
  pub message : String

-- An error of the driver, by what errors.Is and errors.As say of it.
pub record DriverError : Type 0 where
  pub is_deadline : Bool
  pub exception : Option Exception
  pub text : String

unfoldable pub classify_denial : Option DriverError → Status × String
unfolding concat decimal
classify_denial none = (fails, "the query ran")
classify_denial (some e) = elim e.exception [
  | some ex ↦ if nat_beq ex.code code_access_denied then (passes, "") else (
    fails,
    concat ("the privilege is granted, the query then failed with code " ∷ decimal ex.code ∷ []),
  )
  | none ↦ (inconclusive, concat ("clickhouse did not answer: " ∷ e.text ∷ []))
]

abbrev pub timed_out : Option DriverError → Bool
timed_out none = false
timed_out (some e) = e.is_deadline

unfoldable pub classify_probe : Option DriverError → Bool → Status × String
unfolding classify_denial
classify_probe answer parent_alive =
    if timed_out answer
    then if not parent_alive
      then (inconclusive, "the check ran out of time before this probe answered")
      else (fails, "the privilege is granted, the query was still running after 3s")
    else classify_denial answer

unfoldable pub classify_readable : Option DriverError → Status × String
unfolding concat decimal
classify_readable none = (passes, "")
classify_readable (some e) = elim e.exception [
  | some ex ↦
      if nat_beq ex.code code_access_denied
      then (fails, "the user cannot read the source's own table, so every evaluation will fail")
      else (
        inconclusive,
        concat (
            "reading the source's table failed with code "
            ∷ decimal ex.code
            ∷ ": "
            ∷ ex.message
            ∷ []),
      )
  | none ↦ (inconclusive, concat ("clickhouse did not answer: " ∷ e.text ∷ []))
]

unfoldable pub classify_countable : Option DriverError → Status × String
unfolding concat decimal
classify_countable none = (passes, "")
classify_countable (some e) = elim e.exception [
  | some ex ↦
      if nat_beq ex.code code_access_denied
      then (
        fails,
        "this source's table is Distributed and its user cannot count the cluster's shards, so a predicted cost covers the connected node's parts alone and no ceiling is applied to it: grant SELECT(cluster, shard_num) ON system.clusters",
      )
      else (
        inconclusive,
        concat (
            "counting the cluster's shards failed with code "
            ∷ decimal ex.code
            ∷ ": "
            ∷ ex.message
            ∷ []),
      )
  | none ↦ (inconclusive, concat ("clickhouse did not answer: " ∷ e.text ∷ []))
]

abbrev pub is_backquote : Char → Bool
is_backquote c = nat_beq (code c) 96

-- strings.ReplaceAll(s, "`", "``")
unfoldable pub doubled : String → String
doubled String.[] = String.[]
doubled (String.◌∷◌ c s) =
    let rest = doubled s in
    if is_backquote c then String.◌∷◌ c (String.◌∷◌ c rest) else String.◌∷◌ c rest

-- quoteIdent
unfoldable pub quote_ident : String → String
unfolding doubled concat
quote_ident s = concat ("`" ∷ doubled s ∷ "`" ∷ [])
