-- ===== src/Query/KeySample.antt =====
-- internal/query/sample.go: which map keys of a rule are looked for in recent data, and what is reported of them. The
-- statement's answer is a parameter, and so are the layout of a timestamp and that of a quoted key.
mod Tests
pub mod Bare
pub mod Columns
pub mod OneKey
pub mod Resolved
pub mod Reported
use Prim.Native.Char.{code}
use clickhouse_ruler.Base.{
  ℕ, zero, suc, Bool, false, ◌&&◌, ◌||◌, not, String, List, [], ◌∷◌, ◌++◌, Option, none, some,
  if◌then◌else◌, string_eq, ltb, leb, nat_beq, length, Time, Duration, pos, negsuc, ltb_ℤ, time_add,
}
use clickhouse_ruler.GoMap.{Map, get, put}
use clickhouse_ruler.Text.{concat, decimal, codes, has_prefix}
use clickhouse_ruler.Lint.{is_off}
use clickhouse_ruler.Policy.{Policy, setting_for, contains}
use clickhouse_ruler.Policy.Limits.{limit}
use clickhouse_ruler.Query.{Column, Finding}

abbrev pub check_attribute_key : String
check_attribute_key = "rule/attribute-key"

pub record SampleChecks : Type 0 where
  pub max_rows : ℕ
  pub require_rows : Bool

abbrev or_zero : Option ℕ → ℕ
or_zero none = 0
or_zero (some n) = n

-- SamplingFromPolicy, none where nothing is sampled.
unfoldable pub sampling_from_policy : Option Policy → Option SampleChecks
unfolding setting_for limit contains
sampling_from_policy p =
    let setting = setting_for p check_attribute_key in
    if is_off setting.severity
    then none
    else some record {
      max_rows = or_zero (limit "max-sample-rows" setting.keys);
      require_rows = contains "require-rows" setting.keys;
    }

pub record MapKey : Type 0 where
  pub column : String
  pub key : String
  pub numeric : Bool

pub record MapKeySkip : Type 0 where
  pub column : String
  pub reason : String

abbrev pub skip_not_a_map : String
skip_not_a_map = "not a Map column, so it holds no keys"

abbrev pub skip_other_table : String
skip_other_table =
    "not a column of this source's table, so it belongs to another table in the query"

abbrev pub skip_numeric_key : String
skip_numeric_key = "a numeric key, which this check does not probe for"

-- What stands after the last dot.
unfoldable pub after_dot : String → Option String
after_dot String.[] = none
after_dot (String.◌∷◌ c s) = elim (after_dot s) [
  | some t ↦ some t
  | none ↦ if nat_beq (code c) 46 then some s else none
]

-- bareColumn
unfoldable pub bare_column : String → String
unfolding after_dot
bare_column identifier = elim (after_dot identifier) [ some t ↦ t | none ↦ identifier ]

-- unicode.IsSpace
unfoldable pub is_space : ℕ → Bool
is_space c =
    (leb 9 c && leb c 13)
    || nat_beq c 32
    || nat_beq c 133
    || nat_beq c 160
    || nat_beq c 5760
    || (leb 8192 c && leb c 8202)
    || nat_beq c 8232
    || nat_beq c 8233
    || nat_beq c 8239
    || nat_beq c 8287
    || nat_beq c 12288

unfoldable pub trim_left : List ℕ → List ℕ
unfolding is_space
trim_left [] = []
trim_left (c ∷ cs) = let rest = trim_left cs in if is_space c then rest else c ∷ cs

-- isMapType: the space at the end does not matter to a prefix that has none.
unfoldable pub is_map_type : String → Bool
unfolding trim_left has_prefix codes
is_map_type typ = has_prefix (trim_left (codes typ)) (codes "Map(")

unfoldable pub types_of : List Column → Map String String → Map String String
unfolding put
types_of [] types = types
types_of (c ∷ columns) types = types_of columns (put c.name c.typ types)

-- columnOf: the name and the type of the column, none of the latter where it is not found.
unfoldable pub column_of : String → Map String String → String × Option String
unfolding get bare_column
column_of identifier types =
    let bare = bare_column identifier in
    elim (get identifier types) [
      | some typ ↦ (identifier, some typ)
      | none ↦ elim (get bare types) [ some typ ↦ (bare, some typ) | none ↦ (identifier, none) ]
    ]

-- What the switch of resolveKeys makes of a key, before what the others add.
unfoldable pub resolve_one :
    MapKey → String × Option String → List MapKey × List MapKeySkip → List MapKey × List MapKeySkip
unfolding is_map_type
resolve_one k (name, typ) (out, skipped) =
    let is_map : Bool = elim typ [ none ↦ false | some t ↦ is_map_type t ] in
    if k.numeric && not is_map
    then (out, skipped)
    else if k.numeric
    then (out, record { column = name; reason = skip_numeric_key } ∷ skipped)
    else elim typ [
      | none ↦ (out, record { column = name; reason = skip_other_table } ∷ skipped)
      | some t ↦
          if not is_map
          then (out, record { column = name; reason = skip_not_a_map } ∷ skipped)
          else (record k { column = name } ∷ out, skipped)
    ]

unfoldable pub resolve_all : Map String String → List MapKey → List MapKey × List MapKeySkip
unfolding column_of resolve_one
resolve_all types [] = ([], [])
resolve_all types (k ∷ keys) = resolve_one k (column_of k.column types) (resolve_all types keys)

-- resolveKeys
unfoldable pub resolve_keys : List MapKey → List Column → List MapKey × List MapKeySkip
unfolding types_of resolve_all
resolve_keys keys table = resolve_all (types_of table []) keys

abbrev pub hour : ℕ
hour = 3600000000000

abbrev negative : Duration → Duration
negative (pos zero) = pos zero
negative (pos (suc n)) = negsuc n
negative (negsuc n) = pos (suc n)

-- sampleWindow, on the source's delay and the rule's window.
unfoldable pub sample_window : Duration → Duration → Time → Time × Time
sample_window delay window now =
    let span = if ltb_ℤ window (pos hour) then pos hour else window in
    let to = time_add now (negative delay) in (time_add to (negative span), to)

-- sampleResult: the zero time is none.
pub record SampleResult : Type 0 where
  pub rows : ℕ
  pub present : List ℕ
  pub earliest : Option Time

-- The letters before a "y" at the end.
unfoldable before_y : String → Option String
before_y String.[] = none
before_y (String.◌∷◌ c String.[]) = if nat_beq (code c) 121 then some String.[] else none
before_y (String.◌∷◌ c (String.◌∷◌ d s)) = elim (before_y (String.◌∷◌ d s)) [
  | none ↦ none
  | some t ↦ some (String.◌∷◌ c t)
]

-- plural of inspect.go
unfoldable pub plural : ℕ → String → String
unfolding before_y concat decimal
plural n thing = if nat_beq n 1 then concat ("1 " ∷ thing ∷ []) else elim (before_y thing) [
  | some stem ↦ concat (decimal n ∷ " " ∷ stem ∷ "ies" ∷ [])
  | none ↦ concat (decimal n ∷ " " ∷ thing ∷ "s" ∷ [])
]

unfoldable pub skip_findings : List MapKeySkip → List Finding
unfolding concat
skip_findings [] = []
skip_findings (s ∷ skipped) =
    record {
      check = check_attribute_key;
      detail = concat ("a key read from " ∷ s.column ∷ " was not checked: " ∷ s.reason ∷ []);
    }
    ∷ skip_findings skipped

-- Whether the count of a key says that it was found, and the counts of the others.
abbrev pub is_present : List ℕ → Bool
is_present [] = false
is_present (n ∷ counts) = ltb 0 n

abbrev pub later : List ℕ → List ℕ
later [] = []
later (n ∷ counts) = counts

module _ (quote : String → String) (stamp : Time → String) where
  unfoldable pub shortfall : Option Time → Time → String
  unfolding concat
  shortfall none from = ""
  shortfall (some earliest) from =
      if ltb from earliest
      then concat (
          " (the oldest row sampled is from "
          ∷ stamp earliest
          ∷ ", so the data covers less than the window)"
          ∷ [])
      else ""

  -- The loop over the keys, each with the counts from its own on.
  unfoldable pub missing_findings : SampleResult → Time → Time → List MapKey → List ℕ → List Finding
  unfolding shortfall concat decimal
  missing_findings res from to [] counts = []
  missing_findings res from to (k ∷ keys) counts =
      let rest = missing_findings res from to keys (later counts) in
      if is_present counts
      then rest
      else record {
        check = check_attribute_key;
        detail = concat (
            k.column
            ∷ "["
            ∷ quote k.key
            ∷ "] is in none of the "
            ∷ decimal res.rows
            ∷ " rows sampled between "
            ∷ stamp from
            ∷ " and "
            ∷ stamp to
            ∷ ", so the rule reads a key nothing writes"
            ∷ shortfall res.earliest from
            ∷ []);
      }
        ∷ rest

  unfoldable pub empty_window : Time → Time → List MapKey → Bool → List Finding
  unfolding plural concat
  empty_window from to keys require_rows =
      if require_rows && ltb 0 (length keys)
      then record {
        check = check_attribute_key;
        detail = concat (
            "no rows between "
            ∷ stamp from
            ∷ " and "
            ∷ stamp to
            ∷ ", so none of the "
            ∷ plural (length keys) "key"
            ∷ " this rule reads could be verified"
            ∷ []);
      }
        ∷ []
      else []

  -- sampleFindings
  unfoldable pub sample_findings :
      SampleResult → List MapKey → List MapKeySkip → Time → Time → SampleChecks → List Finding
  unfolding skip_findings missing_findings empty_window
  sample_findings res keys skipped from to c =
      skip_findings skipped
      ++ (if nat_beq res.rows 0
          then empty_window from to keys c.require_rows
          else missing_findings res from to keys res.present)
