-- ===== src/Lint/Table.antt =====
-- internal/lint/checks.go: the table of checks, in the source's order.
use clickhouse_ruler.Base.{Bool, true, false, String, List, [], ◌∷◌, ◌++◌}
use clickhouse_ruler.Text.{sort_strings}
use clickhouse_ruler.Lint.{Severity, off, warning, error}

pub data ListKind : Type 0 where
  no_list required allowlist ceiling : ListKind

pub record Check : Type 0 where
  pub name : String
  pub summary : String
  pub spec : String
  pub fixed : Bool
  pub refuses_reading : Bool
  pub always : Severity
  pub default : Severity
  pub keys : List String
  pub list : ListKind
  pub limits : List String
  pub flags : List String

-- The three forms of the table's entries; a field that an entry leaves out has Go's zero value.
abbrev fixed_check : String → String → Bool → Severity → String → Check
fixed_check name spec refuses always summary = record {
  name = name;
  summary = summary;
  spec = spec;
  fixed = true;
  refuses_reading = refuses;
  always = always;
  default = off;
  keys = [];
  list = no_list;
  limits = [];
  flags = [];
}

abbrev listed_check :
    String → String → Severity → List String → ListKind → List String → List String → String → Check
listed_check name spec default keys list limits flags summary = record {
  name = name;
  summary = summary;
  spec = spec;
  fixed = false;
  refuses_reading = false;
  always = off;
  default = default;
  keys = keys;
  list = list;
  limits = limits;
  flags = flags;
}

abbrev plain_check : String → String → Severity → String → Check
plain_check name spec default summary = listed_check name spec default [] no_list [] [] summary

abbrev pub nondeterministic_functions : List String
nondeterministic_functions =
    "generateuuidv4" ∷ "now" ∷ "now64" ∷ "rand" ∷ "rand32" ∷ "rand64" ∷ "randcanonical" ∷ "today"
    ∷ "uptime" ∷ "yesterday" ∷ []

abbrev pub assertion_order : List String
assertion_order =
    "sources-revoked" ∷ "readonly" ∷ "constraints" ∷ "table-readable" ∷ "clusters-readable" ∷ []

unfoldable pub assertions : List String
unfolding sort_strings
assertions = sort_strings assertion_order

unfoldable file_checks : List Check
file_checks =
    fixed_check "yaml/syntax" "7.3" true error
      "the file is not valid YAML, so nothing in it could be read"
    ∷ fixed_check "yaml/unknown-field" "7.3" false error
        "a field nobody recognises, which silently drops configuration"
    ∷ fixed_check "yaml/type" "7.3" false error
        "a field holding the wrong shape, such as a list where a mapping belongs"
    ∷ fixed_check "rule/name" "7.6" false error
        "an alert with no name, or a duplicate within its group, which has no identity"
    ∷ fixed_check "rule/group-name" "7.6" false error
        "a group with no name, or a name repeated within one file"
    ∷ fixed_check "rule/expr" "7.6" false error
        "an empty query, or one missing the time bounds the ruler binds"
    ∷ plain_check "rule/for" "7.6" warning
        "a `for` shorter than the group interval, so the alert fires on its first evaluation"
    ∷ plain_check "rule/window" "7.6" warning
        "a `window` shorter than the group interval, leaving data no evaluation reads"
    ∷ listed_check "labels/required" "7.6" warning ("severity" ∷ "team" ∷ []) required [] []
        "a label this repository requires on every alert is missing"
    ∷ listed_check "annotations/required" "7.6" warning ("runbook_url" ∷ "summary" ∷ []) required []
        [] "an annotation this repository requires on every alert is missing"
    ∷ plain_check "annotations/runbook" "7.6" warning
        "a runbook_url that is not an absolute http or https URL"
    ∷ plain_check "annotations/template" "7.6" warning
        "an annotation that will not parse, reads a field nothing produces, or fails to render"
    ∷ fixed_check "annotations/protected" "6.5" false error
        "a rule setting an annotation the ruler owns, which the ruler overwrites on a failed template"
    ∷ plain_check "rule/source-match" "6.10" warning
        "a rule whose selector matches no source, so this ruler will never evaluate it"
    ∷ fixed_check "rule/protected-label" "6.3.1" false error
        "a rule setting a label the ruler owns, which breaks routing"
    ∷ []

unfoldable query_checks : List Check
query_checks =
    plain_check "rule/duplicate-alert" "7.6" warning
      "two rules whose alerts carry the same labels, so neither can be told from the other"
    ∷ fixed_check "ruleset/directory" "7.1" true error "the rules directory could not be read"
    ∷ fixed_check "rule/syntax" "7.3" false error
        "SQL ClickHouse cannot parse, or a second statement nobody reviewed"
    ∷ fixed_check "rule/inspect" "7.3" false warning
        "the ruler could not reach the cluster to read the rule's SQL"
    ∷ plain_check "rule/execution" "6.3.2" error
        "a rule whose query failed against a cluster while the ruler was running"
    ∷ plain_check "rule/select-star" "7.3" warning
        "a query selecting *, so a schema change rewrites every alert's identity"
    ∷ listed_check "rule/table-function" "7.3" error [] allowlist [] []
        "a query reading through a table function the allowlist does not permit"
    ∷ listed_check "rule/nondeterministic" "7.3" warning nondeterministic_functions required [] []
        "a query calling a function that breaks window alignment, such as now()"
    ∷ fixed_check "rule/settings" "7.3" false error
        "a query setting its own SETTINGS, overriding the limits the ruler sends"
    ∷ plain_check "rule/foreign-table" "7.3" warning
        "a query reading a table outside its source's own database"
    ∷ listed_check "rule/complexity" "7.3" warning ("max-joins:2" ∷ "max-subqueries:2" ∷ []) ceiling
        ("max-joins" ∷ "max-subqueries" ∷ []) []
        "a query with more joins or subqueries than the configured ceiling"
    ∷ []

unfoldable cost_checks : List Check
cost_checks =
    fixed_check "rule/columns" "7.3" false error
      "a query naming a column or table that does not exist, or returning no value column"
    ∷ listed_check "rule/cost" "7.3" warning
        ("max-rows-per-second:1000000" ∷ "max-rows-read:100000000" ∷ []) ceiling
        ("max-rows-read" ∷ "max-rows-per-second" ∷ []) []
        "a query predicted to read more than the ceiling allows, per evaluation or per second"
    ∷ listed_check "rule/attribute-key" "7.3" warning ("max-sample-rows:10000000" ∷ []) ceiling
        ("max-sample-rows" ∷ []) ("require-rows" ∷ [])
        "a map key the query reads that no recent row actually has"
    ∷ listed_check "rule/alert-count" "7.4" warning
        ("max-alerts:100" ∷ "max-rows-read:1000000000" ∷ []) ceiling
        ("max-alerts" ∷ "max-rows-read" ∷ []) []
        "a rule that would have fired more often over a past range than the ceiling allows"
    ∷ plain_check "rule/source-schema" "6.10" warning
        "matched sources that return different columns for one rule, so it means something "
    ∷ plain_check "rule/table-access" "7.3" warning
        "a source's user cannot read what the rule asks for, so nothing could be checked"
    ∷ fixed_check "source/name" "6.6" false error "a source with no name, or a name used twice"
    ∷ fixed_check "source/address" "6.6" false error "a source with no address to connect to"
    ∷ fixed_check "source/database" "6.6" false error "a source naming no database"
    ∷ fixed_check "source/username" "6.6" false error
        "a source naming no ClickHouse user, which is the tenancy boundary"
    ∷ fixed_check "source/password" "6.6" false error
        "a secret that could not be read, or both secret sources set at once"
    ∷ fixed_check "source/tls" "6.2" false error
        "TLS key material that could not be read, or a tls_config that contradicts itself"
    ∷ []

unfoldable source_checks : List Check
source_checks =
    fixed_check "alertmanager/url" "6.5" false error
      "an Alertmanager URL that will not parse, carries a credential, or is named twice"
    ∷ fixed_check "alertmanager/auth" "6.5" false error
        "a credential that could not be read, or both credential sources set at once"
    ∷ fixed_check "alertmanager/tls" "6.5" false error
        "TLS key material that could not be read, or a tls_config that reaches no https URL"
    ∷ plain_check "alertmanager/tls-insecure" "6.5" error
        "an Alertmanager reached with certificate verification off and no exemption"
    ∷ plain_check "source/tls-insecure" "6.2" error
        "a source that skips certificate verification without an exemption"
    ∷ fixed_check "source/table" "6.6" false error
        "a source naming no table, or naming one that is not a bare identifier"
    ∷ fixed_check "source/timestamp-column" "6.8" false error
        "a source naming no timestamp column, or naming one that is not a bare identifier"
    ∷ fixed_check "source/evaluation-delay" "6.8" false error "a negative evaluation delay"
    ∷ fixed_check "source/max-rows" "6.7" false error "a row cap that is not a positive number"
    ∷ fixed_check "source/max-execution-time" "6.7" false error
        "an execution time cap that is not positive"
    ∷ fixed_check "source/max-memory-usage" "6.7" false error "a memory cap that is not positive"
    ∷ fixed_check "source/max-concurrent-queries" "6.11" false error
        "a concurrent query cap that is negative"
    ∷ fixed_check "source/exemption" "7.7" false error
        "an exemption that is malformed, names a check nobody can exempt, or has expired"
    ∷ listed_check "source/privileges" "6.7.2" warning assertions required [] []
        "a source's ClickHouse user does not meet the contract the other checks rely on"
    ∷ fixed_check "policy/unknown-check" "7.6" false error
        "a policy file configuring a check that does not exist"
    ∷ fixed_check "policy/fixed-check" "7.6" false error
        "a policy file configuring a correctness check, which cannot be softened"
    ∷ fixed_check "policy/severity" "7.6" false error "a severity that is not off, warn or error"
    ∷ fixed_check "policy/check-limit" "7.7" false error
        "a ceiling that is not written as name:number, so it would never apply"
    ∷ []

unfoldable pub checks : List Check
unfolding file_checks query_checks cost_checks source_checks
checks = file_checks ++ query_checks ++ cost_checks ++ source_checks
