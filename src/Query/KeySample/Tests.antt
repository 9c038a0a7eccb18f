-- ===== src/Query/KeySample/Tests.antt =====
-- The keys of a query that joins a second table, and a sample in which one key is in no row.
use clickhouse_ruler.Base.{◌≡◌, ◌↔◌, refl, false, true, List, [], ◌∷◌}
use clickhouse_ruler.Query.{Column}
use clickhouse_ruler.Query.KeySample.{
  MapKey, MapKeySkip, resolve_keys, skip_other_table, skip_numeric_key, plural,
}
use clickhouse_ruler.Query.KeySample.OneKey.{In, AskedFor, SkippedFor}
use clickhouse_ruler.Query.KeySample.Resolved.{Some, resolve_keys-Resolved}

abbrev spans : List Column
spans =
    record { name = "SpanAttributes"; typ = "Map(LowCardinality(String), String)" }
    ∷ record { name = "Counts"; typ = " Map(UInt64, UInt64)" }
    ∷ record { name = "Events.Names"; typ = "Array(String)" }
    ∷ []

abbrev route : MapKey
route = record { column = "t.SpanAttributes"; key = "http.route"; numeric = false }

abbrev keys : List MapKey
keys =
    route
    ∷ record { column = "Events.Names"; key = "1"; numeric = true }
    ∷ record { column = "Counts"; key = "7"; numeric = true }
    ∷ record { column = "l.LogAttributes"; key = "level"; numeric = false }
    ∷ []

resolve_keys_run : resolve_keys keys spans ≡ (
  record route { column = "SpanAttributes" } ∷ [],
  record { column = "Counts"; reason = skip_numeric_key }
      ∷ record { column = "l.LogAttributes"; reason = skip_other_table }
      ∷ [],
)
unfolding resolve_keys
resolve_keys_run = refl

resolve_keys_example :
    ((j : MapKey) → In j (resolve_keys keys spans).0 ↔ Some (λ k. AskedFor spans k j) keys)
    × ((s : MapKeySkip) → In s (resolve_keys keys spans).1 ↔ Some (λ k. SkippedFor spans k s) keys)
resolve_keys_example = resolve_keys-Resolved keys spans

-- The plural of a key, as a finding about an empty window words it.
plural_of_key : plural 2 "key" ≡ "2 keies"
unfolding plural
plural_of_key = refl
