-- ===== src/Scheduler/Gauge/Memory.antt =====
-- A gauge as the list of its series.
use clickhouse_ruler.Base.{
  ◌≡◌, refl, ap, Bool, true, false, ◌&&◌, ◌||◌, not, List, [], ◌∷◌, if◌then◌else◌, string_eq,
  eq_iff, arith, Bool-cases, inl, inr,
}
use clickhouse_ruler.Scheduler.Gauge.{Series, Labels, matches, same_series, GaugeVec, IsLawful}

abbrev holds_in : Series → List Series → Bool
holds_in s [] = false
holds_in s (t ∷ g) = same_series s t || holds_in s g

abbrev delete_in : Labels → List Series → List Series
delete_in l [] = []
delete_in l (t ∷ g) = let rest = delete_in l g in if matches l t then rest else t ∷ rest

abbrev pub memory_gauge : GaugeVec
memory_gauge = record {
  Gauge = List Series;
  raise = λ s g. s ∷ g;
  delete = delete_in;
  holds = holds_in;
}

same_series-eq : (s t : Series) → same_series s t ≡ true → s ≡ t
unfolding same_series
same_series-eq s t h = ground (
  arith,
  eq_iff s.rule t.rule,
  eq_iff s.check t.check,
  eq_iff s.severity t.severity,
  eq_iff s.team t.team,
  eq_iff s.file t.file,
  eq_iff s.source t.source,
)

holds_in-delete_in :
    (s : Series) (l : Labels) (g : List Series)
    → holds_in s (delete_in l g) ≡ (not (matches l s) && holds_in s g)
holds_in-delete_in s l [] = ground arith
holds_in-delete_in s l (t ∷ g) = elim (Bool-cases (same_series s t)) [
  | inl same ↦ ground (arith, ap (matches l) (same_series-eq s t same), holds_in-delete_in s l g)
  | inr other ↦ ground (arith, holds_in-delete_in s l g)
]

pub memory_gauge-IsLawful : IsLawful memory_gauge
memory_gauge-IsLawful = record { holds-raise = λ s t g. refl; holds-delete = holds_in-delete_in }
