-- ===== src/Query/KeySample/Reported.antt =====
-- internal/query/sample.go: when a sample says nothing of a rule.
use clickhouse_ruler.Base.{
  is_nil, is_nil-append, ℕ, ◌≡◌, refl, ◌∙◌, Bool, true, ◌&&◌, not, String, List, [], ◌∷◌,
  if◌then◌else◌, arith, nat_beq, Time,
}
use clickhouse_ruler.Query.KeySample.{
  MapKey, MapKeySkip, SampleChecks, SampleResult, is_present, later, skip_findings,
  missing_findings, empty_window, sample_findings,
}

-- Whether each key has a count above zero.
abbrev pub all_present : List MapKey → List ℕ → Bool
all_present [] counts = true
all_present (k ∷ keys) counts = is_present counts && all_present keys (later counts)

is_nil-skip_findings : (skipped : List MapKeySkip) → is_nil (skip_findings skipped) ≡ is_nil skipped
unfolding skip_findings
is_nil-skip_findings [] = refl
is_nil-skip_findings (s ∷ skipped) = refl

module _ (quote : String → String) (stamp : Time → String) (from to : Time) where
  is_nil-missing_findings :
      (res : SampleResult) (keys : List MapKey) (counts : List ℕ)
      → is_nil (missing_findings quote stamp res from to keys counts) ≡ all_present keys counts
  unfolding missing_findings
  is_nil-missing_findings res [] counts = refl
  is_nil-missing_findings res (k ∷ keys) counts =
      ground (arith, is_nil-missing_findings res keys (later counts))

  is_nil-empty_window :
      (keys : List MapKey) (require_rows : Bool)
      → is_nil (empty_window quote stamp from to keys require_rows)
        ≡ not (require_rows && not (is_nil keys))
  unfolding empty_window
  is_nil-empty_window [] require_rows = ground arith
  is_nil-empty_window (k ∷ keys) require_rows = ground arith

  -- A sample says nothing of a rule exactly where no key was skipped, and the window has rows and each key is in one of
  -- them, or it is empty and the policy does not want rows or there is no key to ask for.
  pub sample_findings-is_nil :
      (res : SampleResult) (keys : List MapKey) (skipped : List MapKeySkip) (c : SampleChecks)
      → is_nil (sample_findings quote stamp res keys skipped from to c) ≡ (
          is_nil skipped
          && (if nat_beq res.rows 0
              then not (c.require_rows && not (is_nil keys))
              else all_present keys res.present))
  unfolding sample_findings
  sample_findings-is_nil res keys skipped c =
      is_nil-append (skip_findings skipped) _
      ∙ ground (
        arith,
        is_nil-skip_findings skipped,
        is_nil-empty_window keys c.require_rows,
        is_nil-missing_findings res keys res.present,
      )
