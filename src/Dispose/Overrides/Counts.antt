-- ===== src/Dispose/Overrides/Counts.antt =====
-- The counters of the override report in crates/pangs-dispose/src/lib.rs.
use mathlib.Core.Bool.{or-false}
use tenjin_pangs.Base.{ℕ, ◌+◌, ◌≡◌, sym, Bool, true, false, ◌||◌, List, [], ◌∷◌, arith, any, length}
use tenjin_pangs.Manifest.Records.{
  OverrideOutcome, honored, honored_accepted_risk, OverrideReportEntry, OverrideCounts,
}
use tenjin_pangs.Dispose.Overrides.{count_one, no_counts, count_from, count_outcomes, has_problems}

-- The outcomes that are no success.
abbrev pub is_problem : OverrideOutcome → Bool
is_problem honored = false
is_problem honored_accepted_risk = false
is_problem _ = true

module _ {V : Type 0} where
  abbrev pub total : OverrideCounts V → ℕ
  total c =
      c.honored + c.honored_accepted_risk + c.rejected + c.rejected_strategy_disabled
      + c.rejected_strategy_unavailable + c.rejected_no_recipe + c.unmatched_key

  total-count_one :
      (c : OverrideCounts V) (o : OverrideOutcome) → total (count_one c o) ≡ total c + 1
  total-count_one c honored = omega arith
  total-count_one c _ = omega arith

  total-count_from :
      (c : OverrideCounts V) (es : List (OverrideReportEntry V))
      → total (count_from c es) ≡ total c + length es
  unfolding count_from
  total-count_from c [] = omega arith
  total-count_from c (e ∷ es) =
      omega (arith, total-count_from (count_one c e.outcome) es, total-count_one c e.outcome)

  has_problems-count_one :
      (c : OverrideCounts V) (o : OverrideOutcome)
      → has_problems (count_one c o) ≡ (has_problems c || is_problem o)
  unfolding has_problems
  has_problems-count_one c honored = ground arith
  has_problems-count_one c _ = ground arith

  has_problems-count_from :
      (c : OverrideCounts V) (es : List (OverrideReportEntry V))
      → has_problems (count_from c es) ≡ (has_problems c || any (λ e. is_problem e.outcome) es)
  unfolding count_from
  has_problems-count_from c [] = sym (or-false (has_problems c))
  has_problems-count_from c (e ∷ es) = ground (
    arith,
    has_problems-count_from (count_one c e.outcome) es,
    has_problems-count_one c e.outcome,
  )

  -- The seven counters add up to the number of entries, and the policy signals a problem exactly
  -- when some entry was rejected or matched nothing.
  pub count_outcomes_complete :
      (es : List (OverrideReportEntry V))
      → (total (count_outcomes es) ≡ length es)
        × (has_problems (count_outcomes es) ≡ any (λ e. is_problem e.outcome) es)
  unfolding count_outcomes has_problems
  count_outcomes_complete es =
      (omega (arith, total-count_from no_counts es), has_problems-count_from no_counts es)
