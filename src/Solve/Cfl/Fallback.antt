-- ===== src/Solve/Cfl/Fallback.antt =====
-- What crates/pangs-solve/src/cfl.rs makes of truncated queries: the summary of the visits, and the report
-- in which an envelope stands in for the call sites that a truncated query touched.
pub mod Touched
mod Tests
use tenjin_pangs.Base.{
  ℕ, suc, ◌+◌, String, Bool, true, false, Option, none, some, List, [], ◌∷◌, ◌++◌, map, string_eq,
  if◌then◌else◌, lookup, insert, insert_new, keep, length, leb, is_some,
}
use tenjin_pangs.Solve.Cfl.Graph.{concat_map}
use tenjin_pangs.Solve.Cfl.Search.{max_ℕ}
use tenjin_pangs.Solve.Cfl.Query.{CflCalleeQuery}
use tenjin_pangs.Solve.Cfl.Report.{Targets}

pub record CflVisitHistogram : Type 0 where
  pub le_10 : ℕ
  pub le_100 : ℕ
  pub le_1000 : ℕ
  pub gt_1000 : ℕ

-- `CFL_VISIT_HISTOGRAM_SMALL_MAX`, `CFL_VISIT_HISTOGRAM_MEDIUM_MAX` and
-- `CFL_VISIT_HISTOGRAM_LARGE_MAX`.
abbrev pub small_max : ℕ
small_max = 10

abbrev pub medium_max : ℕ
medium_max = 100

abbrev pub large_max : ℕ
large_max = 1000

abbrev pub count_visit : ℕ → CflVisitHistogram → CflVisitHistogram
count_visit value h =
    if leb value small_max
    then record h { le_10 = h.le_10 + 1 }
    else if leb value medium_max
    then record h { le_100 = h.le_100 + 1 }
    else if leb value large_max
    then record h { le_1000 = h.le_1000 + 1 }
    else record h { gt_1000 = h.gt_1000 + 1 }

abbrev pub count_visits : List CflCalleeQuery → CflVisitHistogram → CflVisitHistogram
count_visits [] h = h
count_visits (query ∷ more) h = count_visits more (count_visit query.metrics.visited_states h)

unfoldable pub visit_histogram : List CflCalleeQuery → CflVisitHistogram
visit_histogram queries =
    count_visits queries (record { le_10 = 0; le_100 = 0; le_1000 = 0; gt_1000 = 0 })

-- `max().unwrap_or(0)`.
unfoldable pub max_visited_states : List CflCalleeQuery → ℕ
max_visited_states [] = 0
max_visited_states (query ∷ more) = max_ℕ query.metrics.visited_states (max_visited_states more)

abbrev pub is_truncated : CflCalleeQuery → Bool
is_truncated query = query.metrics.truncated

unfoldable pub truncated_queries : List CflCalleeQuery → ℕ
truncated_queries queries = length (keep is_truncated queries)

-- Collecting into a set.
abbrev pub collect_set : List String → List String
collect_set [] = []
collect_set (key ∷ more) = insert_new key (collect_set more)

unfoldable pub truncated_functions : List CflCalleeQuery → List String
truncated_functions queries =
    collect_set (map (λ query. query.function) (keep is_truncated queries))

unfoldable pub truncated_queries_touched_callsites : List CflCalleeQuery → List String
truncated_queries_touched_callsites queries = collect_set (
    concat_map (λ query. query.recorded.callsites ++ query.recorded.dependencies)
      (keep is_truncated queries))

pub record CflCalleeFallbackReport : Type 0 where
  pub by_callsite : Targets
  pub fallback_by_callsite : Targets
  pub fallback_callsites : List String
  pub truncated_functions : List String

-- The loop that replaces the entries of the touched call sites by those of the envelope.
unfoldable pub replace_touched : Targets → List String → Targets → Targets
replace_touched envelope [] m = m
replace_touched envelope (callsite ∷ more) m = elim (lookup callsite envelope) [
  | none ↦ replace_touched envelope more m
  | some targets ↦ replace_touched envelope more (insert callsite targets m)
]

unfoldable pub fallback_for_truncated_queries :
    Targets → List CflCalleeQuery → Targets → CflCalleeFallbackReport
fallback_for_truncated_queries by_callsite queries envelope =
    let touched = truncated_queries_touched_callsites queries in
    record {
      by_callsite = replace_touched envelope touched by_callsite;
      fallback_by_callsite = replace_touched envelope touched [];
      fallback_callsites = touched;
      truncated_functions = truncated_functions queries;
    }

abbrev pub fallback_callsite_count : CflCalleeFallbackReport → ℕ
fallback_callsite_count report = length report.fallback_callsites

abbrev pub sum_lengths : Targets → ℕ
sum_lengths [] = 0
sum_lengths ((callsite, targets) ∷ m) = length targets + sum_lengths m

abbrev pub fallback_target_count : CflCalleeFallbackReport → ℕ
fallback_target_count report = sum_lengths report.fallback_by_callsite
