-- ===== src/Solve/Cfl/Fallback/Tests.antt =====
-- The fallback report and the summary at concrete queries.
use tenjin_pangs.Base.{
  String, Bool, none, some, List, [], ◌∷◌, ◌≡◌, refl, true, false, lookup, string_eq, ◌⊎◌, ℕ,
}
use tenjin_pangs.Solve.Cfl.Query.{CflCalleeQuery}
use tenjin_pangs.Solve.Cfl.Report.{Targets}
use tenjin_pangs.Solve.Cfl.Fallback.{
  fallback_for_truncated_queries, truncated_queries_touched_callsites, replace_touched,
  truncated_functions, visit_histogram, max_visited_states, truncated_queries,
}
use tenjin_pangs.Solve.Cfl.Fallback.Touched.{
  IsTouched, chosen, fallback_for_truncated_queries_exact,
}

abbrev query : String → Bool → ℕ → List String → CflCalleeQuery
query function truncated visited callsites = record {
  function = function;
  source = some 0;
  recorded = record { callsites = callsites; dependencies = []; return_dependencies = [] };
  metrics = record { visited_states = visited; max_worklist = 1; truncated = truncated };
}

abbrev queries : List CflCalleeQuery
queries = query "f" true 25000 ("main:1" ∷ []) ∷ query "g" false 100 ("main:2" ∷ []) ∷ []

abbrev found : Targets
found = ("main:1", "f" ∷ []) ∷ ("main:2", "g" ∷ []) ∷ []

abbrev envelope : Targets
envelope = ("main:1", "f" ∷ "h" ∷ []) ∷ ("main:2", "g" ∷ "h" ∷ []) ∷ []

merged : fallback_for_truncated_queries found queries envelope ≡ record {
  by_callsite = ("main:1", "f" ∷ "h" ∷ []) ∷ ("main:2", "g" ∷ []) ∷ [];
  fallback_by_callsite = ("main:1", "f" ∷ "h" ∷ []) ∷ [];
  fallback_callsites = "main:1" ∷ [];
  truncated_functions = "f" ∷ [];
}
unfolding fallback_for_truncated_queries truncated_queries_touched_callsites replace_touched
    truncated_functions
merged = refl

histogram : visit_histogram queries ≡ record { le_10 = 0; le_100 = 1; le_1000 = 0; gt_1000 = 1 }
unfolding visit_histogram
histogram = refl

most : max_visited_states queries ≡ 25000
unfolding max_visited_states
most = refl

cut : truncated_queries queries ≡ 1
unfolding truncated_queries
cut = refl

fallback_for_truncated_queries_exact_example :
    (IsTouched queries "main:1"
      × (lookup "main:1" (fallback_for_truncated_queries found queries envelope).by_callsite
          ≡ chosen (lookup "main:1" envelope) (lookup "main:1" found))
      × (lookup "main:1"
            (fallback_for_truncated_queries found queries envelope).fallback_by_callsite
          ≡ lookup "main:1" envelope))
    ⊎ (¬ IsTouched queries "main:1"
        × (lookup "main:1" (fallback_for_truncated_queries found queries envelope).by_callsite
            ≡ lookup "main:1" found)
        × (lookup "main:1"
              (fallback_for_truncated_queries found queries envelope).fallback_by_callsite
            ≡ none))
fallback_for_truncated_queries_exact_example =
    fallback_for_truncated_queries_exact found queries envelope "main:1"
