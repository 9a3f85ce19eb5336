-- ===== src/Solve/Cfl/Report/Tests.antt =====
-- The reports at the graph of the queries' tests.
use tenjin_pangs.Base.{none, [], ◌∷◌, ok, ◌≡◌, refl, ◌↔◌}
use tenjin_pangs.Base.Int.{◌+ℤ◌, ◌*ℤ◌}
use tenjin_pangs.Solve.Cfl.Bindings.{with_indirect_call_targets_and_signatures, binding_edges}
use tenjin_pangs.Solve.Cfl.Graph.{query_edges, check_endpoints}
use tenjin_pangs.Solve.Cfl.Search.{search}
use tenjin_pangs.Solve.Cfl.Query.{
  query_function, query_function_mhs, search_insensitive, search_mhs, visit_node,
  record_dependencies, record_sinks,
}
use tenjin_pangs.Solve.Cfl.Query.Samples.{
  table, fields, fields_made, insensitive_answer, sensitive_answer,
}
use tenjin_pangs.Solve.Cfl.Report.{
  CflCalleeReport, callee_query_function_keys, query_all_callees_field_insensitive_report_inner,
  query_all_callees_field_sensitive_report_inner, run_queries, add_target, add_targets,
}
use tenjin_pangs.Solve.Cfl.Report.Taken.{IsAddressTaken}
use tenjin_pangs.Solve.Cfl.Report.Exact.{Lists, Finds, reports_exact}

abbrev insensitive_report : CflCalleeReport
insensitive_report = record {
  by_callsite = ("main:2", "handler" ∷ []) ∷ ("main:1", "handler" ∷ []) ∷ [];
  queries = insensitive_answer ∷ [];
}

abbrev sensitive_report : CflCalleeReport
sensitive_report = record {
  by_callsite = ("main:2", "handler" ∷ []) ∷ [];
  queries = sensitive_answer ∷ [];
}

insensitive_report_eq :
    query_all_callees_field_insensitive_report_inner table none ≡ ok insensitive_report
unfolding query_all_callees_field_insensitive_report_inner with_indirect_call_targets_and_signatures
    binding_edges query_edges check_endpoints callee_query_function_keys run_queries add_target
    add_targets query_function search_insensitive search visit_node record_dependencies record_sinks
insensitive_report_eq = refl

sensitive_report_eq :
    query_all_callees_field_sensitive_report_inner table none ≡ ok sensitive_report
unfolding query_all_callees_field_sensitive_report_inner with_indirect_call_targets_and_signatures
    binding_edges query_edges check_endpoints callee_query_function_keys run_queries add_target
    add_targets query_function_mhs search_mhs search visit_node record_dependencies record_sinks
    ◌+ℤ◌ ◌*ℤ◌
sensitive_report_eq = refl

reports_exact_example :
    (Lists insensitive_report.by_callsite "main:1" "handler"
      ↔ (IsAddressTaken table "handler" × Finds (query_function fields) "main:1" "handler"))
    × (Lists sensitive_report.by_callsite "main:1" "handler"
        ↔ (IsAddressTaken table "handler" × Finds (query_function_mhs fields) "main:1" "handler"))
reports_exact_example =
    reports_exact table none fields insensitive_report sensitive_report "main:1" "handler"
      fields_made insensitive_report_eq sensitive_report_eq
