-- ===== src/Solve/Cfl/Report.antt =====
-- The reports of crates/pangs-solve/src/cfl.rs, which run a query for each function whose address is
-- taken and turn the answers into the targets of each call site.
pub mod Exact
pub mod Taken
mod Tests
use tenjin_pangs.Base.{
  ℕ, String, Bool, true, false, Option, none, some, List, [], ◌∷◌, Result, ok, err, ◌>>=◌,
  string_eq, if◌then◌else◌, lookup, insert, contains, insert_new, filter_map, get_elem?, map_err,
}
use tenjin_pangs.Solve.Pag.{
  Pag, Node, NodeKind, ObjectKind, Edge, addr_of, assign, load, store, gep, memcpy, Signature,
}
use tenjin_pangs.Solve.Cfl.Bindings.{
  with_signatures, with_indirect_call_targets_and_signatures, binding_edges,
}
use tenjin_pangs.Solve.Cfl.Graph.{QueryGraph}
use tenjin_pangs.Solve.Cfl.Search.{Stop, panicked}
use tenjin_pangs.Solve.Cfl.Query.{CflCalleeQuery, query_function, query_function_mhs}

-- A map from call sites to sets of functions.
abbrev pub Targets : Type 0
Targets = List (String × List String)

pub record CflCalleeReport : Type 0 where
  pub by_callsite : Targets
  pub queries : List CflCalleeQuery

abbrev pub or_default : Option (List String) → List String
or_default none = []
or_default (some keys) = keys

-- `entry(callsite).or_default().insert(key)`.
unfoldable pub add_target : String → String → Targets → Targets
add_target callsite key m = insert callsite (insert_new key (or_default (lookup callsite m))) m

unfoldable pub add_targets : String → List String → Targets → Targets
add_targets key [] m = m
add_targets key (callsite ∷ more) m = add_targets key more (add_target callsite key m)

-- The loop over the functions.
unfoldable pub run_queries :
    (String → Result CflCalleeQuery Stop) → List String → Targets → Result CflCalleeReport Stop
run_queries query [] m = ok (record { by_callsite = m; queries = [] })
run_queries query (key ∷ keys) m = query key >>= λ answer.
    run_queries query keys (add_targets key answer.recorded.callsites m) >>= λ rest.
    ok (record { by_callsite = rest.by_callsite; queries = answer ∷ rest.queries })

abbrev pub function_object_key : Node → Option String
function_object_key node = elim node.kind [
  | NodeKind.object ObjectKind.function key owner ↦ some key
  | _ ↦ none
]

abbrev pub function_object_keys : Pag → List String
function_object_keys pag = filter_map function_object_key pag.nodes

-- The function whose address the edge takes.
abbrev pub materialized_key : Pag → Edge → Option String
materialized_key pag edge = elim edge.kind [
  | addr_of ↦ elim (get_elem? pag.nodes edge.src) [
    | none ↦ none
    | some node ↦ function_object_key node
  ]
  | _ ↦ none
]

unfoldable pub callee_query_function_keys : Pag → List String
callee_query_function_keys pag =
    let materialized = filter_map (materialized_key pag) pag.edges in
    filter_map (λ key. if contains materialized key then some key else none)
      (function_object_keys pag)

unfoldable pub query_all_callees_field_insensitive_report_inner :
    Pag → Option (List (String × Signature)) → Result CflCalleeReport Stop
query_all_callees_field_insensitive_report_inner pag signatures =
    map_err panicked (with_signatures pag signatures) >>= λ graph.
    run_queries (query_function graph) (callee_query_function_keys pag) []

unfoldable pub query_all_callees_field_sensitive_report_inner :
    Pag → Option (List (String × Signature)) → Result CflCalleeReport Stop
query_all_callees_field_sensitive_report_inner pag signatures =
    map_err panicked (with_signatures pag signatures) >>= λ graph.
    run_queries (query_function_mhs graph) (callee_query_function_keys pag) []

-- The public entry points; `QueryGraph::new` is `with_signatures` without signatures.
abbrev pub query_callees_field_insensitive : Pag → String → Result CflCalleeQuery Stop
query_callees_field_insensitive pag function =
    map_err panicked (with_signatures pag none) >>= λ graph. query_function graph function

abbrev pub query_callees_field_sensitive : Pag → String → Result CflCalleeQuery Stop
query_callees_field_sensitive pag function =
    map_err panicked (with_signatures pag none) >>= λ graph. query_function_mhs graph function

abbrev pub query_all_callees_field_insensitive_report : Pag → Result CflCalleeReport Stop
query_all_callees_field_insensitive_report pag =
    query_all_callees_field_insensitive_report_inner pag none

abbrev pub query_all_callees_field_insensitive : Pag → Result Targets Stop
query_all_callees_field_insensitive pag =
    query_all_callees_field_insensitive_report pag >>= λ report. ok report.by_callsite

abbrev pub query_all_callees_field_insensitive_report_with_signatures :
    Pag → List (String × Signature) → Result CflCalleeReport Stop
query_all_callees_field_insensitive_report_with_signatures pag signatures =
    query_all_callees_field_insensitive_report_inner pag (some signatures)

abbrev pub query_all_callees_field_sensitive_report : Pag → Result CflCalleeReport Stop
query_all_callees_field_sensitive_report pag =
    query_all_callees_field_sensitive_report_inner pag none

abbrev pub query_all_callees_field_sensitive : Pag → Result Targets Stop
query_all_callees_field_sensitive pag =
    query_all_callees_field_sensitive_report pag >>= λ report. ok report.by_callsite

abbrev pub query_all_callees_field_sensitive_report_with_signatures :
    Pag → List (String × Signature) → Result CflCalleeReport Stop
query_all_callees_field_sensitive_report_with_signatures pag signatures =
    query_all_callees_field_sensitive_report_inner pag (some signatures)
