-- ===== src/Solve/Cfl/Query/Tests.antt =====
-- The callee queries of crates/pangs-solve/src/cfl.rs at a concrete graph.
use tenjin_pangs.Base.{
  ℕ, [], ◌∷◌, none, some, ok, ◌≡◌, refl, IsIn, inl, inr, string_eq, get_elem?, ◌↔◌, ◌≤◌,
}
use tenjin_pangs.Base.Int.{◌+ℤ◌, ◌*ℤ◌}
use tenjin_pangs.Solve.Pag.{Node, Callsite}
use tenjin_pangs.Solve.Cfl.Search.{search}
use tenjin_pangs.Solve.Cfl.Query.{
  CflCalleeQuery, query_function, query_function_mhs, search_insensitive, search_mhs, visit_node,
  record_dependencies, record_sinks, cfl_query_state_budget, no_source,
}
use tenjin_pangs.Solve.Cfl.Query.States.{Phase}
use tenjin_pangs.Solve.Cfl.Query.Walk.{Walk}
use tenjin_pangs.Solve.Cfl.Query.Calls.{CallsAt}
use tenjin_pangs.Solve.Cfl.Query.Answers.{
  IsTargetMhs, queries_total, query_function_exact, query_function_mhs_sound,
  query_function_mhs-query_function, visited_states_bound,
}
use tenjin_pangs.Solve.Pag.{Pag, NodeKind, ValueKind, OmegaSeedKind, SeedTarget, assign}
use tenjin_pangs.Solve.Cfl.Bindings.{binding_edges, target_edges, param_nodes}
use tenjin_pangs.Solve.Cfl.Query.Samples.{
  value_node, handler, call, query_edge_of, table, fields, fields_made, insensitive_answer,
  sensitive_answer,
}

-- Without histories both loads may read the handler.
insensitive : query_function fields "handler" ≡ ok insensitive_answer
unfolding query_function search_insensitive search visit_node record_dependencies record_sinks
insensitive = refl

-- With them only the load from the offset of the store does.
sensitive : query_function_mhs fields "handler" ≡ ok sensitive_answer
unfolding query_function_mhs search_mhs search visit_node record_dependencies record_sinks ◌+ℤ◌ ◌*ℤ◌
sensitive = refl

no_object : query_function fields "other" ≡ ok (no_source "other")
unfolding query_function
no_object = refl

placed_nodes : (node : Node) → IsIn node table.nodes → get_elem? table.nodes node.id ≡ some node
placed_nodes node (inl e) = rw e refl
placed_nodes node (inr (inl e)) = rw e refl
placed_nodes node (inr (inr (inl e))) = rw e refl
placed_nodes node (inr (inr (inr (inl e)))) = rw e refl
placed_nodes node (inr (inr (inr (inr (inl e))))) = rw e refl
placed_nodes node (inr (inr (inr (inr (inr (inl e)))))) = rw e refl
placed_nodes node (inr (inr (inr (inr (inr (inr (inl e))))))) = rw e refl
placed_nodes node (inr (inr (inr (inr (inr (inr (inr m))))))) = absurd m

placed_sites :
    (site : Callsite) → IsIn site table.callsites → get_elem? table.callsites site.id ≡ some site
placed_sites site (inl e) = rw e refl
placed_sites site (inr (inl e)) = rw e refl
placed_sites site (inr (inr m)) = absurd m

queries_total_example :
    ((q : CflCalleeQuery) × (query_function fields "handler" ≡ ok q))
    × ((q : CflCalleeQuery) × (query_function_mhs fields "handler" ≡ ok q))
queries_total_example =
    queries_total table [] none fields "handler" (placed_nodes, placed_sites) fields_made

query_function_exact_example : IsIn "main:1" insensitive_answer.recorded.callsites ↔ (
    (node : ℕ) × Walk fields (0, Phase.forward) (node, Phase.forward)
    × CallsAt fields "handler" node "main:1")
query_function_exact_example =
    query_function_exact fields "handler" 0 insensitive_answer "main:1" placed_sites refl
      insensitive refl

query_function_mhs_sound_example : IsTargetMhs fields "handler" 0 "main:2"
query_function_mhs_sound_example =
    query_function_mhs_sound fields "handler" 0 sensitive_answer "main:2" placed_sites refl
      sensitive (inl refl)

query_function_mhs-query_function_example : IsIn "main:2" insensitive_answer.recorded.callsites
query_function_mhs-query_function_example =
    query_function_mhs-query_function fields "handler" insensitive_answer sensitive_answer "main:2"
      sensitive insensitive refl (inl refl)

visited_states_bound_example :
    (insensitive_answer.metrics.visited_states ≤ cfl_query_state_budget)
    × (sensitive_answer.metrics.visited_states ≤ cfl_query_state_budget)
visited_states_bound_example =
    visited_states_bound fields "handler" insensitive_answer sensitive_answer insensitive sensitive

-- A call with one argument, and its target.
abbrev caller : Pag
caller = record {
  nodes =
      value_node 0
      ∷ record { id = 1; kind = NodeKind.param "handler" 0; value_kind = ValueKind.pointer }
      ∷ [];
  edges = [];
  callsites = record (call 0 "main:1" 0) { args = 0 ∷ [] } ∷ [];
  omega_seeds = [];
}

bound : binding_edges caller none ((0, "handler" ∷ []) ∷ []) ≡ ok (query_edge_of assign 0 1 ∷ [])
unfolding binding_edges target_edges param_nodes
bound = refl

imported :
    binding_edges
      (record caller {
        nodes = handler ∷ [];
        omega_seeds =
            record { kind = OmegaSeedKind.imported_symbol; target = SeedTarget.node 0 } ∷ [];
      })
      none
      ((0, "handler" ∷ []) ∷ [])
    ≡ ok []
unfolding binding_edges target_edges param_nodes
imported = refl
