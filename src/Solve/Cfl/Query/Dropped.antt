-- ===== src/Solve/Cfl/Query/Dropped.antt =====
-- A graph on which the query with histories of crates/pangs-solve/src/cfl.rs, which counts a state as
-- visited by the active offset alone, leaves out a call site that it could reach.
use tenjin_pangs.Base.{false, none, some, [], ◌∷◌, ok, ◌≡◌, refl, inl, inr, string_eq}
use tenjin_pangs.Base.Int.{pos, ◌+ℤ◌, ◌*ℤ◌}
use tenjin_pangs.Solve.Pag.{addr_of, load, store, gep}
use tenjin_pangs.Solve.Cfl.Graph.{QueryGraph, graph_of}
use tenjin_pangs.Solve.Cfl.Search.{search}
use tenjin_pangs.Solve.Cfl.Query.{
  CflCalleeQuery, query_function_mhs, search_mhs, visit_node, record_dependencies, record_sinks,
}
use tenjin_pangs.Solve.Cfl.Query.Sensitive.{origin}
use tenjin_pangs.Solve.Cfl.Query.Follows.{Reach-WalkMhs}
use tenjin_pangs.Solve.Cfl.Query.Answers.{IsTargetMhs}
use tenjin_pangs.Solve.Cfl.Query.Samples.{value_node, handler, call, query_edge_of}
use tenjin_pangs.Solve.Cfl.Search.Sound.{here, further}

-- The handler is stored in two fields of an object, the object's address in a variable, and both
-- fields are called through the variable.
abbrev two_fields : QueryGraph
two_fields =
    graph_of
      (record {
        nodes =
            handler
            ∷ value_node 1
            ∷ value_node 2
            ∷ value_node 3
            ∷ value_node 4
            ∷ value_node 5
            ∷ value_node 6
            ∷ value_node 7
            ∷ value_node 8
            ∷ value_node 9
            ∷ value_node 10
            ∷ [];
        edges = [];
        callsites = call 0 "main:1" 9 ∷ call 1 "main:2" 10 ∷ [];
        omega_seeds = [];
      })
      none
      (query_edge_of addr_of 0 1
        ∷ query_edge_of (gep (some (pos 8)) none) 4 2
        ∷ query_edge_of (gep (some (pos 16)) none) 4 3
        ∷ query_edge_of store 1 2
        ∷ query_edge_of store 1 3
        ∷ query_edge_of store 4 5
        ∷ query_edge_of load 5 6
        ∷ query_edge_of (gep (some (pos 8)) none) 6 7
        ∷ query_edge_of (gep (some (pos 16)) none) 6 8
        ∷ query_edge_of load 7 9
        ∷ query_edge_of load 8 10
        ∷ [])

-- The query reports the second call alone, and was not truncated.
only_second :
    (q : CflCalleeQuery) × (query_function_mhs two_fields "handler" ≡ ok q)
    × (q.metrics.truncated ≡ false)
    × (q.recorded.callsites ≡ "main:2" ∷ [])
unfolding query_function_mhs search_mhs search visit_node record_dependencies record_sinks ◌+ℤ◌ ◌*ℤ◌
only_second = (_, refl, refl, refl)

-- A walk with an empty history at its end leads to the first call as well.
first_too : IsTargetMhs two_fields "handler" 0 "main:1"
unfolding ◌+ℤ◌ ◌*ℤ◌
first_too = (
  9,
  Reach-WalkMhs two_fields (origin 0) (origin 9) (
      further
        (further
          (further
            (further
              (further
                (further (further (further (further here (inl refl)) (inl refl)) (inr (inl refl)))
                  (inl refl))
                (inr (inr (inl refl))))
              (inl refl))
            (inl refl))
          (inl refl))
        (inl refl)),
  (call 0 "main:1" 9, inl refl, refl, refl, inl refl, refl),
)
