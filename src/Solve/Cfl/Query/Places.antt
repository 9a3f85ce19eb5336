-- ===== src/Solve/Cfl/Query/Places.antt =====
-- The steps of the callee queries of crates/pangs-solve/src/cfl.rs stay among the nodes that have a
-- place, and add at most a state for each edge and one more.
use tenjin_pangs.Base.{
  ℕ, suc, String, true, false, Option, some, List, [], ◌∷◌, Result, ok, ◌≡◌, refl, sym, ◌<◌, ◌≤◌,
  arith, IsIn, IsIn-map, IsIn-keep, length, IsIn-filter_map, filter_map-IsIn, map-IsIn,
  length-filter_map, length-keep, inl, inr, ltb, Bool-cases, length-map, ◌==◌, nat_eq, >>=-eq-ok,
  ap, ◌&&◌, ◌>>=◌, ◌++◌, ◌⊎◌,
}
use tenjin_pangs.Solve.Pag.{Pag, Signature}
use tenjin_pangs.Solve.Cfl.Bindings.{with_indirect_call_targets_and_signatures, binding_edges}
use tenjin_pangs.Solve.Cfl.Graph.{
  QueryGraph, QueryEdge, check_endpoints, query_edges, forward_edges, reverse_edges, graph_of,
}
use tenjin_pangs.Solve.Cfl.Query.{
  step, step_backward, forward_successor, backward_successor, step_mhs, forward_successor_mhs,
  backward_successor_mhs, step_backward_mhs,
}
use tenjin_pangs.Solve.Cfl.Query.States.{Phase, forward, backward, MhsState}

-- The ends of each edge have a place.
abbrev pub HasPlaces : QueryGraph → Type 0
HasPlaces graph =
    (edge : QueryEdge)
    → IsIn edge graph.edges
    → (edge.src < length graph.pag.nodes) × (edge.dst < length graph.pag.nodes)

check_endpoints_lem :
    (nodes : ℕ) (edges : List QueryEdge)
    → check_endpoints nodes edges ≡ ok tt
    → (edge : QueryEdge) → IsIn edge edges
    → (edge.src < nodes) × (edge.dst < nodes)
unfolding check_endpoints
check_endpoints_lem nodes [] h edge m = absurd m
check_endpoints_lem nodes (x ∷ more) h edge m =
    elim (Bool-cases (ltb x.src nodes && ltb x.dst nodes)) [
      | inl t ↦ among m t (check_endpoints_lem nodes more (rw (t, check_endpoints) at h) edge)
      | inr f ↦ absurd (out f h)
    ]
  where
    among :
        IsIn edge (x ∷ more)
        → (ltb x.src nodes && ltb x.dst nodes) ≡ true
        → (IsIn edge more → (edge.src < nodes) × (edge.dst < nodes))
        → (edge.src < nodes) × (edge.dst < nodes)
    among (inl e) t rest = rw e (ground arith)
    among (inr n) t rest = rest n

    out :
        (ltb x.src nodes && ltb x.dst nodes) ≡ false → check_endpoints nodes (x ∷ more) ≡ ok tt → ⊥
    out f h = ground arith

ok_eq : {A E : Type 0} {a b : A} → ◌≡◌ {A = Result A E} (ok a) (ok b) → a ≡ b
ok_eq e = cc

-- A graph that is made without a panic is over the given one, and its edges have their places.
pub with_indirect_call_targets_and_signatures-HasPlaces :
    (pag : Pag) (targets : List (ℕ × List String)) (signatures : Option (List (String × Signature)))
    (graph : QueryGraph)
    → with_indirect_call_targets_and_signatures pag targets signatures ≡ ok graph
    → (edges : List QueryEdge) × (graph ≡ graph_of pag signatures edges) × HasPlaces graph
unfolding with_indirect_call_targets_and_signatures
with_indirect_call_targets_and_signatures-HasPlaces pag targets signatures graph h =
    let (own, made, rest) =
      >>=-eq-ok (query_edges pag pag.edges)
        (λ own. binding_edges pag signatures targets >>= λ bound.
          check_endpoints (length pag.nodes) (own ++ bound) >>= λ done.
          ok (graph_of pag signatures (own ++ bound)))
        h in
    let (bound, appended, after) =
      >>=-eq-ok (binding_edges pag signatures targets)
        (λ bound. check_endpoints (length pag.nodes) (own ++ bound) >>= λ done.
          ok (graph_of pag signatures (own ++ bound)))
        rest in
    let edges = own ++ bound in
    let (done, checked, q) =
      >>=-eq-ok (check_endpoints (length pag.nodes) edges) (λ d. ok (graph_of pag signatures edges))
        after in
    let same : graph_of pag signatures edges ≡ graph = ok_eq q in
    (edges, sym same, rw (sym same) (check_endpoints_lem (length pag.nodes) edges checked))

-- A state without its history.
abbrev pub forget : MhsState → ℕ × Phase
forget s = (s.node, s.phase)

forward_forget :
    (s t : MhsState) (edge : QueryEdge)
    → forward_successor_mhs s edge ≡ some t
    → forward_successor edge ≡ forget t
forward_forget s t edge e = ground arith

backward_forget :
    (s t : MhsState) (edge : QueryEdge)
    → backward_successor_mhs s edge ≡ some t
    → backward_successor edge ≡ some (forget t)
backward_forget s t edge e = ground arith

Phase-cases : (p : Phase) → (p ≡ forward) ⊎ (p ≡ backward)
Phase-cases forward = inl refl
Phase-cases backward = inr refl

module _ (graph : QueryGraph) where
  abbrev pub InTable : ℕ → Type 0
  InTable node = node < length graph.pag.nodes

  pub step-degree : (s : ℕ × Phase) → length (step graph s) ≤ suc (length graph.edges)
  step-degree (node, forward) = omega (
    arith,
    length-map forward_successor (forward_edges graph node),
    length-keep (λ edge. edge.src == node) graph.edges,
  )
  step-degree (node, backward) = omega (
    arith,
    length-filter_map backward_successor (reverse_edges graph node),
    length-keep (λ edge. edge.dst == node) graph.edges,
  )

  pub step_mhs-degree : (s : MhsState) → length (step_mhs graph s) ≤ suc (length graph.edges)
  step_mhs-degree s = elim (Phase-cases s.phase) [
    | inl p ↦
        rw (step_mhs, p)
          (omega (
            arith,
            length-filter_map (forward_successor_mhs s) (forward_edges graph s.node),
            length-keep (λ edge. edge.src == s.node) graph.edges,
          ))
    | inr p ↦
        rw (step_mhs, p)
          (omega (
            arith,
            length-filter_map (backward_successor_mhs s) (reverse_edges graph s.node),
            length-keep (λ edge. edge.dst == s.node) graph.edges,
          ))
  ]

  pub step-places :
      (s t : ℕ × Phase) → HasPlaces graph → InTable s.0 → IsIn t (step graph s) → InTable t.0
  step-places (node, forward) t places h m =
      let (edge, among, e) = IsIn-map forward_successor t (forward_edges graph node) m in
      let ends = places edge ((IsIn-keep (λ edge. edge.src == node) edge graph.edges).0 among).0 in
      rw e (ground arith)
  step-places (node, backward) t places h (inl e) = rw e h
  step-places (node, backward) t places h (inr m) =
      let (edge, among, e) = IsIn-filter_map backward_successor t (reverse_edges graph node) m in
      let ends = places edge ((IsIn-keep (λ edge. edge.dst == node) edge graph.edges).0 among).0 in
      ground arith

  backward_step :
      (s t : MhsState)
      → IsIn t (step_backward_mhs graph s)
      → IsIn (forget t) (step_backward graph s.node)
  backward_step s t (inl e) = inl (ap forget e)
  backward_step s t (inr m) =
      let (edge, among, e) =
        IsIn-filter_map (backward_successor_mhs s) t (reverse_edges graph s.node) m in
      inr (
        filter_map-IsIn backward_successor edge (forget t) (reverse_edges graph s.node) among
          (backward_forget s t edge e))

  -- A step with a history is a step without it.
  pub step_mhs-step :
      (s t : MhsState) → IsIn t (step_mhs graph s) → IsIn (forget t) (step graph (forget s))
  step_mhs-step s t m = elim (Phase-cases s.phase) [
    | inl p ↦
        let (edge, among, e) =
          IsIn-filter_map (forward_successor_mhs s) t (forward_edges graph s.node)
            (rw (step_mhs, p) at m) in
        rw (p, ← forward_forget s t edge e)
          (map-IsIn forward_successor edge (forward_edges graph s.node) among)
    | inr p ↦ rw p (backward_step s t (rw (step_mhs, p) at m))
  ]

  pub step_mhs-places :
      (s t : MhsState)
      → HasPlaces graph
      → InTable s.node
      → IsIn t (step_mhs graph s)
      → InTable t.node
  step_mhs-places s t places h m = step-places (forget s) (forget t) places h (step_mhs-step s t m)
