-- ===== src/Solve/Cfl/Query/Walk.antt =====
-- The relation that `query_function` of crates/pangs-solve/src/cfl.rs searches: value flow along the
-- edges, and from a store back to what points to the same memory.
use tenjin_pangs.Base.{
  ℕ, some, ◌≡◌, ◌≢◌, refl, sym, ◌∙◌, ◌⊎◌, inl, inr, ◌↔◌, IsIn, IsIn-map, map-IsIn, IsIn-keep,
  IsIn-filter_map, filter_map-IsIn, ◌==◌, nat_eq, eq_of_beq, beq_refl, arith,
}
use tenjin_pangs.Solve.Pag.{EdgeKind, addr_of, assign, load, store, gep, memcpy}
use tenjin_pangs.Solve.Cfl.Graph.{QueryGraph, QueryEdge, forward_edges, reverse_edges}
use tenjin_pangs.Solve.Cfl.Search.Sound.{Reach, here, further}
use tenjin_pangs.Solve.Cfl.Query.{step, forward_successor, backward_successor}
use tenjin_pangs.Solve.Cfl.Query.States.{Phase, forward, backward}

-- Forward, a value flows along every edge but a store, which turns the search to the aliases of its
-- destination; backward, edges are followed against their direction, and any node may turn the
-- search forward again.
pub data Moves (graph : QueryGraph) : ℕ × Phase → ℕ × Phase → Type 0 where
  flows :
      (edge : QueryEdge)
      → IsIn edge graph.edges
      → edge.kind ≢ store
      → Moves graph (edge.src, forward) (edge.dst, forward)
  stores :
      (edge : QueryEdge)
      → IsIn edge graph.edges
      → edge.kind ≡ store
      → Moves graph (edge.src, forward) (edge.dst, backward)
  returns :
      (edge : QueryEdge)
      → IsIn edge graph.edges
      → Moves graph (edge.dst, backward) (edge.src, backward)
  turns : (node : ℕ) → Moves graph (node, backward) (node, forward)

pub data Walk (graph : QueryGraph) (start : ℕ × Phase) : ℕ × Phase → Type 0 where
  stays : Walk graph start start
  moves : {s t : ℕ × Phase} → Walk graph start s → Moves graph s t → Walk graph start t

store_cases : (k : EdgeKind) → (k ≡ store) ⊎ (k ≢ store)
store_cases store = inl refl
store_cases addr_of = inr (λ e. cc)
store_cases assign = inr (λ e. cc)
store_cases load = inr (λ e. cc)
store_cases (gep off l) = inr (λ e. cc)
store_cases (memcpy bytes) = inr (λ e. cc)

at_store : (edge : QueryEdge) → edge.kind ≡ store → forward_successor edge ≡ (edge.dst, backward)
at_store edge e = ground arith

at_other : (edge : QueryEdge) → edge.kind ≢ store → forward_successor edge ≡ (edge.dst, forward)
at_other edge e = ground arith

at_any : (edge : QueryEdge) → backward_successor edge ≡ some (edge.src, backward)
at_any edge = ground arith

module _ (graph : QueryGraph) where
  step-Moves : (s t : ℕ × Phase) → IsIn t (step graph s) → Moves graph s t
  step-Moves (node, forward) t m =
      let (edge, among, e) = IsIn-map forward_successor t (forward_edges graph node) m in
      let (there, q) = (IsIn-keep (λ edge. edge.src == node) edge graph.edges).0 among in
      let from : edge.src ≡ node = eq_of_beq edge.src node q in
      elim (store_cases edge.kind) [
        | inl k ↦ rw (← from, e, at_store edge k) (stores edge there k)
        | inr k ↦ rw (← from, e, at_other edge k) (flows edge there k)
      ]
  step-Moves (node, backward) t (inl e) = rw e (turns node)
  step-Moves (node, backward) t (inr m) =
      let (edge, among, e) = IsIn-filter_map backward_successor t (reverse_edges graph node) m in
      let (there, q) = (IsIn-keep (λ edge. edge.dst == node) edge graph.edges).0 among in
      let from : edge.dst ≡ node = eq_of_beq edge.dst node q in
      let to : (edge.src, backward) ≡ t = some_eq (sym (at_any edge) ∙ e) in
      rw (← from, ← to) (returns edge there)
    where
      some_eq : {A : Type 0} {a b : A} → some a ≡ some b → a ≡ b
      some_eq e = cc

  leaves : (edge : QueryEdge) → IsIn edge graph.edges → IsIn edge (forward_edges graph edge.src)
  leaves edge m = (IsIn-keep (λ e. e.src == edge.src) edge graph.edges).1 (m, beq_refl edge.src)

  enters : (edge : QueryEdge) → IsIn edge graph.edges → IsIn edge (reverse_edges graph edge.dst)
  enters edge m = (IsIn-keep (λ e. e.dst == edge.dst) edge graph.edges).1 (m, beq_refl edge.dst)

  Moves-step : (s t : ℕ × Phase) → Moves graph s t → IsIn t (step graph s)
  Moves-step s t (flows edge m k) =
      rw (at_other edge k) at
        (map-IsIn forward_successor edge (forward_edges graph edge.src) (leaves edge m))
  Moves-step s t (stores edge m k) =
      rw (at_store edge k) at
        (map-IsIn forward_successor edge (forward_edges graph edge.src) (leaves edge m))
  Moves-step s t (returns edge m) = inr (
      filter_map-IsIn backward_successor edge (edge.src, backward) (reverse_edges graph edge.dst)
        (enters edge m) (at_any edge))
  Moves-step s t (turns node) = inl refl

  Reach-Walk : (s t : ℕ × Phase) → Reach (step graph) s t → Walk graph s t
  Reach-Walk s t here = stays
  Reach-Walk s t (further {s = u} r m) = moves (Reach-Walk s u r) (step-Moves u t m)

  Walk-Reach : (s t : ℕ × Phase) → Walk graph s t → Reach (step graph) s t
  Walk-Reach s t stays = here
  Walk-Reach s t (moves {s = u} w m) = further (Walk-Reach s u w) (Moves-step u t m)

  -- The states that the steps of the query lead to are those that walks lead to.
  pub Reach-iff : (s t : ℕ × Phase) → Reach (step graph) s t ↔ Walk graph s t
  Reach-iff s t = (Reach-Walk s t, Walk-Reach s t)
