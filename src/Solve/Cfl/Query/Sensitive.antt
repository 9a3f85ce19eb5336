-- ===== src/Solve/Cfl/Query/Sensitive.antt =====
-- `query_function_mhs` of crates/pangs-solve/src/cfl.rs returns, and what it finds is among what the
-- query without histories finds.
use tenjin_pangs.Base.{
  ℕ, suc, String, Bool, true, [], ◌∷◌, ok, ◌≡◌, arith, inl, inr, IsIn, length, ◌&&◌, is_empty,
}
use tenjin_pangs.Solve.Cfl.Graph.{QueryGraph, indirect_operands}
use tenjin_pangs.Solve.Cfl.Search.{Run}
use tenjin_pangs.Solve.Cfl.Search.Termination.{search_total}
use tenjin_pangs.Solve.Cfl.Search.Sound.{Reach, here, further, search_sound}
use tenjin_pangs.Solve.Cfl.Query.{
  Recorded, search_mhs, step, step_mhs, visit_mhs, cfl_query_state_budget, enough_fuel, first_run,
  is_forward,
}
use tenjin_pangs.Solve.Cfl.Query.States.{forward, MhsState, MhsVisitState, visit_key, visit_eq}
use tenjin_pangs.Solve.Cfl.Query.Visit.{SinkAmong, SinksAt, visit_node_lem}
use tenjin_pangs.Solve.Cfl.Query.Calm.{IsIndexed, visit_node_total}
use tenjin_pangs.Solve.Cfl.Query.Places.{
  HasPlaces, step_mhs-degree, step_mhs-places, step_mhs-step, InTable, forget,
}

-- The query's first state.
abbrev pub origin : ℕ → MhsState
origin source = record { node = source; phase = forward; stack = [] }

-- Steps of the query lead from the function to a state with an empty history where the call site is
-- recorded.
abbrev pub IsFoundMhs : QueryGraph → String → ℕ → String → Type 0
IsFoundMhs graph function source key =
    (node : ℕ) × Reach (step_mhs graph) (origin source) (origin node)
    × SinkAmong graph function (indirect_operands graph node) key

module _ (graph : QueryGraph) (function : String) where
  abbrev counts : MhsState → Bool
  counts s = is_forward s.phase && is_empty s.stack

  abbrev Emits : String → MhsState → Type 0
  Emits key s = SinksAt graph function (counts s) s.node key

  at_origin : (s : MhsState) → counts s ≡ true → s ≡ origin s.node
  at_origin s h = ground arith

  pub search_mhs_total :
      (source : ℕ)
      → IsIndexed graph
      → HasPlaces graph
      → InTable graph source
      → (run : Run MhsVisitState Recorded) × (search_mhs graph function source ≡ ok run)
  unfolding search_mhs
  search_mhs_total source indexed places h =
      search_total visit_key (visit_mhs graph function) (step_mhs graph) cfl_query_state_budget
        (suc (length graph.edges)) (step_mhs-degree graph) (λ s. InTable graph s.node)
        (λ s t g m. step_mhs-places graph s t places g m)
        (λ s o g. visit_node_total graph function (counts s) s.node o indexed g) (enough_fuel graph)
        (origin source ∷ []) first_run (omega arith) (λ t m. only t m)
    where
      only : (t : MhsState) → IsIn t (origin source ∷ []) → InTable graph t.node
      only t (inl e) = rw e h
      only t (inr m) = absurd m

  -- A call site that the search records is recorded at a state with an empty history.
  pub search_mhs_sound :
      (source : ℕ) (run : Run MhsVisitState Recorded) (key : String)
      → search_mhs graph function source ≡ ok run
      → IsIn key run.out.callsites
      → IsFoundMhs graph function source key
  unfolding search_mhs
  search_mhs_sound source run key e m =
      let (s, r, (f, among)) =
        search_sound visit_key (visit_mhs graph function) (step_mhs graph) cfl_query_state_budget
          (λ o. IsIn key o.callsites) (Emits key)
          (λ s o p v. (visit_node_lem graph function (counts s) s.node o p key v).0) (origin source)
          (enough_fuel graph) first_run run (λ k. k) e m in
      (s.node, rw (at_origin s f) at r, among)

  -- Without their histories, the states of a walk are the states of a walk without histories.
  pub Reach-forget :
      (s t : MhsState) → Reach (step_mhs graph) s t → Reach (step graph) (forget s) (forget t)
  Reach-forget s t here = here
  Reach-forget s t (further {s = u} r m) = further (Reach-forget s u r) (step_mhs-step graph u t m)
