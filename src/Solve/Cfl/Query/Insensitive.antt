-- ===== src/Solve/Cfl/Query/Insensitive.antt =====
-- `query_function` of crates/pangs-solve/src/cfl.rs returns, and finds the call sites that its steps
-- lead to.
use tenjin_pangs.Base.{
  ℕ, suc, String, false, [], ◌∷◌, ok, ◌≡◌, refl, arith, inl, inr, IsIn, length, string_eq,
}
use tenjin_pangs.Solve.Cfl.Graph.{QueryGraph, indirect_operands}
use tenjin_pangs.Solve.Cfl.Search.{Run}
use tenjin_pangs.Solve.Cfl.Search.Termination.{search_total}
use tenjin_pangs.Solve.Cfl.Search.Sound.{Reach, search_sound}
use tenjin_pangs.Solve.Cfl.Search.Complete.{search_complete}
use tenjin_pangs.Solve.Cfl.Query.{
  Recorded, search_insensitive, step, visit, identity, cfl_query_state_budget, enough_fuel,
  first_run, is_forward,
}
use tenjin_pangs.Solve.Cfl.Query.Walk.{Walk, Reach-iff}
use tenjin_pangs.Solve.Cfl.Query.States.{Phase, forward, backward, pair_eq}
use tenjin_pangs.Solve.Cfl.Query.Visit.{SinkAmong, SinksAt, visit_node_lem}
use tenjin_pangs.Solve.Cfl.Query.Calm.{IsIndexed, visit_node_total}
use tenjin_pangs.Solve.Cfl.Query.Places.{HasPlaces, step-degree, step-places, InTable}

-- A walk along the edges leads from the function to the operand of a compatible call site.
abbrev pub IsTarget : QueryGraph → String → ℕ → String → Type 0
IsTarget graph function source key =
    (node : ℕ) × Walk graph (source, forward) (node, forward)
    × SinkAmong graph function (indirect_operands graph node) key

module _ (graph : QueryGraph) (function : String) where
  -- What the visit of a state adds.
  abbrev Emits : String → ℕ × Phase → Type 0
  Emits key s = SinksAt graph function (is_forward s.1) s.0 key

  Emits-IsTarget :
      (source : ℕ) (key : String) (s : ℕ × Phase)
      → Reach (step graph) (source, forward) s
      → Emits key s
      → IsTarget graph function source key
  Emits-IsTarget source key (node, forward) r (f, among) =
      (node, (Reach-iff graph (source, forward) (node, forward)).0 r, among)
  Emits-IsTarget source key (node, backward) r (f, among) = cc

  pub search_insensitive_total :
      (source : ℕ)
      → IsIndexed graph
      → HasPlaces graph
      → InTable graph source
      → (run : Run (ℕ × Phase) Recorded) × (search_insensitive graph function source ≡ ok run)
  unfolding search_insensitive
  search_insensitive_total source indexed places h =
      search_total identity (visit graph function) (step graph) cfl_query_state_budget
        (suc (length graph.edges)) (step-degree graph) (λ s. InTable graph s.0)
        (λ s t g m. step-places graph s t places g m)
        (λ s o g. visit_node_total graph function (is_forward s.1) s.0 o indexed g)
        (enough_fuel graph) ((source, forward) ∷ []) first_run (omega arith) (λ t m. only t m)
    where
      only : (t : ℕ × Phase) → IsIn t ((source, forward) ∷ []) → InTable graph t.0
      only t (inl e) = rw e h
      only t (inr m) = absurd m

  -- A call site that the search records is a target.
  pub search_insensitive_sound :
      (source : ℕ) (run : Run (ℕ × Phase) Recorded) (key : String)
      → search_insensitive graph function source ≡ ok run
      → IsIn key run.out.callsites
      → IsTarget graph function source key
  unfolding search_insensitive
  search_insensitive_sound source run key e m =
      let (s, r, found) =
        search_sound identity (visit graph function) (step graph) cfl_query_state_budget
          (λ o. IsIn key o.callsites) (Emits key)
          (λ s o p v. (visit_node_lem graph function (is_forward s.1) s.0 o p key v).0)
          (source, forward) (enough_fuel graph) first_run run (λ k. k) e m in
      Emits-IsTarget source key s r found

  -- The search records every target, unless it was truncated.
  pub search_insensitive_complete :
      (source : ℕ) (run : Run (ℕ × Phase) Recorded) (key : String)
      → search_insensitive graph function source ≡ ok run
      → run.truncated ≡ false
      → IsTarget graph function source key
      → IsIn key run.out.callsites
  unfolding search_insensitive
  search_insensitive_complete source run key e whole (node, w, among) =
      search_complete identity (visit graph function) (step graph) cfl_query_state_budget
        (λ o. IsIn key o.callsites) (Emits key)
        (λ s o p v. (visit_node_lem graph function (is_forward s.1) s.0 o p key v).1) (λ s t q. q)
        (source, forward) (enough_fuel graph) first_run run refl e whole (node, forward)
        ((Reach-iff graph (source, forward) (node, forward)).1 w) (refl, among)
