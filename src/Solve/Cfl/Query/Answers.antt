-- ===== src/Solve/Cfl/Query/Answers.antt =====
-- The answers of the callee queries of crates/pangs-solve/src/cfl.rs over a valid program assignment
-- graph.
use tenjin_pangs.Base.{
  ℕ, zero, suc, String, false, Option, some, List, [], ◌∷◌, Result, ok, ◌≡◌, refl, sym, ap, ◌∙◌,
  ◌<◌, ◌≤◌, ◌↔◌, arith, ◌⊎◌, inl, inr, IsIn, length, lookup, string_eq, >>=-eq-ok, Option-cases,
  get_elem?, lookup-IsIn, IsIn-collect, IsIn-filter_map, filter_map,
}
use tenjin_pangs.Solve.Pag.{Pag, Node, Callsite, Signature}
use tenjin_pangs.Solve.Cfl.Bindings.{with_indirect_call_targets_and_signatures}
use tenjin_pangs.Solve.Cfl.Graph.{QueryGraph, QueryEdge, function_entry, graph_of}
use tenjin_pangs.Solve.Cfl.Search.{Stop, Run}
use tenjin_pangs.Solve.Cfl.Query.{
  CflCalleeQuery, Recorded, query_function, query_function_mhs, search_insensitive, search_mhs,
  no_source, answer_of, identity, visit, step, visit_mhs, step_mhs, cfl_query_state_budget,
  enough_fuel, first_run,
}
use tenjin_pangs.Solve.Cfl.Query.States.{Phase, MhsVisitState, visit_key, visit_eq, pair_eq}
use tenjin_pangs.Solve.Cfl.Search.Budget.{search_budget}
use tenjin_pangs.Solve.Cfl.Query.Insensitive.{
  IsTarget, search_insensitive_total, search_insensitive_sound, search_insensitive_complete,
}
use tenjin_pangs.Solve.Cfl.Query.Sensitive.{
  IsFoundMhs, origin, search_mhs_total, search_mhs_sound, Reach-forget,
}
use tenjin_pangs.Solve.Cfl.Query.Calm.{IsIndexed}
use tenjin_pangs.Solve.Cfl.Query.Histories.{state_at, WalkMhs}
use tenjin_pangs.Solve.Cfl.Query.Follows.{Reach-WalkMhs}
use tenjin_pangs.Solve.Cfl.Query.Walk.{Walk, Reach-iff}
use tenjin_pangs.Solve.Cfl.Query.Calls.{CallsAt, CallsTo, SinkAmong-CallsAt, CallsAt-CallsTo}
use tenjin_pangs.Solve.Cfl.Query.Places.{
  with_indirect_call_targets_and_signatures-HasPlaces, InTable,
}

-- Nodes and call sites stand at their identifiers, which `validate` of the program assignment graph
-- checks.
abbrev pub IsValid : Pag → Type 0
IsValid pag =
    ((node : Node) → IsIn node pag.nodes → get_elem? pag.nodes node.id ≡ some node)
    × ((site : Callsite) → IsIn site pag.callsites → get_elem? pag.callsites site.id ≡ some site)

get_elem?-lt : {A : Type 0} (xs : List A) (n : ℕ) (x : A) → get_elem? xs n ≡ some x → n < length xs
get_elem?-lt [] n x h = cc
get_elem?-lt (y ∷ xs) zero x h = omega arith
get_elem?-lt (y ∷ xs) (suc n) x h = omega (arith, get_elem?-lt xs n x h)

entry_node :
    (node : Node) (key : String) (source : ℕ)
    → function_entry node ≡ some (key, source)
    → node.id ≡ source
entry_node node key source e = ground arith

source_placed :
    (pag : Pag) (signatures : Option (List (String × Signature))) (edges : List QueryEdge)
    (function : String) (source : ℕ)
    → IsValid pag
    → lookup function (graph_of pag signatures edges).function_objects ≡ some source
    → source < length pag.nodes
source_placed pag signatures edges function source (nodes, sites) e =
    let entries = filter_map function_entry pag.nodes in
    let (key, among) =
      lookup-IsIn function (graph_of pag signatures edges).function_objects source e in
    let (node, there, q) =
      IsIn-filter_map function_entry (key, source) pag.nodes
        (settled (IsIn-collect [] entries (key, source) among)) in
    rw (entry_node node key source q) at (get_elem?-lt pag.nodes node.id node (nodes node there))
  where
    settled : {B : Type 0} → ⊥ ⊎ B → B
    settled (inl m) = absurd m
    settled (inr m) = m

-- Over a valid graph whose query graph, with any targets of indirect calls, is made without a panic,
-- both queries return for every function.
pub queries_total :
    (pag : Pag) (targets : List (ℕ × List String)) (signatures : Option (List (String × Signature)))
    (graph : QueryGraph) (function : String)
    → IsValid pag
    → with_indirect_call_targets_and_signatures pag targets signatures ≡ ok graph
    → ((q : CflCalleeQuery) × (query_function graph function ≡ ok q))
      × ((q : CflCalleeQuery) × (query_function_mhs graph function ≡ ok q))
unfolding query_function query_function_mhs
queries_total pag targets signatures graph function valid made =
    let (edges, e, places) =
      with_indirect_call_targets_and_signatures-HasPlaces pag targets signatures graph made in
    elim (Option-cases (lookup function graph.function_objects)) [
      | inl n ↦ (
        (no_source function, rw (query_function, n) refl),
        (no_source function, rw (query_function_mhs, n) refl),
      )
      | inr (source, n) ↦
          let indexed : IsIndexed graph = rw e valid.1 in
          let inside : InTable graph source =
            rw e (source_placed pag signatures edges function source valid (rw e at n)) in
          let (run, r) = search_insensitive_total graph function source indexed places inside in
          let (run_mhs, s) = search_mhs_total graph function source indexed places inside in
          (
            (answer_of function source run, rw (query_function, n, r) refl),
            (answer_of function source run_mhs, rw (query_function_mhs, n, s) refl),
          )
    ]

ok_eq : {A : Type 0} {a b : A} → ◌≡◌ {A = Result A Stop} (ok a) (ok b) → a ≡ b
ok_eq e = cc

-- A walk with a history that is empty at both ends leads from the function to the operand of a call
-- site that permits it.
abbrev pub IsTargetMhs : QueryGraph → String → ℕ → String → Type 0
IsTargetMhs graph function source key =
    (node : ℕ) × WalkMhs graph (state_at source Phase.forward []) (state_at node Phase.forward [])
    × CallsTo graph function node key

module _ (graph : QueryGraph) (function : String) where
  -- A query of a function with an object is a search from it.
  query_function-search :
      (source : ℕ) (q : CflCalleeQuery)
      → lookup function graph.function_objects ≡ some source
      → query_function graph function ≡ ok q
      → (run : Run (ℕ × Phase) Recorded) × (search_insensitive graph function source ≡ ok run)
        × (q ≡ answer_of function source run)
  unfolding query_function
  query_function-search source q n e =
      let (run, r, s) =
        >>=-eq-ok (search_insensitive graph function source)
          (λ run. ok (answer_of function source run)) (rw (query_function, n) at e) in
      (run, r, sym (ok_eq s))

  query_function_mhs-search :
      (source : ℕ) (q : CflCalleeQuery)
      → lookup function graph.function_objects ≡ some source
      → query_function_mhs graph function ≡ ok q
      → (run : Run MhsVisitState Recorded) × (search_mhs graph function source ≡ ok run)
        × (q ≡ answer_of function source run)
  unfolding query_function_mhs
  query_function_mhs-search source q n e =
      let (run, r, s) =
        >>=-eq-ok (search_mhs graph function source) (λ run. ok (answer_of function source run))
          (rw (query_function_mhs, n) at e) in
      (run, r, sym (ok_eq s))

  query_function_walks :
      (source : ℕ) (q : CflCalleeQuery) (key : String)
      → lookup function graph.function_objects ≡ some source
      → query_function graph function ≡ ok q
      → q.metrics.truncated ≡ false
      → IsIn key q.recorded.callsites ↔ IsTarget graph function source key
  query_function_walks source q key n e whole =
      let (run, r, same) = query_function-search source q n e in
      let cut = ap (λ (a : CflCalleeQuery). a.metrics.truncated) same in
      rw same (
        search_insensitive_sound graph function source run key r,
        search_insensitive_complete graph function source run key r (sym cut ∙ whole),
      )

  -- If the call sites stand at their identifiers and the query without histories was not truncated, it
  -- finds exactly the compatible indirect call sites to whose operand a walk along the edges leads
  -- from the function.
  pub query_function_exact :
      (source : ℕ) (q : CflCalleeQuery) (key : String)
      → IsIndexed graph
      → lookup function graph.function_objects ≡ some source
      → query_function graph function ≡ ok q
      → q.metrics.truncated ≡ false
      → IsIn key q.recorded.callsites ↔ (
          (node : ℕ) × Walk graph (source, Phase.forward) (node, Phase.forward)
          × CallsAt graph function node key)
  query_function_exact source q key indexed n e whole =
      let (front, back) = query_function_walks source q key n e whole in
      (
        λ m.
            let (node, w, among) = front m in
            (node, w, (SinkAmong-CallsAt graph function node key indexed).0 among),
        λ (node, w, calls).
            back (node, w, (SinkAmong-CallsAt graph function node key indexed).1 calls),
      )

  query_function_mhs_steps :
      (source : ℕ) (q : CflCalleeQuery) (key : String)
      → lookup function graph.function_objects ≡ some source
      → query_function_mhs graph function ≡ ok q
      → IsIn key q.recorded.callsites
      → IsFoundMhs graph function source key
  query_function_mhs_steps source q key n e m =
      let (run, r, same) = query_function_mhs-search source q n e in
      search_mhs_sound graph function source run key r (rw same at m)

  -- If the call sites stand at their identifiers, each call site that the query with histories finds
  -- is an indirect one whose signature, where the signatures are known, accepts the function's, and a
  -- walk leads from the function to its operand, whose history of memory is empty at both ends: the
  -- walk moves the active offset at a GEP, opens a level of memory where it follows a store or goes
  -- back over a load, and closes one only at a zero or unknown offset. The query may have been
  -- truncated.
  pub query_function_mhs_sound :
      (source : ℕ) (q : CflCalleeQuery) (key : String)
      → IsIndexed graph
      → lookup function graph.function_objects ≡ some source
      → query_function_mhs graph function ≡ ok q
      → IsIn key q.recorded.callsites
      → IsTargetMhs graph function source key
  query_function_mhs_sound source q key indexed n e m =
      let (node, r, among) = query_function_mhs_steps source q key n e m in
      (
        node,
        Reach-WalkMhs graph (origin source) (origin node) r,
        CallsAt-CallsTo graph function node key indexed
            ((SinkAmong-CallsAt graph function node key indexed).0 among),
      )

  -- What the query with histories finds, the query without them finds, unless it was truncated.
  pub query_function_mhs-query_function :
      (q p : CflCalleeQuery) (key : String)
      → query_function_mhs graph function ≡ ok p
      → query_function graph function ≡ ok q
      → q.metrics.truncated ≡ false
      → IsIn key p.recorded.callsites
      → IsIn key q.recorded.callsites
  unfolding query_function_mhs
  query_function_mhs-query_function q p key f e whole m =
      elim (Option-cases (lookup function graph.function_objects)) [
        | inl n ↦
            let same : no_source function ≡ p = ok_eq (rw (query_function_mhs, n) at f) in
            absurd (rw (sym same) at m)
        | inr (source, n) ↦
            let (node, r, among) = query_function_mhs_steps source p key n f m in
            (query_function_walks source q key n e whole).1 (
              node,
              (Reach-iff graph (source, Phase.forward) (node, Phase.forward)).0
                  (Reach-forget graph function (origin source) (origin node) r),
              among,
            )
      ]

  -- No query visits more states than the budget.
  pub visited_states_bound :
      (q p : CflCalleeQuery)
      → query_function graph function ≡ ok q
      → query_function_mhs graph function ≡ ok p
      → (q.metrics.visited_states ≤ cfl_query_state_budget)
        × (p.metrics.visited_states ≤ cfl_query_state_budget)
  unfolding query_function query_function_mhs search_insensitive search_mhs
  visited_states_bound q p e f = elim (Option-cases (lookup function graph.function_objects)) [
    | inl n ↦
        let left : no_source function ≡ q = ok_eq (rw (query_function, n) at e) in
        let right : no_source function ≡ p = ok_eq (rw (query_function_mhs, n) at f) in
        (rw (sym left) (omega arith), rw (sym right) (omega arith))
    | inr (source, n) ↦
        let (run, r, same) = query_function-search source q n e in
        let (run_mhs, s, same_mhs) = query_function_mhs-search source p n f in
        (
          rw same (
              search_budget identity (visit graph function) (step graph) cfl_query_state_budget
                (enough_fuel graph) ((source, Phase.forward) ∷ []) first_run run (omega arith) r),
          rw same_mhs (
              search_budget visit_key (visit_mhs graph function) (step_mhs graph)
                cfl_query_state_budget (enough_fuel graph) (origin source ∷ []) first_run run_mhs
                (omega arith) s),
        )
  ]
