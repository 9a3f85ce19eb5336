-- ===== src/Solve/Cfl/Query/Calm.antt =====
-- Over a graph whose call sites stand at their identifiers, a round of the callee queries of
-- crates/pangs-solve/src/cfl.rs does not panic at a node that has a place.
use tenjin_pangs.Base.{
  ℕ, String, Bool, true, false, some, List, [], ◌∷◌, ◌++◌, map, ok, ◌≡◌, refl, ◌∙◌, ◌<◌, arith,
  IsIn, IsIn-map, IsIn-keep, IsIn-append, Bool-cases, inl, inr, get_elem?, insert_new, length, ltb,
  string_eq, keep, nat_eq, ◌==◌, ◌&&◌, option_beq, ap, lookup,
}
use tenjin_pangs.Solve.Pag.{Callsite}
use tenjin_pangs.Solve.Cfl.Graph.{
  QueryGraph, compatible_target, indirect_operands, indirect_call_dependencies, concat_map,
  option_list, is_indirect,
}
use tenjin_pangs.Solve.Cfl.Query.{
  insert_option, Recorded, record_callsite_sinks, record_keys, record_dependencies, record_sinks,
  visit_node,
}

-- `validate` of the program assignment graph reports a call site whose identifier is not its place.
abbrev pub IsIndexed : QueryGraph → Type 0
IsIndexed graph =
    (site : Callsite)
    → IsIn site graph.pag.callsites
    → get_elem? graph.pag.callsites site.id ≡ some site

-- Every one of the sites has its place.
abbrev Placed : QueryGraph → List ℕ → Type 0
Placed graph sites =
    (site : ℕ) → IsIn site sites → (c : Callsite) × (get_elem? graph.pag.callsites site ≡ some c)

IsIn-concat_map :
    {A B : Type 0} (f : A → List B) (b : B) (xs : List A)
    → IsIn b (concat_map f xs)
    → (a : A) × IsIn a xs × IsIn b (f a)
IsIn-concat_map f b [] m = absurd m
IsIn-concat_map f b (x ∷ xs) m = elim (IsIn-append b (f x) (concat_map f xs) m) [
  | inl h ↦ (x, inl refl, h)
  | inr h ↦ let (a, p, q) = IsIn-concat_map f b xs h in (a, inr p, q)
]

module _ (graph : QueryGraph) (function : String) where
  operands-Placed : (node : ℕ) → IsIndexed graph → Placed graph (indirect_operands graph node)
  operands-Placed node indexed site m =
      let (c, among, e) =
        IsIn-map (λ s. s.id) site
          (keep (λ s. is_indirect s && option_beq s.operand (some node)) graph.pag.callsites) m in
      (
        c,
        ap (λ n. get_elem? graph.pag.callsites n) e
            ∙ indexed c
                ((IsIn-keep (λ s. is_indirect s && option_beq s.operand (some node)) c
                    graph.pag.callsites).0
                  among).0,
      )

  dependencies-Placed :
      (node : ℕ) → IsIndexed graph → Placed graph (indirect_call_dependencies graph node)
  dependencies-Placed node indexed site m =
      let uses = λ (s : Callsite). keep (λ n. n == node) (s.args ++ option_list s.result) in
      let (c, among, q) =
        IsIn-concat_map (λ s. map (λ n. s.id) (uses s)) site (keep is_indirect graph.pag.callsites)
          m in
      let (n, used, e) = IsIn-map (λ n. c.id) site (uses c) q in
      (
        c,
        ap (λ n. get_elem? graph.pag.callsites n) e
            ∙ indexed c ((IsIn-keep is_indirect c graph.pag.callsites).0 among).0,
      )

  record_keys_total :
      (sites : List ℕ) (keys : List String)
      → Placed graph sites
      → (last : List String) × (record_keys graph sites keys ≡ ok last)
  record_keys_total [] keys h = (keys, refl)
  record_keys_total (site ∷ sites) keys h =
      let (c, found) = h site (inl refl) in
      let (last, e) = record_keys_total sites (insert_new c.key keys) (λ n m. h n (inr m)) in
      (last, rw (record_keys, found) e)

  record_callsite_sinks_total :
      (sites : List ℕ) (keys : List String)
      → Placed graph sites
      → (last : List String) × (record_callsite_sinks graph function sites keys ≡ ok last)
  record_callsite_sinks_total [] keys h = (keys, refl)
  record_callsite_sinks_total (site ∷ sites) keys h =
      elim (Bool-cases (compatible_target graph function site)) [
        | inl t ↦
            let (c, found) = h site (inl refl) in
            let (last, e) =
              record_callsite_sinks_total sites (insert_new c.key keys) (λ n m. h n (inr m)) in
            (last, rw (record_callsite_sinks, t, found) e)
        | inr f ↦
            let (last, e) = record_callsite_sinks_total sites keys (λ n m. h n (inr m)) in
            (last, rw (record_callsite_sinks, f) e)
      ]

  record_dependencies_total :
      (node : ℕ) (o : Recorded)
      → IsIndexed graph
      → (p : Recorded) × (record_dependencies graph node o ≡ ok p)
  unfolding record_dependencies
  record_dependencies_total node o indexed =
      let (keys, e) =
        record_keys_total (indirect_call_dependencies graph node) o.dependencies
          (dependencies-Placed node indexed) in
      (
        record {
          callsites = o.callsites;
          dependencies = keys;
          return_dependencies =
              insert_option (lookup node graph.return_dependencies) o.return_dependencies;
        },
        rw e refl,
      )

  record_sinks_total :
      (is_sink : Bool) (node : ℕ) (o : Recorded)
      → IsIndexed graph
      → (p : Recorded) × (record_sinks graph function is_sink node o ≡ ok p)
  unfolding record_sinks
  record_sinks_total false node o indexed = (o, refl)
  record_sinks_total true node o indexed =
      let (keys, e) =
        record_callsite_sinks_total (indirect_operands graph node) o.callsites
          (operands-Placed node indexed) in
      (
        record {
          callsites = keys;
          dependencies = o.dependencies;
          return_dependencies = o.return_dependencies;
        },
        rw e refl,
      )

  -- A visit of a node with a place does not panic.
  pub visit_node_total :
      (is_sink : Bool) (node : ℕ) (o : Recorded)
      → IsIndexed graph
      → node < length graph.pag.nodes
      → (p : Recorded) × (visit_node graph function is_sink node o ≡ ok p)
  unfolding visit_node
  visit_node_total is_sink node o indexed h =
      let (noted, first) = record_dependencies_total node o indexed in
      let (done, second) = record_sinks_total is_sink node noted indexed in
      let inside : ltb node (length graph.pag.nodes) ≡ true = ground arith in
      (done, rw (first, second, inside) refl)
