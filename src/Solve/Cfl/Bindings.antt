-- ===== src/Solve/Cfl/Bindings.antt =====
-- How crates/pangs-solve/src/cfl.rs makes a query graph: the edges of the assignment graph that carry
-- pointers, and those that bind arguments and results at indirect calls whose targets are known.
use Prim.Native.Nat.{compare}
use tenjin_pangs.Base.{
  ℕ, String, Bool, true, not, Option, none, some, List, [], ◌∷◌, ◌++◌, map, Result, ok, ◌>>=◌,
  nat_eq, string_eq, length, if◌then◌else◌, lookup, get_elem?, filter_map, collect, contains, ◌==◌,
  sort_by,
}
use tenjin_pangs.Solve.Pag.{
  assign, ObjectKind, NodeKind, Node, Signature, Callsite, Pag, fsa_compatible, OmegaSeed,
  OmegaSeedKind, SeedTarget,
}
use tenjin_pangs.Solve.Cfl.Graph.{
  QueryGraph, QueryEdge, query_edges, check_endpoints, graph_of, pointer_transfer, is_indirect,
}

-- The function whose symbol is imported.
abbrev pub external_function_key : Pag → OmegaSeed → Option String
external_function_key pag seed = elim seed.kind [
  | OmegaSeedKind.imported_symbol ↦ elim seed.target [
    | SeedTarget.callsite n ↦ none
    | SeedTarget.node n ↦ elim (get_elem? pag.nodes n) [
      | none ↦ none
      | some node ↦ elim node.kind [
        | NodeKind.object ObjectKind.function key owner ↦ some key
        | _ ↦ none
      ]
    ]
  ]
  | _ ↦ none
]

abbrev pub external_function_keys : Pag → List String
external_function_keys pag = filter_map (external_function_key pag) pag.omega_seeds

abbrev pub param_entry : String → Node → Option (ℕ × ℕ)
param_entry func node = elim node.kind [
  | NodeKind.param of_func index ↦ if of_func == func then some (index, node.id) else none
  | _ ↦ none
]

-- The parameters of a function in the order of their indices; a function without any has no entry
-- in the source, and binds nothing.
unfoldable pub param_nodes : Pag → String → List ℕ
unfolding sort_by
param_nodes pag func =
    map (λ e. e.1)
      (sort_by (λ a b. compare a.0 b.0) (collect [] (filter_map (param_entry func) pag.nodes)))

abbrev pub return_node_entry : Node → Option (String × ℕ)
return_node_entry node = elim node.kind [ NodeKind.return func ↦ some (func, node.id) | _ ↦ none ]

abbrev pub return_nodes : Pag → List (String × ℕ)
return_nodes pag = collect [] (filter_map return_node_entry pag.nodes)

-- The function `compatible_target`, behind `QueryGraph::compatible_target`.
abbrev pub compatible_function : Option (List (String × Signature)) → Callsite → String → Bool
compatible_function none callsite target = true
compatible_function (some signatures) callsite target = elim (lookup target signatures) [
  | none ↦ true
  | some sig ↦ fsa_compatible callsite.sig sig
]

abbrev pub transfer_edges : Pag → ℕ → ℕ → Result (List QueryEdge) String
transfer_edges pag src dst = pointer_transfer pag src dst >>= λ carried.
    ok (if carried then record { kind = assign; src = src; dst = dst } ∷ [] else [])

-- The loop over the zipped arguments and parameters.
abbrev pub argument_edges : Pag → List ℕ → List ℕ → Result (List QueryEdge) String
argument_edges pag [] params = ok []
argument_edges pag (arg ∷ args) [] = ok []
argument_edges pag (arg ∷ args) (param ∷ params) = transfer_edges pag arg param >>= λ edges.
    argument_edges pag args params >>= λ rest. ok (edges ++ rest)

abbrev pub result_edges : Pag → Option ℕ → Option ℕ → Result (List QueryEdge) String
result_edges pag none ret = ok []
result_edges pag (some result) none = ok []
result_edges pag (some result) (some ret) = transfer_edges pag ret result

unfoldable pub target_edges :
    Pag
    → Option (List (String × Signature))
    → Callsite
    → List String
    → Result (List QueryEdge) String
target_edges pag signatures callsite [] = ok []
target_edges pag signatures callsite (target ∷ targets) =
    (if contains (external_function_keys pag) target
      then ok []
      else if not (compatible_function signatures callsite target)
      then ok []
      else (argument_edges pag callsite.args (param_nodes pag target) >>= λ edges.
          result_edges pag callsite.result (lookup target (return_nodes pag)) >>= λ more.
          ok (edges ++ more)))
    >>= λ first. target_edges pag signatures callsite targets >>= λ rest. ok (first ++ rest)

-- `append_indirect_call_binding_edges`, the edges it appends.
unfoldable pub binding_edges :
    Pag
    → Option (List (String × Signature))
    → List (ℕ × List String)
    → Result (List QueryEdge) String
binding_edges pag signatures [] = ok []
binding_edges pag signatures ((site, targets) ∷ more) =
    elim (get_elem? pag.callsites site) [
      | none ↦ ok []
      | some callsite ↦
          if is_indirect callsite then target_edges pag signatures callsite targets else ok []
    ]
    >>= λ first. binding_edges pag signatures more >>= λ rest. ok (first ++ rest)

unfoldable pub with_indirect_call_targets_and_signatures :
    Pag → List (ℕ × List String) → Option (List (String × Signature)) → Result QueryGraph String
with_indirect_call_targets_and_signatures pag targets signatures =
    query_edges pag pag.edges >>= λ own. binding_edges pag signatures targets >>= λ bound.
    check_endpoints (length pag.nodes) (own ++ bound) >>= λ done.
    ok (graph_of pag signatures (own ++ bound))

-- `QueryGraph::with_signatures`: no targets are known.
abbrev pub with_signatures : Pag → Option (List (String × Signature)) → Result QueryGraph String
with_signatures pag signatures = with_indirect_call_targets_and_signatures pag [] signatures
