-- ===== src/Solve/Cfl/Graph.antt =====
-- `QueryGraph` of crates/pangs-solve/src/cfl.rs: the edges that carry pointers and the tables over the
-- program assignment graph. The tables of `Vec` and `HashMap` that are filled by loops over the
-- edges and call sites are functions that make the same selection in the same order. An index out
-- of bounds is an error with the message of the panic. The record keeps what the queries read; the
-- tables of parameters, returns and external functions are used in Bindings only.
use tenjin_pangs.Base.{
  ℕ, String, Bool, true, false, Option, none, some, List, [], ◌∷◌, ◌++◌, map, Result, ok, err,
  ◌>>=◌, ◌==◌, nat_eq, string_eq, ◌&&◌, ltb, if◌then◌else◌, keep, lookup, get_elem?, filter_map,
  collect, option_beq,
}
use tenjin_pangs.Solve.Pag.{
  EdgeKind, assign, load, store, Edge, ObjectKind, NodeKind, may_carry_pointer, Node, Signature,
  Callsite, CallKind, Pag, fsa_compatible,
}

pub record QueryEdge : Type 0 where
  pub kind : EdgeKind
  pub src : ℕ
  pub dst : ℕ

pub record QueryGraph : Type 0 where
  pub pag : Pag
  pub edges : List QueryEdge
  pub function_objects : List (String × ℕ)
  pub return_dependencies : List (ℕ × String)
  pub function_signatures : Option (List (String × Signature))

-- Indexing of a vector, which panics out of bounds.
abbrev pub place : {A : Type 0} → Option A → Result A String
place none = err "index out of bounds"
place (some x) = ok x

abbrev pub at : {A : Type 0} → List A → ℕ → Result A String
at xs n = place (get_elem? xs n)

abbrev pub carries : Pag → ℕ → Result Bool String
carries pag n = at pag.nodes n >>= λ node. ok (may_carry_pointer node.value_kind)

-- The second test is made only if the first holds.
abbrev pub pointer_transfer : Pag → ℕ → ℕ → Result Bool String
pointer_transfer pag src dst =
    carries pag src >>= λ first. if first then carries pag dst else ok false

abbrev pub pag_edge_carries_pointer : Pag → Edge → Result Bool String
pag_edge_carries_pointer pag edge = elim edge.kind [
  | assign ↦ pointer_transfer pag edge.src edge.dst
  | load ↦ carries pag edge.dst
  | store ↦ carries pag edge.src
  | _ ↦ ok true
]

abbrev pub query_edge : Edge → QueryEdge
query_edge edge = record { kind = edge.kind; src = edge.src; dst = edge.dst }

unfoldable pub query_edges : Pag → List Edge → Result (List QueryEdge) String
query_edges pag [] = ok []
query_edges pag (edge ∷ more) = pag_edge_carries_pointer pag edge >>= λ carried.
    query_edges pag more >>= λ rest. ok (if carried then query_edge edge ∷ rest else rest)

-- The loop that fills `forward` and `reverse`, which have a place for each node.
unfoldable pub check_endpoints : ℕ → List QueryEdge → Result (Unit {0}) String
check_endpoints nodes [] = ok tt
check_endpoints nodes (edge ∷ more) =
    if ltb edge.src nodes && ltb edge.dst nodes
    then check_endpoints nodes more
    else err "index out of bounds"

abbrev pub function_entry : Node → Option (String × ℕ)
function_entry node = elim node.kind [
  | NodeKind.object ObjectKind.function key owner ↦ some (key, node.id)
  | _ ↦ none
]

abbrev pub return_entry : Node → Option (ℕ × String)
return_entry node = elim node.kind [ NodeKind.return func ↦ some (node.id, func) | _ ↦ none ]

-- The graph over the edges, which the constructor returns.
abbrev pub graph_of : Pag → Option (List (String × Signature)) → List QueryEdge → QueryGraph
graph_of pag signatures edges = record {
  pag = pag;
  edges = edges;
  function_objects = collect [] (filter_map function_entry pag.nodes);
  return_dependencies = collect [] (filter_map return_entry pag.nodes);
  function_signatures = signatures;
}

-- `forward[node]` and `reverse[node]`.
abbrev pub forward_edges : QueryGraph → ℕ → List QueryEdge
forward_edges graph node = keep (λ edge. edge.src == node) graph.edges

abbrev pub reverse_edges : QueryGraph → ℕ → List QueryEdge
reverse_edges graph node = keep (λ edge. edge.dst == node) graph.edges

abbrev pub is_indirect : Callsite → Bool
is_indirect site = elim site.kind [ CallKind.indirect ↦ true | CallKind.direct ↦ false ]

-- `indirect_operands[node]`: the call sites whose operand the node is.
abbrev pub indirect_operands : QueryGraph → ℕ → List ℕ
indirect_operands graph node =
    map (λ site. site.id)
      (keep (λ site. is_indirect site && option_beq site.operand (some node)) graph.pag.callsites)

abbrev pub option_list : {A : Type 0} → Option A → List A
option_list none = []
option_list (some a) = a ∷ []

abbrev pub concat_map : {A B : Type 0} → (A → List B) → List A → List B
concat_map f [] = []
concat_map f (x ∷ xs) = f x ++ concat_map f xs

-- `indirect_call_dependencies[node]`: a call site for each of its arguments and its result that the
-- node is.
abbrev pub indirect_call_dependencies : QueryGraph → ℕ → List ℕ
indirect_call_dependencies graph node =
    concat_map
      (λ site. map (λ n. site.id) (keep (λ n. n == node) (site.args ++ option_list site.result)))
      (keep is_indirect graph.pag.callsites)

-- `compatible_target`.
abbrev pub compatible_target : QueryGraph → String → ℕ → Bool
compatible_target graph function callsite = elim graph.function_signatures [
  | none ↦ true
  | some signatures ↦ elim (lookup function signatures) [
    | none ↦ true
    | some sig ↦ elim (get_elem? graph.pag.callsites callsite) [
      | none ↦ true
      | some site ↦ fsa_compatible site.sig sig
    ]
  ]
]
