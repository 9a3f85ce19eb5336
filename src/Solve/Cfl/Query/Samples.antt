-- ===== src/Solve/Cfl/Query/Samples.antt =====
-- A graph in which a function is stored in one field and loaded from another, and the answers of the
-- callee queries of crates/pangs-solve/src/cfl.rs for it.
use tenjin_pangs.Base.{ℕ, String, false, none, some, [], ◌∷◌, ok, ◌≡◌, refl, string_eq}
use tenjin_pangs.Base.Int.{pos}
use tenjin_pangs.Solve.Pag.{
  EdgeKind, addr_of, load, store, gep, Edge, ObjectKind, NodeKind, Scope, ValueKind, Node, AbiClass,
  Signature, Callsite, CallKind, Pag,
}
use tenjin_pangs.Solve.Cfl.Bindings.{
  with_signatures, with_indirect_call_targets_and_signatures, binding_edges,
}
use tenjin_pangs.Solve.Cfl.Graph.{QueryGraph, QueryEdge, graph_of, query_edges, check_endpoints}
use tenjin_pangs.Solve.Cfl.Query.{CflCalleeQuery}

abbrev pub value_node : ℕ → Node
value_node id = record {
  id = id;
  kind = NodeKind.value Scope.module_scope;
  value_kind = ValueKind.pointer;
}

abbrev pub handler : Node
handler = record {
  id = 0;
  kind = NodeKind.object ObjectKind.function "handler" none;
  value_kind = ValueKind.pointer;
}

abbrev pub edge : EdgeKind → ℕ → ℕ → Edge
edge kind src dst = record { kind = kind; src = src; dst = dst }

abbrev pub no_arguments : Signature
no_arguments = record { ret = AbiClass.void; params = []; vararg = false; cc = "ccc" }

abbrev pub call : ℕ → String → ℕ → Callsite
call id key operand = record {
  id = id;
  key = key;
  kind = CallKind.indirect;
  operand = some operand;
  args = [];
  result = none;
  sig = no_arguments;
}

-- The handler is stored at offset 8 of node 4; node 3 is loaded from offset 0 and node 6 from 8.
abbrev pub table : Pag
table = record {
  nodes =
      handler
      ∷ value_node 1
      ∷ value_node 2
      ∷ value_node 3
      ∷ value_node 4
      ∷ value_node 5
      ∷ value_node 6
      ∷ [];
  edges =
      edge addr_of 0 1
      ∷ edge (gep (some (pos 8)) none) 4 2
      ∷ edge (gep (some (pos 0)) none) 4 5
      ∷ edge store 1 2
      ∷ edge load 5 3
      ∷ edge load 2 6
      ∷ [];
  callsites = call 0 "main:1" 3 ∷ call 1 "main:2" 6 ∷ [];
  omega_seeds = [];
}

abbrev pub query_edge_of : EdgeKind → ℕ → ℕ → QueryEdge
query_edge_of kind src dst = record { kind = kind; src = src; dst = dst }

abbrev pub fields : QueryGraph
fields = graph_of table none (
    query_edge_of addr_of 0 1
    ∷ query_edge_of (gep (some (pos 8)) none) 4 2
    ∷ query_edge_of (gep (some (pos 0)) none) 4 5
    ∷ query_edge_of store 1 2
    ∷ query_edge_of load 5 3
    ∷ query_edge_of load 2 6
    ∷ [])

pub fields_made : with_signatures table none ≡ ok fields
unfolding with_indirect_call_targets_and_signatures binding_edges query_edges check_endpoints
fields_made = refl

abbrev pub insensitive_answer : CflCalleeQuery
insensitive_answer = record {
  function = "handler";
  source = some 0;
  recorded = record {
    callsites = "main:2" ∷ "main:1" ∷ [];
    dependencies = [];
    return_dependencies = [];
  };
  metrics = record { visited_states = 11; max_worklist = 4; truncated = false };
}

abbrev pub sensitive_answer : CflCalleeQuery
sensitive_answer = record {
  function = "handler";
  source = some 0;
  recorded = record { callsites = "main:2" ∷ []; dependencies = []; return_dependencies = [] };
  metrics = record { visited_states = 10; max_worklist = 4; truncated = false };
}
