-- ===== src/Solve/Cfl/Query.antt =====
-- The two callee queries of crates/pangs-solve/src/cfl.rs, `query_function` and `query_function_mhs`.
-- A set of strings is a list without repetitions, whose order is left open.
pub mod States
pub mod Visit
pub mod Calm
pub mod Places
pub mod Calls
pub mod Walk
pub mod Histories
pub mod Follows
pub mod Answers
pub mod Insensitive
pub mod Sensitive
pub mod Samples
mod Tests
mod Dropped
use tenjin_pangs.Base.{
  ℕ, ◌+◌, ◌*◌, String, Bool, true, false, Option, none, some, List, [], ◌∷◌, map, Result, ok, err,
  ◌>>=◌, Eq, ◌==◌, nat_eq, string_eq, length, ltb, if◌then◌else◌, lookup, insert_new, filter_map,
  is_empty, map_err, ensure, suc, ◌&&◌,
}
use tenjin_pangs.Base.Int.{ℤ, pos, negsuc, saturating_add, saturating_mul, beq_ℤ}
use tenjin_pangs.Solve.Pag.{EdgeKind, addr_of, assign, load, store, gep, memcpy}
use tenjin_pangs.Solve.Cfl.Graph.{
  QueryGraph, QueryEdge, at, forward_edges, reverse_edges, indirect_operands,
  indirect_call_dependencies, compatible_target,
}
use tenjin_pangs.Solve.Cfl.Search.{Stop, panicked, Run, search}
use tenjin_pangs.Solve.Cfl.Query.States.{
  Phase, forward, backward, phase_eq, MhsState, MhsVisitState, visit_key, next, push, pop_if_zero,
  adjust, pair_eq, visit_eq,
}

-- `CFL_QUERY_STATE_BUDGET`.
abbrev pub cfl_query_state_budget : ℕ
cfl_query_state_budget = 25000

pub record CflQueryMetrics : Type 0 where
  pub visited_states : ℕ
  pub max_worklist : ℕ
  pub truncated : Bool

-- What a query has recorded.
pub record Recorded : Type 0 where
  pub callsites : List String
  pub dependencies : List String
  pub return_dependencies : List String

-- The three sets of the source are the fields of `recorded`.
pub record CflCalleeQuery : Type 0 where
  pub function : String
  pub source : Option ℕ
  pub recorded : Recorded
  pub metrics : CflQueryMetrics

abbrev pub nothing_recorded : Recorded
nothing_recorded = record { callsites = []; dependencies = []; return_dependencies = [] }

-- The steps push a state for each edge, in the order of the edges.
abbrev pub forward_successor : QueryEdge → ℕ × Phase
forward_successor edge = elim edge.kind [ store ↦ (edge.dst, backward) | _ ↦ (edge.dst, forward) ]

abbrev pub step_forward : QueryGraph → ℕ → List (ℕ × Phase)
step_forward graph node = map forward_successor (forward_edges graph node)

-- `backward_edge` holds of every kind of edge.
abbrev pub backward_edge : QueryEdge → Bool
backward_edge edge = elim edge.kind [
  | addr_of ↦ true
  | assign ↦ true
  | load ↦ true
  | store ↦ true
  | gep off l ↦ true
  | memcpy bytes ↦ true
]

abbrev pub backward_successor : QueryEdge → Option (ℕ × Phase)
backward_successor edge = if backward_edge edge then some (edge.src, backward) else none

abbrev pub step_backward : QueryGraph → ℕ → List (ℕ × Phase)
step_backward graph node =
    (node, forward) ∷ filter_map backward_successor (reverse_edges graph node)

abbrev pub step : QueryGraph → ℕ × Phase → List (ℕ × Phase)
step graph (node, forward) = step_forward graph node
step graph (node, backward) = step_backward graph node

abbrev pub forward_successor_mhs : MhsState → QueryEdge → Option MhsState
forward_successor_mhs state edge = elim edge.kind [
  | addr_of ↦ some (next state edge.dst forward)
  | assign ↦ some (next state edge.dst forward)
  | memcpy bytes ↦ some (next state edge.dst forward)
  | gep byte_off l ↦ some (adjust state edge.dst forward byte_off (negsuc 0))
  | store ↦ some (push state edge.dst backward)
  | load ↦ pop_if_zero state edge.dst forward
]

abbrev pub step_forward_mhs : QueryGraph → MhsState → List MhsState
step_forward_mhs graph state =
    filter_map (forward_successor_mhs state) (forward_edges graph state.node)

abbrev pub backward_successor_mhs : MhsState → QueryEdge → Option MhsState
backward_successor_mhs state edge = elim edge.kind [
  | addr_of ↦ some (next state edge.src backward)
  | assign ↦ some (next state edge.src backward)
  | memcpy bytes ↦ some (next state edge.src backward)
  | gep byte_off l ↦ some (adjust state edge.src backward byte_off (pos 1))
  | load ↦ some (push state edge.src backward)
  | store ↦ pop_if_zero state edge.src backward
]

abbrev pub step_backward_mhs : QueryGraph → MhsState → List MhsState
step_backward_mhs graph state =
    next state state.node forward
    ∷ filter_map (backward_successor_mhs state) (reverse_edges graph state.node)

abbrev pub step_mhs : QueryGraph → MhsState → List MhsState
step_mhs graph state = elim state.phase [
  | forward ↦ step_forward_mhs graph state
  | backward ↦ step_backward_mhs graph state
]

-- The keys of the call sites, which are read at their places.
abbrev pub record_keys : QueryGraph → List ℕ → List String → Result (List String) String
record_keys graph [] keys = ok keys
record_keys graph (site ∷ sites) keys = at graph.pag.callsites site >>= λ callsite.
    record_keys graph sites (insert_new callsite.key keys)

abbrev pub insert_option : Option String → List String → List String
insert_option none keys = keys
insert_option (some key) keys = insert_new key keys

unfoldable pub record_dependencies : QueryGraph → ℕ → Recorded → Result Recorded String
record_dependencies graph node out =
    record_keys graph (indirect_call_dependencies graph node) out.dependencies >>= λ keys.
    ok (record {
      callsites = out.callsites;
      dependencies = keys;
      return_dependencies =
          insert_option (lookup node graph.return_dependencies) out.return_dependencies;
    })

-- `record_callsite_sink` at each of the sites.
abbrev pub record_callsite_sinks :
    QueryGraph → String → List ℕ → List String → Result (List String) String
record_callsite_sinks graph function [] keys = ok keys
record_callsite_sinks graph function (site ∷ sites) keys =
    if compatible_target graph function site
    then (at graph.pag.callsites site >>= λ callsite.
        record_callsite_sinks graph function sites (insert_new callsite.key keys))
    else record_callsite_sinks graph function sites keys

unfoldable pub record_sinks : QueryGraph → String → Bool → ℕ → Recorded → Result Recorded String
record_sinks graph function is_sink node out =
    if is_sink
    then (record_callsite_sinks graph function (indirect_operands graph node) out.callsites
        >>= λ keys. ok (record {
          callsites = keys;
          dependencies = out.dependencies;
          return_dependencies = out.return_dependencies;
        }))
    else ok out

-- The tables of edges are indexed.
abbrev pub in_table : Bool → Recorded → Result Recorded String
in_table true out = ok out
in_table false out = err "index out of bounds"

-- What a round does at a node before the step, which panics at a node without a place.
unfoldable pub visit_node : QueryGraph → String → Bool → ℕ → Recorded → Result Recorded String
visit_node graph function is_sink node out = record_dependencies graph node out >>= λ noted.
    record_sinks graph function is_sink node noted >>= λ done.
    in_table (ltb node (length graph.pag.nodes)) done

abbrev pub is_forward : Phase → Bool
is_forward forward = true
is_forward backward = false

abbrev pub visit : QueryGraph → String → ℕ × Phase → Recorded → Result Recorded String
visit graph function (node, phase) = visit_node graph function (is_forward phase) node

abbrev pub visit_mhs : QueryGraph → String → MhsState → Recorded → Result Recorded String
visit_mhs graph function s =
    visit_node graph function (is_forward s.phase && is_empty s.stack) s.node

-- Rounds enough for both queries: a step adds at most a state for each edge and one for the node.
abbrev pub enough_fuel : QueryGraph → ℕ
enough_fuel graph = 1 + cfl_query_state_budget * suc (length graph.edges)

abbrev pub first_run : {Key : Type 0} → Run Key Recorded
first_run = record { visited = []; max_worklist = 0; truncated = false; out = nothing_recorded }

abbrev pub no_source : String → CflCalleeQuery
no_source function = record {
  function = function;
  source = none;
  recorded = nothing_recorded;
  metrics = record { visited_states = 0; max_worklist = 0; truncated = false };
}

abbrev pub answer_of : {Key : Type 0} → String → ℕ → Run Key Recorded → CflCalleeQuery
answer_of function source run = record {
  function = function;
  source = some source;
  recorded = run.out;
  metrics = record {
    visited_states = length run.visited;
    max_worklist = run.max_worklist;
    truncated = run.truncated;
  };
}

abbrev pub identity : {A : Type 0} → A → A
identity a = a

unfoldable pub search_insensitive : QueryGraph → String → ℕ → Result (Run (ℕ × Phase) Recorded) Stop
search_insensitive graph function source =
    search identity (visit graph function) (step graph) cfl_query_state_budget (enough_fuel graph)
      ((source, forward) ∷ []) first_run

unfoldable pub search_mhs : QueryGraph → String → ℕ → Result (Run MhsVisitState Recorded) Stop
search_mhs graph function source =
    search visit_key (visit_mhs graph function) (step_mhs graph) cfl_query_state_budget
      (enough_fuel graph) (record { node = source; phase = forward; stack = [] } ∷ []) first_run

unfoldable pub query_function : QueryGraph → String → Result CflCalleeQuery Stop
query_function graph function = elim (lookup function graph.function_objects) [
  | none ↦ ok (no_source function)
  | some source ↦
      search_insensitive graph function source >>= λ run. ok (answer_of function source run)
]

unfoldable pub query_function_mhs : QueryGraph → String → Result CflCalleeQuery Stop
query_function_mhs graph function = elim (lookup function graph.function_objects) [
  | none ↦ ok (no_source function)
  | some source ↦ search_mhs graph function source >>= λ run. ok (answer_of function source run)
]
