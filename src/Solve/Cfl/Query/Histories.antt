-- ===== src/Solve/Cfl/Query/Histories.antt =====
-- The walks that `query_function_mhs` of crates/pangs-solve/src/cfl.rs searches: value flow with a
-- history of the memory that the value was stored in.
use tenjin_pangs.Base.{ℕ, Option, none, some, List, [], ◌∷◌, ◌≡◌, ◌⊎◌, IsIn, nat_eq}
use tenjin_pangs.Base.Int.{ℤ, pos, negsuc, ◌+ℤ◌, ◌-ℤ◌, ◌≤ℤ◌, i64_max}
use tenjin_pangs.Solve.Lane.{GepLane}
use tenjin_pangs.Solve.Pag.{EdgeKind, addr_of, assign, load, store, gep, memcpy}
use tenjin_pangs.Solve.Cfl.Graph.{QueryGraph, QueryEdge}
use tenjin_pangs.Solve.Cfl.Query.States.{Phase, forward, backward, Offset, known, top, MhsState}

-- The second integer is the `i64` nearest to the first.
abbrev pub Clamps : ℤ → ℤ → Type 0
Clamps x m =
    (negsuc i64_max ≤ℤ x) × (x ≤ℤ pos i64_max) × (m ≡ x)
    ⊎ (pos i64_max ≤ℤ x) × (m ≡ pos i64_max)
    ⊎ (x ≤ℤ negsuc i64_max) × (m ≡ negsuc i64_max)

-- How far a GEP moves the active offset: against its own offset forward, with it backward.
abbrev pub Moved : Phase → ℤ → ℤ → Type 0
Moved forward off d = Clamps (pos 0 -ℤ off) d
Moved backward off d = Clamps off d

-- A GEP moves the active offset, which is unknown afterwards if it was, or if the GEP's is.
pub data Shifts (phase : Phase) : Option ℤ → List Offset → List Offset → Type 0 where
  nothing_active : (off : Option ℤ) → Shifts phase off [] []
  unknown_active :
      (off : Option ℤ) (rest : List Offset) → Shifts phase off (top ∷ rest) (top ∷ rest)
  unknown_shift : (n : ℤ) (rest : List Offset) → Shifts phase none (known n ∷ rest) (top ∷ rest)
  shift :
      (n off d m : ℤ) (rest : List Offset)
      → Moved phase off d
      → Clamps (n +ℤ d) m
      → Shifts phase (some off) (known n ∷ rest) (known m ∷ rest)

-- An access closes the active level of memory, whose offset is zero or unknown; without a level the
-- history stays.
pub data Closes : List Offset → List Offset → Type 0 where
  nothing_open : Closes [] []
  at_zero : (rest : List Offset) → Closes (known (pos 0) ∷ rest) rest
  at_unknown : (rest : List Offset) → Closes (top ∷ rest) rest

abbrev pub IsCopy : EdgeKind → Type 0
IsCopy kind = (kind ≡ addr_of) ⊎ (kind ≡ assign) ⊎ (bytes : Option ℕ) × (kind ≡ memcpy bytes)

abbrev pub state_at : ℕ → Phase → List Offset → MhsState
state_at node phase stack = record { node = node; phase = phase; stack = stack }

-- One move along an edge, or from backward to forward at a node. A store forward and a load backward
-- open a level of memory at offset zero; a load forward and a store backward close one.
pub data MovesMhs (graph : QueryGraph) : MhsState → MhsState → Type 0 where
  copies :
      (edge : QueryEdge) (stack : List Offset)
      → IsIn edge graph.edges
      → IsCopy edge.kind
      → MovesMhs graph (state_at edge.src forward stack) (state_at edge.dst forward stack)
  shifts :
      (edge : QueryEdge) (off : Option ℤ) (stack rest : List Offset)
      → IsIn edge graph.edges
      → (l : Option GepLane) × (edge.kind ≡ gep off l)
      → Shifts forward off stack rest
      → MovesMhs graph (state_at edge.src forward stack) (state_at edge.dst forward rest)
  stores :
      (edge : QueryEdge) (stack : List Offset)
      → IsIn edge graph.edges
      → edge.kind ≡ store
      → MovesMhs graph
          (state_at edge.src forward stack)
          (state_at edge.dst backward (known (pos 0) ∷ stack))
  loads :
      (edge : QueryEdge) (stack rest : List Offset)
      → IsIn edge graph.edges
      → edge.kind ≡ load
      → Closes stack rest
      → MovesMhs graph (state_at edge.src forward stack) (state_at edge.dst forward rest)
  copied_from :
      (edge : QueryEdge) (stack : List Offset)
      → IsIn edge graph.edges
      → IsCopy edge.kind
      → MovesMhs graph (state_at edge.dst backward stack) (state_at edge.src backward stack)
  shifted_from :
      (edge : QueryEdge) (off : Option ℤ) (stack rest : List Offset)
      → IsIn edge graph.edges
      → (l : Option GepLane) × (edge.kind ≡ gep off l)
      → Shifts backward off stack rest
      → MovesMhs graph (state_at edge.dst backward stack) (state_at edge.src backward rest)
  loaded_from :
      (edge : QueryEdge) (stack : List Offset)
      → IsIn edge graph.edges
      → edge.kind ≡ load
      → MovesMhs graph
          (state_at edge.dst backward stack)
          (state_at edge.src backward (known (pos 0) ∷ stack))
  stored_from :
      (edge : QueryEdge) (stack rest : List Offset)
      → IsIn edge graph.edges
      → edge.kind ≡ store
      → Closes stack rest
      → MovesMhs graph (state_at edge.dst backward stack) (state_at edge.src backward rest)
  turns :
      (node : ℕ) (stack : List Offset)
      → MovesMhs graph (state_at node backward stack) (state_at node forward stack)

pub data WalkMhs (graph : QueryGraph) (start : MhsState) : MhsState → Type 0 where
  stays : WalkMhs graph start start
  moves : {s t : MhsState} → WalkMhs graph start s → MovesMhs graph s t → WalkMhs graph start t
