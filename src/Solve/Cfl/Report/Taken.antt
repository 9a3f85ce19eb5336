-- ===== src/Solve/Cfl/Report/Taken.antt =====
-- The functions that crates/pangs-solve/src/cfl.rs runs its queries for, `callee_query_function_keys`.
use tenjin_pangs.Base.{
  ℕ, zero, suc, String, true, Option, none, some, List, [], ◌∷◌, ◌≡◌, refl, sym, ◌∙◌, ◌↔◌, inl, inr,
  IsIn, IsIn-filter_map, filter_map-IsIn, contains, contains_iff, filter_map, get_elem?, string_eq,
  if◌then◌else◌, Option-cases, arith,
}
use tenjin_pangs.Solve.Pag.{Pag, Node, NodeKind, ObjectKind, Edge, addr_of}
use tenjin_pangs.Solve.Cfl.Report.{
  function_object_key, function_object_keys, materialized_key, callee_query_function_keys,
}

-- The node is the object of a function of that name.
abbrev pub IsFunctionObject : Node → String → Type 0
IsFunctionObject node key =
    (owner : Option String) × (node.kind ≡ NodeKind.object ObjectKind.function key owner)

-- An edge of the graph takes the address of the object of a function of that name.
abbrev pub IsAddressTaken : Pag → String → Type 0
IsAddressTaken pag key =
    (edge : Edge) × (node : Node) × IsIn edge pag.edges
    × (edge.kind ≡ addr_of)
    × (get_elem? pag.nodes edge.src ≡ some node)
    × IsFunctionObject node key

get_elem?-IsIn : {A : Type 0} (xs : List A) (n : ℕ) (x : A) → get_elem? xs n ≡ some x → IsIn x xs
get_elem?-IsIn [] n x h = cc
get_elem?-IsIn (y ∷ xs) zero x h = inl (sym (some_eq h))
  where
    some_eq : {A : Type 0} {a b : A} → some a ≡ some b → a ≡ b
    some_eq e = cc
get_elem?-IsIn (y ∷ xs) (suc n) x h = inr (get_elem?-IsIn xs n x h)

function_object_key_iff :
    (node : Node) (key : String) → (function_object_key node ≡ some key) ↔ IsFunctionObject node key
function_object_key_iff node key = (by_kind node.kind, λ (owner, e). rw e refl)
  where
    by_kind :
        (kind : NodeKind)
        → (elim kind [ NodeKind.object ObjectKind.function key owner ↦ some key | _ ↦ none ])
          ≡ some key
        → (owner : Option String) × (kind ≡ NodeKind.object ObjectKind.function key owner)
    by_kind (NodeKind.object ObjectKind.function k owner) e = (owner, cc)
    by_kind _ e = ground arith

-- What an edge gives.
abbrev Takes : Pag → Edge → String → Type 0
Takes pag edge key =
    (node : Node) × (edge.kind ≡ addr_of)
    × (get_elem? pag.nodes edge.src ≡ some node)
    × IsFunctionObject node key

addr_of_edge :
    (pag : Pag) (edge : Edge) (key : String)
    → materialized_key pag edge ≡ some key
    → edge.kind ≡ addr_of
addr_of_edge pag edge key e = ground arith

missing_node :
    (pag : Pag) (edge : Edge)
    → edge.kind ≡ addr_of
    → get_elem? pag.nodes edge.src ≡ none
    → materialized_key pag edge ≡ none
missing_node pag edge kind n = ground arith

found_node :
    (pag : Pag) (edge : Edge) (node : Node)
    → edge.kind ≡ addr_of
    → get_elem? pag.nodes edge.src ≡ some node
    → materialized_key pag edge ≡ function_object_key node
found_node pag edge node kind n = ground arith

materialized_key_iff :
    (pag : Pag) (edge : Edge) (key : String)
    → (materialized_key pag edge ≡ some key) ↔ Takes pag edge key
materialized_key_iff pag edge key = (
  λ e.
      let kind = addr_of_edge pag edge key e in
      elim (Option-cases (get_elem? pag.nodes edge.src)) [
        | inl n ↦ let clash : none ≡ some key = sym (missing_node pag edge kind n) ∙ e in cc
        | inr (node, n) ↦ (
          node,
          kind,
          n,
          (function_object_key_iff node key).0 (sym (found_node pag edge node kind n) ∙ e),
        )
      ],
  λ (node, kind, n, is). found_node pag edge node kind n ∙ (function_object_key_iff node key).1 is,
)

-- The filter of the functions by those whose address is taken.
abbrev among : List String → String → Option String
among taken key = if contains taken key then some key else none

among-some :
    (taken : List String) (key k : String)
    → among taken k ≡ some key
    → (k ≡ key) × (contains taken k ≡ true)
among-some taken key k e = ground arith

-- Queries are run for exactly the functions whose address is taken.
pub callee_query_function_keys_iff :
    (pag : Pag) (key : String) → IsIn key (callee_query_function_keys pag) ↔ IsAddressTaken pag key
unfolding callee_query_function_keys
callee_query_function_keys_iff pag key =
    let taken = filter_map (materialized_key pag) pag.edges in
    (
      λ m.
          let (k, there, e) = IsIn-filter_map (among taken) key (function_object_keys pag) m in
          let (same, t) = among-some taken key k e in
          let (edge, stands, q) =
            IsIn-filter_map (materialized_key pag) key pag.edges
              ((contains_iff taken key).0 (rw same at t)) in
          let (node, kind, found, is) = (materialized_key_iff pag edge key).0 q in
          (edge, node, stands, kind, found, is),
      λ (edge, node, stands, kind, found, is).
          let named = (function_object_key_iff node key).1 is in
          let in_keys : IsIn key (function_object_keys pag) =
            filter_map-IsIn function_object_key node key pag.nodes
              (get_elem?-IsIn pag.nodes edge.src node found) named in
          let in_taken : contains taken key ≡ true = (contains_iff taken key).1 (
            filter_map-IsIn (materialized_key pag) edge key pag.edges stands
              ((materialized_key_iff pag edge key).1 (node, kind, found, is))) in
          filter_map-IsIn (among taken) key key (function_object_keys pag) in_keys
            (rw in_taken refl),
    )
