-- ===== src/Solve/Cfl/Query/Follows.antt =====
-- The steps of `query_function_mhs` of crates/pangs-solve/src/cfl.rs follow the walks with a history.
use tenjin_pangs.Base.{
  ℕ, zero, suc, Option, none, some, List, [], ◌∷◌, ◌≡◌, refl, sym, ◌∙◌, inl, inr, IsIn, IsIn-keep,
  IsIn-filter_map, ◌==◌, nat_eq, eq_of_beq, arith,
}
use tenjin_pangs.Base.Int.{
  ℤ, pos, negsuc, ◌+ℤ◌, ◌-ℤ◌, ◌*ℤ◌, saturate, saturating_add, saturating_mul,
}
use tenjin_pangs.Solve.Pag.{EdgeKind, addr_of, assign, load, store, gep, memcpy}
use tenjin_pangs.Solve.Cfl.Graph.{QueryGraph, forward_edges, reverse_edges}
use tenjin_pangs.Solve.Cfl.Search.Sound.{Reach, here, further}
use tenjin_pangs.Solve.Cfl.Query.{step_mhs, forward_successor_mhs, backward_successor_mhs}
use tenjin_pangs.Solve.Cfl.Query.States.{
  Phase, forward, backward, Offset, known, top, MhsState, pop_if_zero, adjust,
}
use tenjin_pangs.Solve.Cfl.Query.Histories.{
  Clamps, Moved, Shifts, nothing_active, unknown_active, unknown_shift, shift, Closes, nothing_open,
  at_zero, at_unknown, state_at, MovesMhs, copies, shifts, stores, loads, copied_from, shifted_from,
  loaded_from, stored_from, turns, WalkMhs, stays, moves,
}

saturate-Clamps : (x : ℤ) → Clamps x (saturate x)
saturate-Clamps x = ground arith

forward_sign : (off : ℤ) → negsuc 0 *ℤ off ≡ pos 0 -ℤ off
unfolding ◌*ℤ◌ ◌-ℤ◌
forward_sign off = ground arith

backward_sign : (off : ℤ) → pos 1 *ℤ off ≡ off
unfolding ◌*ℤ◌
backward_sign off = ground arith

-- The sign that the code takes in the given phase.
abbrev sign_of : Phase → ℤ
sign_of forward = negsuc 0
sign_of backward = pos 1

saturating_mul-Moved :
    (phase : Phase) (off : ℤ) → Moved phase off (saturating_mul (sign_of phase) off)
saturating_mul-Moved forward off =
    rw (forward_sign off, saturating_mul) (saturate-Clamps (pos 0 -ℤ off))
saturating_mul-Moved backward off = rw (backward_sign off, saturating_mul) (saturate-Clamps off)

adjust-Shifts :
    (phase : Phase) (node : ℕ) (from : Phase) (off : Option ℤ) (to : ℕ) (stack : List Offset)
    → (rest : List Offset) × (adjust (state_at node from stack) to phase off (sign_of phase)
        ≡ state_at to phase rest)
      × Shifts phase off stack rest
adjust-Shifts phase node from off to [] = ([], refl, nothing_active off)
adjust-Shifts phase node from off to (top ∷ rest) = (top ∷ rest, refl, unknown_active off rest)
adjust-Shifts phase node from none to (known n ∷ rest) = (top ∷ rest, refl, unknown_shift n rest)
adjust-Shifts phase node from (some off) to (known n ∷ rest) =
    let d = saturating_mul (sign_of phase) off in
    (
      known (saturating_add n d) ∷ rest,
      refl,
      shift n off d (saturating_add n d) rest (saturating_mul-Moved phase off)
          (saturate-Clamps (n +ℤ d)),
    )

pop_if_zero-Closes :
    (node : ℕ) (from : Phase) (stack : List Offset) (to : ℕ) (phase : Phase) (t : MhsState)
    → pop_if_zero (state_at node from stack) to phase ≡ some t
    → (rest : List Offset) × (state_at to phase rest ≡ t) × Closes stack rest
pop_if_zero-Closes node from [] to phase t e = ([], ground arith, nothing_open)
pop_if_zero-Closes node from (top ∷ rest) to phase t e = (rest, ground arith, at_unknown rest)
pop_if_zero-Closes node from (known (pos zero) ∷ rest) to phase t e =
    (rest, ground arith, at_zero rest)
pop_if_zero-Closes node from (known (pos (suc n)) ∷ rest) to phase t e = ground arith
pop_if_zero-Closes node from (known (negsuc n) ∷ rest) to phase t e = ground arith

some_eq : {A : Type 0} {a b : A} → some a ≡ some b → a ≡ b
some_eq e = cc

module _ (graph : QueryGraph) where
  forward-MovesMhs :
      (kind : EdgeKind) (src dst : ℕ) (stack : List Offset) (t : MhsState)
      → IsIn (record { kind = kind; src = src; dst = dst }) graph.edges
      → forward_successor_mhs
          (state_at src forward stack)
          (record { kind = kind; src = src; dst = dst })
        ≡ some t
      → MovesMhs graph (state_at src forward stack) t
  forward-MovesMhs addr_of src dst stack t m e = rw (← some_eq e) (copies _ stack m (inl refl))
  forward-MovesMhs assign src dst stack t m e = rw (← some_eq e) (copies _ stack m (inr (inl refl)))
  forward-MovesMhs (memcpy bytes) src dst stack t m e =
      rw (← some_eq e) (copies _ stack m (inr (inr (bytes, refl))))
  forward-MovesMhs (gep off l) src dst stack t m e =
      let (rest, q, shifted) = adjust-Shifts forward src forward off dst stack in
      rw (← sym q ∙ some_eq e) (shifts _ off stack rest m (l, refl) shifted)
  forward-MovesMhs store src dst stack t m e = rw (← some_eq e) (stores _ stack m refl)
  forward-MovesMhs load src dst stack t m e =
      let (rest, q, closed) = pop_if_zero-Closes src forward stack dst forward t e in
      rw (← q) (loads _ stack rest m refl closed)

  backward-MovesMhs :
      (kind : EdgeKind) (src dst : ℕ) (stack : List Offset) (t : MhsState)
      → IsIn (record { kind = kind; src = src; dst = dst }) graph.edges
      → backward_successor_mhs
          (state_at dst backward stack)
          (record { kind = kind; src = src; dst = dst })
        ≡ some t
      → MovesMhs graph (state_at dst backward stack) t
  backward-MovesMhs addr_of src dst stack t m e =
      rw (← some_eq e) (copied_from _ stack m (inl refl))
  backward-MovesMhs assign src dst stack t m e =
      rw (← some_eq e) (copied_from _ stack m (inr (inl refl)))
  backward-MovesMhs (memcpy bytes) src dst stack t m e =
      rw (← some_eq e) (copied_from _ stack m (inr (inr (bytes, refl))))
  backward-MovesMhs (gep off l) src dst stack t m e =
      let (rest, q, shifted) = adjust-Shifts backward dst backward off src stack in
      rw (← sym q ∙ some_eq e) (shifted_from _ off stack rest m (l, refl) shifted)
  backward-MovesMhs load src dst stack t m e = rw (← some_eq e) (loaded_from _ stack m refl)
  backward-MovesMhs store src dst stack t m e =
      let (rest, q, closed) = pop_if_zero-Closes dst backward stack src backward t e in
      rw (← q) (stored_from _ stack rest m refl closed)

  step_mhs-MovesMhs :
      (node : ℕ) (phase : Phase) (stack : List Offset) (t : MhsState)
      → IsIn t (step_mhs graph (state_at node phase stack))
      → MovesMhs graph (state_at node phase stack) t
  step_mhs-MovesMhs node forward stack t m =
      let (edge, among, e) =
        IsIn-filter_map (forward_successor_mhs (state_at node forward stack)) t
          (forward_edges graph node) m in
      let (there, q) = (IsIn-keep (λ edge. edge.src == node) edge graph.edges).0 among in
      let from : edge.src ≡ node = eq_of_beq edge.src node q in
      rw from at (forward-MovesMhs edge.kind edge.src edge.dst stack t there (rw (← from) at e))
  step_mhs-MovesMhs node backward stack t (inl e) = rw e (turns node stack)
  step_mhs-MovesMhs node backward stack t (inr m) =
      let (edge, among, e) =
        IsIn-filter_map (backward_successor_mhs (state_at node backward stack)) t
          (reverse_edges graph node) m in
      let (there, q) = (IsIn-keep (λ edge. edge.dst == node) edge graph.edges).0 among in
      let from : edge.dst ≡ node = eq_of_beq edge.dst node q in
      rw from at (backward-MovesMhs edge.kind edge.src edge.dst stack t there (rw (← from) at e))

  -- What the steps of the query lead to, a walk leads to.
  pub Reach-WalkMhs : (s t : MhsState) → Reach (step_mhs graph) s t → WalkMhs graph s t
  Reach-WalkMhs s t here = stays
  Reach-WalkMhs s t (further {s = u} r m) =
      moves (Reach-WalkMhs s u r) (step_mhs-MovesMhs u.node u.phase u.stack t m)
