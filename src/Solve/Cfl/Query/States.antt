-- ===== src/Solve/Cfl/Query/States.antt =====
-- The states of the queries of crates/pangs-solve/src/cfl.rs.
use tenjin_pangs.Base.{
  ℕ, Bool, true, false, Option, none, some, List, [], ◌∷◌, Eq, ◌==◌, nat_eq, ◌≡◌, ◌↔◌, ◌&&◌, arith,
  first, if◌then◌else◌, option_beq, option_beq_iff,
}
use tenjin_pangs.Base.Int.{ℤ, pos, saturating_add, saturating_mul, beq_ℤ}

pub data Phase : Type 0 where
  forward : Phase
  backward : Phase

pub data Offset : Type 0 where
  known : ℤ → Offset
  top : Offset

-- The memory history: its last offset, the active one, is at the head.
pub record MhsState : Type 0 where
  pub node : ℕ
  pub phase : Phase
  pub stack : List Offset

pub record MhsVisitState : Type 0 where
  pub node : ℕ
  pub phase : Phase
  pub top : Option Offset

abbrev pub visit_key : MhsState → MhsVisitState
visit_key s = record { node = s.node; phase = s.phase; top = first s.stack }

abbrev pub next : MhsState → ℕ → Phase → MhsState
next s node phase = record { node = node; phase = phase; stack = s.stack }

abbrev pub push : MhsState → ℕ → Phase → MhsState
push s node phase = record { node = node; phase = phase; stack = known (pos 0) ∷ s.stack }

-- The offset closes a level of memory.
abbrev pub is_zero : Offset → Bool
is_zero top = true
is_zero (known n) = beq_ℤ n (pos 0)

abbrev pub pop_if_zero : MhsState → ℕ → Phase → Option MhsState
pop_if_zero s node phase = elim s.stack [
  | [] ↦ some (next s node phase)
  | offset ∷ rest ↦
      if is_zero offset then some (record { node = node; phase = phase; stack = rest }) else none
]

abbrev pub adjust_offset : Offset → Option ℤ → ℤ → Offset
adjust_offset top byte_off sign = top
adjust_offset (known n) none sign = top
adjust_offset (known n) (some off) sign = known (saturating_add n (saturating_mul sign off))

abbrev pub adjust : MhsState → ℕ → Phase → Option ℤ → ℤ → MhsState
adjust s node phase byte_off sign = elim s.stack [
  | [] ↦ next s node phase
  | offset ∷ rest ↦ record {
    node = node;
    phase = phase;
    stack = adjust_offset offset byte_off sign ∷ rest;
  }
]

abbrev pub phase_beq : Phase → Phase → Bool
phase_beq forward forward = true
phase_beq backward backward = true
phase_beq _ _ = false

pub phase_beq_iff : (a b : Phase) → (phase_beq a b ≡ true) ↔ (a ≡ b)
phase_beq_iff a b = ground arith

instance abbrev pub phase_eq : Eq Phase
phase_eq = record { beq = phase_beq; beq_iff = phase_beq_iff }

abbrev pub offset_beq : Offset → Offset → Bool
offset_beq top top = true
offset_beq (known n) (known k) = beq_ℤ n k
offset_beq _ _ = false

pub offset_beq_iff : (a b : Offset) → (offset_beq a b ≡ true) ↔ (a ≡ b)
offset_beq_iff a b = ground arith

instance abbrev pub offset_eq : Eq Offset
offset_eq = record { beq = offset_beq; beq_iff = offset_beq_iff }

abbrev pub pair_beq : ℕ × Phase → ℕ × Phase → Bool
pair_beq (n, p) (k, q) = n == k && p == q

pub pair_beq_iff : (a b : ℕ × Phase) → (pair_beq a b ≡ true) ↔ (a ≡ b)
pair_beq_iff a b = ground (arith, phase_beq_iff a.1 b.1)

instance abbrev pub pair_eq : Eq (ℕ × Phase)
pair_eq = record { beq = pair_beq; beq_iff = pair_beq_iff }

abbrev pub visit_beq : MhsVisitState → MhsVisitState → Bool
visit_beq a b = a.node == b.node && a.phase == b.phase && option_beq a.top b.top

pub visit_beq_iff : (a b : MhsVisitState) → (visit_beq a b ≡ true) ↔ (a ≡ b)
visit_beq_iff a b = ground (arith, phase_beq_iff a.phase b.phase, option_beq_iff a.top b.top)

instance abbrev pub visit_eq : Eq MhsVisitState
visit_eq = record { beq = visit_beq; beq_iff = visit_beq_iff }
