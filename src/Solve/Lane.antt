-- ===== src/Solve/Lane.antt =====
-- crates/pangs-pir/src/lib.rs: affine byte lanes, the offsets that are congruent to a residue.
pub mod Congruence
pub mod Gcd
use Prim.Native.Nat.{◌%◌}
use tenjin_pangs.Base.{ℕ, zero, suc, ◌+◌, Bool, Option, none, some, ltb, if◌then◌else◌}
use tenjin_pangs.Base.Int.{ℤ, pos, rem_euclid, checked_add, i64_try_from}

pub record GepLane : Type 0 where
  pub modulus : ℕ
  pub residue : ℤ

-- The loop of `gcd_u64`, on fuel.
unfoldable pub gcd_loop : ℕ → ℕ → ℕ → ℕ
gcd_loop zero lhs rhs = lhs
gcd_loop (suc fuel) lhs zero = lhs
gcd_loop (suc fuel) lhs (suc rhs) = gcd_loop fuel (suc rhs) (lhs % suc rhs)

-- The right argument falls in each round, so one round more than it is fuel enough.
unfoldable pub gcd_u64 : ℕ → ℕ → ℕ
unfolding gcd_loop
gcd_u64 lhs rhs = gcd_loop (suc rhs) lhs rhs

-- `GepLane::new`.
unfoldable pub new : ℕ → ℤ → Option GepLane
new modulus residue = elim (i64_try_from modulus) [
  | none ↦ none
  | some m ↦
      if ltb 0 m
      then some (record { modulus = modulus; residue = pos (rem_euclid residue m) })
      else none
]

-- `GepLane::shifted`.
unfoldable pub shifted : GepLane → ℤ → Option GepLane
shifted lane byte_off = elim (checked_add lane.residue byte_off) [
  | none ↦ none
  | some residue ↦ new lane.modulus residue
]

-- `GepLane::combined`.
unfoldable pub combined : GepLane → GepLane → Option GepLane
combined lane other = elim (checked_add lane.residue other.residue) [
  | none ↦ none
  | some residue ↦ new (gcd_u64 lane.modulus other.modulus) residue
]
