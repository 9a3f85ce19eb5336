-- ===== src/Solve/Field/Near.antt =====
-- The bytes of a field region, and the distances of two that share one, for the overlap test of
-- crates/pangs-solve/src/lib.rs.
use tenjin_pangs.Base.{ℕ, ◌≡◌, refl, ◌<◌, ◌↔◌, arith, inl, inr, Bool-cases}
use tenjin_pangs.Base.Int.{ℤ, pos, ◌+ℤ◌, ◌-ℤ◌, ◌≤ℤ◌, ltb_ℤ, int_laws}
use tenjin_pangs.Solve.Lane.{GepLane, gcd_u64}
use tenjin_pangs.Solve.Lane.Congruence.{
  IsCongruent-refl, IsCongruent-sym, IsCongruent--ℤ, IsCongruent-+ℤ, IsCongruent-weaken,
}
use tenjin_pangs.Solve.Lane.Gcd.{gcd_u64_greatest, gcd_u64-meet}
use tenjin_pangs.Solve.Field.{FieldLocation, exact, lane, low_end, high_end}
use tenjin_pangs.Solve.Field.Congruence.{IsReached}
use tenjin_pangs.Solve.Field.Meaning.{Contains}

-- `z` is one of the `w` bytes from an offset of the location on.
abbrev pub Covers : FieldLocation → ℕ → ℤ → Type 0
Covers location w z = (x : ℤ) × Contains location x × (x ≤ℤ z) × (z +ℤ pos 1 ≤ℤ x +ℤ pos w)

-- A byte that both locations cover, each with its width.
abbrev pub Shares : FieldLocation → ℕ → FieldLocation → ℕ → Type 0
Shares a u b v = (z : ℤ) × Covers a u z × Covers b v z

-- Two offsets whose ranges of `u` and `v` bytes meet.
abbrev pub Near : FieldLocation → ℕ → FieldLocation → ℕ → Type 0
Near a u b v =
    (x : ℤ) × (y : ℤ) × Contains a x × Contains b y × (low_end u ≤ℤ x -ℤ y) × (x -ℤ y ≤ℤ high_end v)

pub Near-Shares :
    (a : FieldLocation) (u : ℕ) (b : FieldLocation) (v : ℕ)
    → 0 < u
    → 0 < v
    → Near a u b v ↔ Shares a u b v
Near-Shares a u b v hu hv = (
  λ (x, y, p, q, low, high). elim (Bool-cases (ltb_ℤ x y)) [
    | inl below ↦
        let order : x ≤ℤ y = ground arith in
        (y, (x, p, order, omega int_laws), (y, q, omega arith, omega int_laws))
    | inr above ↦
        let order : y ≤ℤ x = ground arith in
        (x, (x, p, omega arith, omega int_laws), (y, q, order, omega int_laws))
  ],
  λ (z, (x, p, xz, zu), (y, q, yz, zv)). (x, y, p, q, omega int_laws, omega int_laws),
)

pub Shares-sym :
    (a : FieldLocation) (u : ℕ) (b : FieldLocation) (v : ℕ) → Shares a u b v → Shares b v a u
Shares-sym a u b v (z, p, q) = (z, q, p)

-- A number of the range with the residue `l - a` is the distance of an offset of the lane from `a`.
pub IsReached-exact :
    (l : GepLane) (u : ℕ) (a : ℤ) (v : ℕ)
    → IsReached (l.residue -ℤ a) l.modulus (low_end u) (high_end v) ↔ Near (lane l) u (exact a) v
IsReached-exact l u a v = (
  λ (t, low, high, c).
      let same : (t +ℤ a) -ℤ a ≡ t = omega int_laws in
      let back : (l.residue -ℤ a) +ℤ a ≡ l.residue = omega int_laws in
      let shifted =
        IsCongruent-+ℤ l.modulus t (l.residue -ℤ a) a a c (IsCongruent-refl l.modulus a) in
      (t +ℤ a, a, rw back at shifted, refl, rw same low, rw same high),
  λ (x, y, p, q, low, high). (
    x -ℤ a,
    rw q at low,
    rw q at high,
    IsCongruent--ℤ l.modulus x l.residue a a p (IsCongruent-refl l.modulus a),
  ),
)

-- A number of the range with the residue `l - k` is the distance of an offset of the one lane from
-- an offset of the other.
pub IsReached-lane :
    (l : GepLane) (u : ℕ) (k : GepLane) (v : ℕ)
    → IsReached (l.residue -ℤ k.residue) (gcd_u64 l.modulus k.modulus) (low_end u) (high_end v)
      ↔ Near (lane l) u (lane k) v
IsReached-lane l u k v =
    let g = gcd_u64 l.modulus k.modulus in
    let (d, e, greatest) = gcd_u64_greatest l.modulus k.modulus in
    let r = l.residue in
    let s = k.residue in
    (
      λ (t, low, high, c).
          let back : (r -ℤ s) +ℤ s ≡ r = omega int_laws in
          let summed = IsCongruent-+ℤ g t (r -ℤ s) s s c (IsCongruent-refl g s) in
          let (x, p, q) =
            gcd_u64-meet l.modulus k.modulus r (t +ℤ s)
              (IsCongruent-sym g (t +ℤ s) r (rw back at summed)) in
          let gap : x -ℤ (x -ℤ t) ≡ t = omega int_laws in
          let rest : (t +ℤ s) -ℤ t ≡ s = omega int_laws in
          let moved = IsCongruent--ℤ k.modulus x (t +ℤ s) t t q (IsCongruent-refl k.modulus t) in
          (x, x -ℤ t, p, rw rest at moved, rw gap low, rw gap high),
      λ (x, y, p, q, low, high). (
        x -ℤ y,
        low,
        high,
        IsCongruent--ℤ g x r y s (IsCongruent-weaken l.modulus g x r d p)
            (IsCongruent-weaken k.modulus g y s e q),
      ),
    )

pub Covers-start : (a : FieldLocation) (w : ℕ) (x : ℤ) → 0 < w → Contains a x → Covers a w x
Covers-start a w x h c = (x, c, omega arith, omega int_laws)
