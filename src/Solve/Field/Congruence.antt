-- ===== src/Solve/Field/Congruence.antt =====
-- The search for a congruent number in a range, of crates/pangs-solve/src/lib.rs.
use Prim.Native.Nat.{◌%◌}
use native.Mathlib.Nat.{mod-le}
use tenjin_pangs.Base.{
  ℕ, ◌≡◌, ap, Bool, true, false, ok, ◌<◌, ◌↔◌, arith, Bool-cases, inl, inr, not,
}
use tenjin_pangs.Base.Int.{
  ℤ, pos, pos_part, neg_part, ◌+ℤ◌, ◌-ℤ◌, ◌≤ℤ◌, ltb_ℤ, int_laws, rem_euclid,
}
use tenjin_pangs.Solve.Lane.Congruence.{
  IsCongruent, IsCongruent-refl, IsCongruent-sym, IsCongruent-trans, IsCongruent-+ℤ, IsCongruent--ℤ,
  rem_euclid-IsCongruent, rem_euclid-eq,
}
use tenjin_pangs.Solve.Field.{checked_rem, congruence_in_range}

pub checked_rem-ok : (a : ℤ) (m : ℕ) → 0 < m → checked_rem a m ≡ ok (rem_euclid a m)
unfolding checked_rem
checked_rem-ok a m h = ground arith

nonneg_pos : (a b : ℤ) → b ≤ℤ a → a -ℤ b ≡ pos (pos_part (a -ℤ b))
unfolding ◌-ℤ◌
nonneg_pos a b h = ground arith

-- A number of the range with the residue.
abbrev pub IsReached : ℤ → ℕ → ℤ → ℤ → Type 0
IsReached residue m min max = (t : ℤ) × (min ≤ℤ t) × (t ≤ℤ max) × IsCongruent m t residue

module _ (residue : ℤ) (m : ℕ) (min max : ℤ) (positive : 0 < m) where
  abbrev start : ℕ
  start = rem_euclid (pos (rem_euclid residue m) -ℤ min) m

  abbrev first : ℤ
  first = min +ℤ pos start

  first-IsCongruent : IsCongruent m first residue
  first-IsCongruent =
      let n = pos (rem_euclid residue m) in
      let back =
        IsCongruent-sym m (n -ℤ min) (pos start) (rem_euclid-IsCongruent m (n -ℤ min) positive) in
      let summed = IsCongruent-+ℤ m min min (pos start) (n -ℤ min) (IsCongruent-refl m min) back in
      let same : min +ℤ (n -ℤ min) ≡ n = omega int_laws in
      IsCongruent-trans m first n residue (rw same at summed)
        (IsCongruent-sym m residue n (rem_euclid-IsCongruent m residue positive))

  -- A number from the lower end on with the residue is not below the first one.
  first_least : (t : ℤ) → min ≤ℤ t → IsCongruent m t residue → first ≤ℤ t
  first_least t low c =
      let n = pos (rem_euclid residue m) in
      let d = pos_part (t -ℤ min) in
      let shape : t -ℤ min ≡ pos d = nonneg_pos t min low in
      let close =
        IsCongruent--ℤ m t n min min
          (IsCongruent-trans m t residue n c (rem_euclid-IsCongruent m residue positive))
          (IsCongruent-refl m min) in
      let same : d % m ≡ start = rem_euclid-eq m (pos d) (n -ℤ min) positive (rw shape at close) in
      omega (int_laws, ap neg_part shape, same, mod-le d m)

-- The test of a range says whether a number of the range is congruent to the residue.
pub congruence_in_range-IsReached :
    (residue : ℤ) (m : ℕ) (min max : ℤ)
    → 0 < m
    → (found : Bool) × (congruence_in_range residue m min max ≡ ok found)
      × ((found ≡ true) ↔ IsReached residue m min max)
unfolding congruence_in_range
congruence_in_range-IsReached residue m min max h = elim (Bool-cases (ltb_ℤ max min)) [
  | inl empty ↦ (
    false,
    rw (empty, congruence_in_range),
    (λ e. cc, λ (t, low, high, c). absurd (ground arith)),
  )
  | inr wide ↦ (
    not (ltb_ℤ max (first residue m min max h)),
    rw (
      wide,
      checked_rem-ok residue m h,
      checked_rem-ok (pos (rem_euclid residue m) -ℤ min) m h,
      congruence_in_range,
    ),
    (
      λ e. (
        first residue m min max h,
        omega int_laws,
        ground arith,
        first-IsCongruent residue m min max h,
      ),
      λ (t, low, high, c). ground (arith, first_least residue m min max h t low c),
    ),
  )
]
