-- ===== src/Solve/Field.antt =====
-- crates/pangs-solve/src/lib.rs: where a field lies in its allocation, and which fields may meet.
-- A function that may panic returns the message of the panic as its error. `i128` holds every
-- integer that is computed here from `i64` offsets and `u64` widths, so these are `ℤ`.
pub mod Congruence
pub mod Meaning
pub mod Sum
pub mod Alias
pub mod Near
pub mod Overlap
mod Tests
use tenjin_pangs.Base.{
  ℕ, String, Bool, true, false, Option, none, some, Result, ok, err, ◌>>=◌, ◌==◌, nat_eq, ltb, leb,
  nat_beq, not, ◌&&◌, if◌then◌else◌,
}
use tenjin_pangs.Base.Int.{ℤ, pos, ◌+ℤ◌, ◌-ℤ◌, ltb_ℤ, beq_ℤ, rem_euclid, checked_add, i64_try_from}
use tenjin_pangs.Solve.Lane.{GepLane, gcd_u64, new, shifted, combined}

pub data FieldLocation : Type 0 where
  exact : ℤ → FieldLocation
  lane : GepLane → FieldLocation
  unknown : FieldLocation

-- A width `some 0` is the identity of an address, and `none` an access of unknown extent.
pub record FieldRegion : Type 0 where
  pub location : FieldLocation
  pub width : Option ℕ

-- `FieldRegion::address` and `FieldRegion::access`.
abbrev pub address : FieldLocation → FieldRegion
address location = record { location = location; width = some 0 }

abbrev pub access : FieldLocation → Option ℕ → FieldRegion
access location width = record { location = location; width = width }

-- `rem_euclid`, which panics on the divisor zero.
unfoldable pub checked_rem : ℤ → ℕ → Result ℕ String
checked_rem a m =
    if m == 0
    then err "attempt to calculate the remainder with a divisor of zero"
    else ok (rem_euclid a m)

-- `i64::try_from(modulus).expect(..)`.
abbrev pub modulus_i64 : ℕ → Result ℕ String
modulus_i64 m = elim (i64_try_from m) [ none ↦ err "normalized GEP lane modulus" | some n ↦ ok n ]

-- `FieldLocation::from_gep`.
unfoldable pub from_gep : Option ℤ → Option GepLane → FieldLocation
from_gep (some off) l = exact off
from_gep none none = unknown
from_gep none (some l) = elim (new l.modulus l.residue) [ none ↦ unknown | some n ↦ lane n ]

abbrev pub lane_or_unknown : Option GepLane → FieldLocation
lane_or_unknown none = unknown
lane_or_unknown (some l) = lane l

-- `FieldLocation::add`.
unfoldable pub add : FieldLocation → FieldLocation → FieldLocation
add unknown b = unknown
add (exact a) unknown = unknown
add (lane l) unknown = unknown
add (exact a) (exact b) = elim (checked_add a b) [ none ↦ unknown | some c ↦ exact c ]
add (lane l) (exact off) = lane_or_unknown (shifted l off)
add (exact off) (lane l) = lane_or_unknown (shifted l off)
add (lane l) (lane k) = lane_or_unknown (combined l k)

abbrev pub exact_in_lane : ℤ → GepLane → Result Bool String
exact_in_lane a l =
    modulus_i64 l.modulus >>= λ m. checked_rem a m >>= λ r. ok (beq_ℤ (pos r) l.residue)

-- `FieldLocation::may_alias`.
unfoldable pub may_alias : FieldLocation → FieldLocation → Result Bool String
may_alias unknown b = ok true
may_alias (exact a) unknown = ok true
may_alias (lane l) unknown = ok true
may_alias (exact a) (exact b) = ok (beq_ℤ a b)
may_alias (exact a) (lane l) = exact_in_lane a l
may_alias (lane l) (exact a) = exact_in_lane a l
may_alias (lane l) (lane k) = modulus_i64 (gcd_u64 l.modulus k.modulus) >>= λ m.
    checked_rem l.residue m >>= λ r. checked_rem k.residue m >>= λ s. ok (nat_beq r s)

unfoldable pub congruence_in_range : ℤ → ℕ → ℤ → ℤ → Result Bool String
congruence_in_range residue modulus min max =
    if ltb_ℤ max min
    then ok false
    else (checked_rem residue modulus >>= λ normalized.
        checked_rem (pos normalized -ℤ min) modulus >>= λ shift.
        ok (not (ltb_ℤ max (min +ℤ pos shift))))

-- `-(width - 1)` and `width - 1`.
abbrev pub low_end : ℕ → ℤ
low_end width = pos 0 -ℤ (pos width -ℤ pos 1)

abbrev pub high_end : ℕ → ℤ
high_end width = pos width -ℤ pos 1

unfoldable pub lane_overlaps_exact : GepLane → ℕ → ℤ → ℕ → Result Bool String
unfolding congruence_in_range
lane_overlaps_exact l lane_width a exact_width =
    congruence_in_range (l.residue -ℤ a) l.modulus (low_end lane_width) (high_end exact_width)

-- `width.max(1)`.
abbrev pub at_least_one : ℕ → ℕ
at_least_one w = if ltb w 1 then 1 else w

-- `FieldRegion::may_overlap`, behind the tests of unknown locations and widths.
unfoldable pub overlap_known : FieldLocation → ℕ → FieldLocation → ℕ → Result Bool String
unfolding lane_overlaps_exact congruence_in_range
overlap_known (exact a) u (exact b) v = ok (ltb_ℤ a (b +ℤ pos v) && ltb_ℤ b (a +ℤ pos u))
overlap_known (exact a) u (lane l) v = lane_overlaps_exact l v a u
overlap_known (lane l) u (exact b) v = lane_overlaps_exact l u b v
overlap_known (lane l) u (lane k) v =
    congruence_in_range (l.residue -ℤ k.residue) (gcd_u64 l.modulus k.modulus) (low_end u)
      (high_end v)
overlap_known unknown u b v = ok true
overlap_known (exact a) u unknown v = ok true
overlap_known (lane l) u unknown v = ok true

abbrev pub is_unknown : FieldLocation → Bool
is_unknown unknown = true
is_unknown (exact a) = false
is_unknown (lane l) = false

unfoldable pub may_overlap : FieldRegion → FieldRegion → Result Bool String
unfolding overlap_known
may_overlap a b =
    if is_unknown a.location
    then ok true
    else if is_unknown b.location
    then ok true
    else elim a.width [
      | none ↦ ok true
      | some u ↦ elim b.width [
        | none ↦ ok true
        | some v ↦ overlap_known a.location (at_least_one u) b.location (at_least_one v)
      ]
    ]
