-- ===== src/Solve/Field/Tests.antt =====
-- The field locations and regions at concrete offsets.
use Prim.Native.Nat.{◌∣◌}
use tenjin_pangs.Base.{◌≡◌, refl, ◌≢◌, ℕ, some, ok, true, false, ◌↔◌, arith}
use tenjin_pangs.Base.Int.{pos, negsuc, i64_max, checked_add, ◌+ℤ◌, ◌-ℤ◌}
use tenjin_pangs.Solve.Lane.{GepLane, gcd_u64, gcd_loop, new, combined}
use tenjin_pangs.Solve.Field.{
  exact, lane, unknown, add, may_alias, may_overlap, access, address, overlap_known,
  lane_overlaps_exact, congruence_in_range, checked_rem, at_least_one,
}
use tenjin_pangs.Solve.Field.Meaning.{add-IsNormal, Contains, IsNormal, IsNormalLane}
use tenjin_pangs.Solve.Field.Sum.{IsSum, add_exact}
use tenjin_pangs.Solve.Field.Near.{Shares}
use tenjin_pangs.Solve.Field.Alias.{Meets, Decides, may_alias-Decides}
use tenjin_pangs.Solve.Field.Overlap.{may_overlap-Decides, may_overlap-may_alias}
use tenjin_pangs.Solve.Lane.Gcd.{gcd_u64_greatest}

abbrev one_of_six : GepLane
one_of_six = record { modulus = 6; residue = pos 1 }

abbrev three_of_four : GepLane
three_of_four = record { modulus = 4; residue = pos 3 }

gcd_eq : gcd_u64 12 18 ≡ 6
unfolding gcd_u64 gcd_loop
gcd_eq = refl

normalized : new 4 (negsuc 4) ≡ some three_of_four
unfolding new
normalized = refl

lanes_alias : may_alias (lane one_of_six) (lane three_of_four) ≡ ok true
unfolding may_alias gcd_u64 gcd_loop checked_rem
lanes_alias = refl

exact_apart : may_alias (exact (pos 8)) (lane three_of_four) ≡ ok false
unfolding may_alias checked_rem
exact_apart = refl

wide_overlap :
    may_overlap (access (exact (pos 8)) (some 4)) (access (lane three_of_four) (some 1)) ≡ ok true
unfolding may_overlap overlap_known lane_overlaps_exact congruence_in_range checked_rem ◌+ℤ◌ ◌-ℤ◌
wide_overlap = refl

narrow_apart :
    may_overlap (access (exact (pos 8)) (some 3)) (access (lane three_of_four) (some 1)) ≡ ok false
unfolding may_overlap overlap_known lane_overlaps_exact congruence_in_range checked_rem ◌+ℤ◌ ◌-ℤ◌
narrow_apart = refl

-- A sum that is no `i64`.
overflows : add (exact (pos i64_max)) (exact (pos 1)) ≡ unknown
unfolding add checked_add ◌+ℤ◌
overflows = refl

-- A location that no constructor makes panics.
unnormalized : may_alias (exact (pos 1)) (lane (record { modulus = 0; residue = pos 0 })) ≢ ok true
unfolding may_alias checked_rem
unnormalized e = cc

sum_eq : add (lane one_of_six) (lane three_of_four) ≡ lane (record { modulus = 2; residue = pos 0 })
unfolding add combined new gcd_u64 gcd_loop checked_add ◌+ℤ◌
sum_eq = refl

sum_known : add (lane one_of_six) (lane three_of_four) ≢ unknown
sum_known = rw sum_eq (λ e. cc)

one_of_six-IsNormal : IsNormalLane one_of_six
one_of_six-IsNormal = (omega arith, omega arith, 1, refl, omega arith)

three_of_four-IsNormal : IsNormalLane three_of_four
three_of_four-IsNormal = (omega arith, omega arith, 3, refl, omega arith)

add_exact_example :
    Contains (add (lane one_of_six) (lane three_of_four)) (pos 8)
    ↔ IsSum (lane one_of_six) (lane three_of_four) (pos 8)
add_exact_example = add_exact (lane one_of_six) (lane three_of_four) (pos 8) sum_known

may_alias-Decides_example :
    Decides
      (may_alias (lane one_of_six) (lane three_of_four))
      (Meets (lane one_of_six) (lane three_of_four))
may_alias-Decides_example =
    may_alias-Decides (lane one_of_six) (lane three_of_four) one_of_six-IsNormal
      three_of_four-IsNormal

may_overlap-Decides_example :
    Decides
      (may_overlap (access (exact (pos 8)) (some 4)) (access (lane three_of_four) (some 1)))
      (Shares (exact (pos 8)) (at_least_one 4) (lane three_of_four) (at_least_one 1))
may_overlap-Decides_example =
    may_overlap-Decides (exact (pos 8)) 4 (lane three_of_four) 1 tt three_of_four-IsNormal

may_overlap-may_alias_example :
    may_overlap (address (lane one_of_six)) (address (lane three_of_four))
    ≡ may_alias (lane one_of_six) (lane three_of_four)
may_overlap-may_alias_example =
    may_overlap-may_alias (lane one_of_six) (lane three_of_four) one_of_six-IsNormal
      three_of_four-IsNormal

gcd_u64_greatest_example :
    (gcd_u64 12 18 ∣ 12) × (gcd_u64 12 18 ∣ 18) × ((d : ℕ) → d ∣ 12 → d ∣ 18 → d ∣ gcd_u64 12 18)
gcd_u64_greatest_example = gcd_u64_greatest 12 18

add-IsNormal_example : IsNormal (add (lane one_of_six) (exact (negsuc 8)))
add-IsNormal_example = add-IsNormal (lane one_of_six) (exact (negsuc 8))
