-- ===== src/Solve/Field/Alias.antt =====
-- `FieldLocation::may_alias` of crates/pangs-solve/src/lib.rs decides whether two locations meet.
use tenjin_pangs.Base.{
  ℕ, String, ◌≡◌, refl, sym, ap, ◌∙◌, Bool, true, Result, ok, ◌<◌, ◌≤◌, ◌↔◌, arith, nat_beq,
}
use tenjin_pangs.Base.Int.{ℤ, pos, rem_euclid, beq_ℤ, i64_max, eq_of_parts}
use tenjin_pangs.Solve.Lane.{GepLane, gcd_u64}
use tenjin_pangs.Solve.Lane.Congruence.{
  IsCongruent, IsCongruent-refl, IsCongruent-sym, IsCongruent-trans, IsCongruent-weaken,
  rem_euclid-lt, rem_unique, rem_euclid-IsCongruent, rem_euclid-eq,
}
use tenjin_pangs.Solve.Lane.Gcd.{gcd_u64_greatest, gcd_u64_bounds, gcd_u64-meet}
use tenjin_pangs.Solve.Field.{
  FieldLocation, exact, lane, unknown, may_alias, modulus_i64, exact_in_lane,
}
use tenjin_pangs.Solve.Field.Congruence.{checked_rem-ok}
use tenjin_pangs.Solve.Field.Meaning.{Contains, IsNormal, IsNormalLane}

-- An offset that is at both locations.
abbrev pub Meets : FieldLocation → FieldLocation → Type 0
Meets a b = (x : ℤ) × Contains a x × Contains b x

-- The test returns, and its answer is whether `P`.
abbrev pub Decides : Result Bool String → Type 0 → Type 0
Decides r P = (answer : Bool) × (r ≡ ok answer) × ((answer ≡ true) ↔ P)

modulus_i64-ok : (m : ℕ) → m ≤ i64_max → modulus_i64 m ≡ ok m
modulus_i64-ok m h = ground arith

-- A normal residue is its own remainder.
rem_normal : (l : GepLane) → IsNormalLane l → pos (rem_euclid l.residue l.modulus) ≡ l.residue
rem_normal l (h, k, r, e, below) = rw e (
    ap pos (
      rem_unique l.modulus (rem_euclid (pos r) l.modulus) r (rem_euclid-lt l.modulus (pos r) h)
        below
        (IsCongruent-sym l.modulus (pos r) (pos (rem_euclid (pos r) l.modulus))
          (rem_euclid-IsCongruent l.modulus (pos r) h))))

beq_eq : (x y : ℤ) → (beq_ℤ x y ≡ true) ↔ (x ≡ y)
beq_eq x y = (λ e. eq_of_parts x y (ground arith), λ e. rw e (ground arith))

exact_in_lane-Decides :
    (a : ℤ) (l : GepLane)
    → IsNormalLane l
    → Decides (exact_in_lane a l) (IsCongruent l.modulus a l.residue)
exact_in_lane-Decides a l (h, k, r, e, below) =
    let m = l.modulus in
    let back = rem_normal l (h, k, r, e, below) in
    (
      beq_ℤ (pos (rem_euclid a m)) l.residue,
      rw (modulus_i64-ok m k, checked_rem-ok a m h),
      (
        λ t.
            rw (sym ((beq_eq (pos (rem_euclid a m)) l.residue).0 t)) (rem_euclid-IsCongruent m a h),
        λ c.
            (beq_eq (pos (rem_euclid a m)) l.residue).1
              (ap pos (rem_euclid-eq m a l.residue h c) ∙ back),
      ),
    )

lanes_meet :
    (l k : GepLane)
    → IsCongruent (gcd_u64 l.modulus k.modulus) l.residue k.residue ↔ Meets (lane l) (lane k)
lanes_meet l k =
    let g = gcd_u64 l.modulus k.modulus in
    let (d, e, greatest) = gcd_u64_greatest l.modulus k.modulus in
    (
      λ c. gcd_u64-meet l.modulus k.modulus l.residue k.residue c,
      λ (x, p, q).
          IsCongruent-trans g l.residue x k.residue
            (IsCongruent-sym g x l.residue (IsCongruent-weaken l.modulus g x l.residue d p))
            (IsCongruent-weaken k.modulus g x k.residue e q),
    )

-- Two numbers have equal remainders exactly if they are congruent.
rems_eq :
    (m : ℕ) (x y : ℤ)
    → 0 < m
    → (nat_beq (rem_euclid x m) (rem_euclid y m) ≡ true) ↔ IsCongruent m x y
rems_eq m x y h = (
  λ t.
      let same : rem_euclid x m ≡ rem_euclid y m = ground arith in
      IsCongruent-trans m x (pos (rem_euclid x m)) y (rem_euclid-IsCongruent m x h)
        (rw same (IsCongruent-sym m y (pos (rem_euclid y m)) (rem_euclid-IsCongruent m y h))),
  λ c. rw (rem_euclid-eq m x y h c) (ground arith),
)

-- Every location has an offset.
pub Contains-some : (b : FieldLocation) → (x : ℤ) × Contains b x
Contains-some (exact a) = (a, refl)
Contains-some (lane l) = (l.residue, IsCongruent-refl l.modulus l.residue)
Contains-some unknown = (pos 0, tt)

-- For normal locations the test returns, and it answers true exactly if some offset is at both.
pub may_alias-Decides :
    (a b : FieldLocation) → IsNormal a → IsNormal b → Decides (may_alias a b) (Meets a b)
unfolding may_alias
may_alias-Decides unknown b h k =
    let (x, p) = Contains-some b in (true, refl, (λ e. (x, tt, p), λ m. refl))
may_alias-Decides (exact a) unknown h k = (true, refl, (λ e. (a, refl, tt), λ m. refl))
may_alias-Decides (lane l) unknown h k =
    (true, refl, (λ e. (l.residue, IsCongruent-refl l.modulus l.residue, tt), λ m. refl))
may_alias-Decides (exact a) (exact b) h k =
    (beq_ℤ a b, refl, (λ e. (a, refl, (beq_eq a b).0 e), λ (x, p, q). (beq_eq a b).1 (sym p ∙ q)))
may_alias-Decides (exact a) (lane l) h k =
    let (answer, e, c) = exact_in_lane-Decides a l k in
    (answer, e, (λ t. (a, refl, c.0 t), λ (x, p, q). c.1 (rw p at q)))
may_alias-Decides (lane l) (exact a) h k =
    let (answer, e, c) = exact_in_lane-Decides a l h in
    (answer, e, (λ t. (a, c.0 t, refl), λ (x, p, q). c.1 (rw q at p)))
may_alias-Decides (lane l) (lane k) (h, b, r, e, c) s =
    let g = gcd_u64 l.modulus k.modulus in
    let (positive, small) = gcd_u64_bounds l.modulus k.modulus h in
    let test = rems_eq g l.residue k.residue positive in
    let meets = lanes_meet l k in
    (
      nat_beq (rem_euclid l.residue g) (rem_euclid k.residue g),
      rw (
        modulus_i64-ok g (omega (arith, small, b)),
        checked_rem-ok l.residue g positive,
        checked_rem-ok k.residue g positive,
      ),
      (λ t. meets.0 (test.0 t), λ m. test.1 (meets.1 m)),
    )
