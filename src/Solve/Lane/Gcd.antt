-- ===== src/Solve/Lane/Gcd.antt =====
-- The loop `gcd_u64` of crates/pangs-pir/src/lib.rs and crates/pangs-solve/src/lib.rs.
use Prim.Native.Nat.{◌∣◌, ◌*◌, ◌%◌, ◌/◌}
use native.Mathlib.Nat.{
  dvd_refl, dvd-zero, dvd-add, dvd-mod_iff, dvd-mul_left, dvd-mul_right, dvd-mul_left_of_dvd,
  div-mul_cancel, div-add-mod, le_of_dvd, pos_of_dvd_of_pos, mul-add,
}
use tenjin_pangs.Base.{ℕ, zero, suc, ◌+◌, ◌<◌, ◌≤◌, ◌≡◌, sym, ap, ◌∙◌, arith}
use tenjin_pangs.Base.Int.{ℤ, pos, ◌-ℤ◌, int_laws}
use tenjin_pangs.Solve.Lane.{gcd_loop, gcd_u64}
use tenjin_pangs.Solve.Lane.Congruence.{IsCongruent}

mod_below : (fuel lhs rhs : ℕ) → suc rhs < suc fuel → lhs % suc rhs < fuel
mod_below fuel lhs rhs h = omega arith

gcd_loop-dvd :
    (fuel lhs rhs : ℕ) → rhs < fuel → (gcd_loop fuel lhs rhs ∣ lhs) × (gcd_loop fuel lhs rhs ∣ rhs)
unfolding gcd_loop
gcd_loop-dvd zero lhs rhs h = absurd (omega arith)
gcd_loop-dvd (suc fuel) lhs zero h = (dvd_refl lhs, dvd-zero lhs)
gcd_loop-dvd (suc fuel) lhs (suc rhs) h =
    let (p, q) = gcd_loop-dvd fuel (suc rhs) (lhs % suc rhs) (mod_below fuel lhs rhs h) in
    ((dvd-mod_iff (gcd_loop fuel (suc rhs) (lhs % suc rhs)) p).0 q, p)

gcd_loop_greatest : (fuel lhs rhs d : ℕ) → d ∣ lhs → d ∣ rhs → d ∣ gcd_loop fuel lhs rhs
unfolding gcd_loop
gcd_loop_greatest zero lhs rhs d p q = p
gcd_loop_greatest (suc fuel) lhs zero d p q = p
gcd_loop_greatest (suc fuel) lhs (suc rhs) d p q =
    gcd_loop_greatest fuel (suc rhs) (lhs % suc rhs) d q ((dvd-mod_iff d q).1 p)

-- The loop ends with the greatest common divisor: it divides both numbers, and every number that
-- divides both divides it.
pub gcd_u64_greatest :
    (lhs rhs : ℕ)
    → (gcd_u64 lhs rhs ∣ lhs)
      × (gcd_u64 lhs rhs ∣ rhs)
      × ((d : ℕ) → d ∣ lhs → d ∣ rhs → d ∣ gcd_u64 lhs rhs)
unfolding gcd_u64
gcd_u64_greatest lhs rhs =
    let (p, q) = gcd_loop-dvd (suc rhs) lhs rhs (omega arith) in
    (p, q, gcd_loop_greatest (suc rhs) lhs rhs)

-- `g` is a difference of sums of multiples of the two numbers.
abbrev IsCombination : ℕ → ℕ → ℕ → Type 0
IsCombination l r g =
    (a : ℕ) × (b : ℕ) × (c : ℕ) × (d : ℕ) × (l ∣ a)
    × (r ∣ b)
    × (l ∣ c)
    × (r ∣ d)
    × (g + a + b ≡ c + d)

IsCombination-step : (l s g : ℕ) → IsCombination s (l % s) g → IsCombination l s g
IsCombination-step l s g (a, b, c, d, pa, pb, pc, pd, e) =
    let r = l % s in
    let q = s * (l / s) in
    let whole = div-add-mod l s in
    let k = b / r in
    let j = d / r in
    let left : k * l ≡ k * q + b =
      ap (λ t. k * t) (sym whole) ∙ mul-add k q r ∙ ap (λ t. k * q + t) (div-mul_cancel r pb) in
    let right : j * l ≡ j * q + d =
      ap (λ t. j * t) (sym whole) ∙ mul-add j q r ∙ ap (λ t. j * q + t) (div-mul_cancel r pd) in
    let multiple = dvd-mul_right s (l / s) in
    (
      k * l,
      a + j * q,
      j * l,
      c + k * q,
      dvd-mul_left l k,
      dvd-add s pa (dvd-mul_left_of_dvd s multiple j),
      dvd-mul_left l j,
      dvd-add s pc (dvd-mul_left_of_dvd s multiple k),
      omega (arith, e, left, right),
    )

gcd_loop-IsCombination :
    (fuel lhs rhs : ℕ) → rhs < fuel → IsCombination lhs rhs (gcd_loop fuel lhs rhs)
unfolding gcd_loop
gcd_loop-IsCombination zero lhs rhs h = absurd (omega arith)
gcd_loop-IsCombination (suc fuel) lhs zero h =
    (0, 0, lhs, 0, dvd-zero lhs, dvd-zero 0, dvd_refl lhs, dvd-zero 0, omega arith)
gcd_loop-IsCombination (suc fuel) lhs (suc rhs) h =
    IsCombination-step lhs (suc rhs) (gcd_loop fuel (suc rhs) (lhs % suc rhs))
      (gcd_loop-IsCombination fuel (suc rhs) (lhs % suc rhs) (mod_below fuel lhs rhs h))

-- A combination, times a number.
scaled : (n g a b c d : ℕ) → g + a + b ≡ c + d → n * g + n * a + n * b ≡ n * c + n * d
scaled n g a b c d e =
    omega (arith, mul-add n (g + a) b, mul-add n g a, mul-add n c d, ap (λ t. n * t) e)

meet :
    (l r g : ℕ) (x y : ℤ)
    → IsCombination l r g
    → IsCongruent g x y
    → (t : ℤ) × IsCongruent l t x × IsCongruent r t y
meet l r g x y (a, b, c, d, pa, pb, pc, pd, e) (u, v, pu, pv, f) =
    let m = u / g in
    let n = v / g in
    let below = scaled m g a b c d e in
    let above = scaled n g a b c d e in
    let eu : m * g ≡ u = div-mul_cancel g pu in
    let ev : n * g ≡ v = div-mul_cancel g pv in
    let t = x -ℤ (pos (n * c + m * a) -ℤ pos (n * a + m * c)) in
    let mult = λ (z k w : ℕ) (p : z ∣ w). dvd-mul_left_of_dvd z p k in
    (
      t,
      (
        n * c + m * a,
        n * a + m * c,
        dvd-add l (mult l n c pc) (mult l m a pa),
        dvd-add l (mult l n a pa) (mult l m c pc),
        omega int_laws,
      ),
      (
        n * b + m * d,
        n * d + m * b,
        dvd-add r (mult r n b pb) (mult r m d pd),
        dvd-add r (mult r n d pd) (mult r m b pb),
        omega (int_laws, below, above, eu, ev, f),
      ),
    )

-- Two residue classes meet if their residues agree modulo the greatest common divisor.
pub gcd_u64-meet :
    (l r : ℕ) (x y : ℤ)
    → IsCongruent (gcd_u64 l r) x y
    → (t : ℤ) × IsCongruent l t x × IsCongruent r t y
unfolding gcd_u64
gcd_u64-meet l r x y h =
    meet l r (gcd_loop (suc r) l r) x y (gcd_loop-IsCombination (suc r) l r (omega arith)) h

-- The greatest common divisor of a positive number is positive and no larger.
pub gcd_u64_bounds : (l r : ℕ) → 0 < l → (0 < gcd_u64 l r) × (gcd_u64 l r ≤ l)
gcd_u64_bounds l r h =
    let (p, q, greatest) = gcd_u64_greatest l r in (pos_of_dvd_of_pos p h, le_of_dvd h p)
