-- ===== src/Solve/Lane/Congruence.antt =====
-- Congruence of integers, which the lanes of crates/pangs-pir/src/lib.rs stand for.
use Prim.Native.Nat.{◌∣◌, ◌*◌, ◌%◌, ◌/◌}
use native.Mathlib.Nat.{
  dvd_refl, dvd-zero, dvd-add, dvd_trans, dvd-mul_right, div-add-mod, mod-lt, mod-eq_of_lt,
  mul-div_cancel', add-mul-mod_self_left,
}
use tenjin_pangs.Base.{ℕ, ◌+◌, ◌<◌, ◌≡◌, sym, ap, ◌∙◌, arith}
use tenjin_pangs.Base.Int.{ℤ, pos, negsuc, pos_part, neg_part, ◌+ℤ◌, ◌-ℤ◌, int_laws, rem_euclid}

-- `x` and `y` differ by a multiple of `m`.
abbrev pub IsCongruent : ℕ → ℤ → ℤ → Type 0
IsCongruent m x y =
    (a : ℕ) × (b : ℕ) × (m ∣ a)
    × (m ∣ b)
    × (pos_part x + neg_part y + a ≡ pos_part y + neg_part x + b)

module _ (m : ℕ) where
  pub IsCongruent-refl : (x : ℤ) → IsCongruent m x x
  IsCongruent-refl x = (0, 0, dvd-zero m, dvd-zero m, omega arith)

  pub IsCongruent-sym : (x y : ℤ) → IsCongruent m x y → IsCongruent m y x
  IsCongruent-sym x y (a, b, p, q, e) = (b, a, q, p, omega (arith, e))

  pub IsCongruent-trans : (x y z : ℤ) → IsCongruent m x y → IsCongruent m y z → IsCongruent m x z
  IsCongruent-trans x y z (a, b, p, q, e) (c, d, r, s, f) =
      (a + c, b + d, dvd-add m p r, dvd-add m q s, omega (arith, e, f))

  pub IsCongruent-+ℤ :
      (x y u v : ℤ) → IsCongruent m x y → IsCongruent m u v → IsCongruent m (x +ℤ u) (y +ℤ v)
  IsCongruent-+ℤ x y u v (a, b, p, q, e) (c, d, r, s, f) =
      (a + c, b + d, dvd-add m p r, dvd-add m q s, omega (int_laws, e, f))

  pub IsCongruent--ℤ :
      (x y u v : ℤ) → IsCongruent m x y → IsCongruent m u v → IsCongruent m (x -ℤ u) (y -ℤ v)
  IsCongruent--ℤ x y u v (a, b, p, q, e) (c, d, r, s, f) =
      (a + d, b + c, dvd-add m p s, dvd-add m q r, omega (int_laws, e, f))

  pub IsCongruent-weaken : (d : ℕ) (x y : ℤ) → d ∣ m → IsCongruent m x y → IsCongruent d x y
  IsCongruent-weaken d x y k (a, b, p, q, e) = (a, b, dvd_trans d k p, dvd_trans d k q, e)

  pub rem_euclid-lt : (x : ℤ) → 0 < m → rem_euclid x m < m
  rem_euclid-lt (pos n) h = mod-lt n h
  rem_euclid-lt (negsuc n) h = omega arith

  -- The remainder is congruent to the number.
  pub rem_euclid-IsCongruent : (x : ℤ) → 0 < m → IsCongruent m x (pos (rem_euclid x m))
  rem_euclid-IsCongruent (pos n) h =
      (0, m * (n / m), dvd-zero m, dvd-mul_right m (n / m), omega (arith, div-add-mod n m))
  rem_euclid-IsCongruent (negsuc n) h = (
    m * (n / m) + m,
    0,
    dvd-add m (dvd-mul_right m (n / m)) (dvd_refl m),
    dvd-zero m,
    omega (arith, div-add-mod n m, mod-lt n h),
  )

  -- Two remainders that are congruent are equal.
  pub rem_unique : (r s : ℕ) → r < m → s < m → IsCongruent m (pos r) (pos s) → r ≡ s
  rem_unique r s h k (a, b, p, q, e) =
      sym (mod-eq_of_lt h)
      ∙ sym (drop r a p)
      ∙ ap (λ t. t % m) (omega (arith, e))
      ∙ drop s b q
      ∙ mod-eq_of_lt k
    where
      drop : (t c : ℕ) → m ∣ c → (t + c) % m ≡ t % m
      drop t c d =
          ap (λ u. (t + u) % m) (sym (mul-div_cancel' m d)) ∙ add-mul-mod_self_left t m (c / m)

  pub rem_euclid-eq : (x y : ℤ) → 0 < m → IsCongruent m x y → rem_euclid x m ≡ rem_euclid y m
  rem_euclid-eq x y h c =
      rem_unique (rem_euclid x m) (rem_euclid y m) (rem_euclid-lt x h) (rem_euclid-lt y h) (
        IsCongruent-trans (pos (rem_euclid x m)) x (pos (rem_euclid y m))
          (IsCongruent-sym x (pos (rem_euclid x m)) (rem_euclid-IsCongruent x h))
          (IsCongruent-trans x y (pos (rem_euclid y m)) c (rem_euclid-IsCongruent y h)))
