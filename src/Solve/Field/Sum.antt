-- ===== src/Solve/Field/Sum.antt =====
-- `FieldLocation::add` of crates/pangs-solve/src/lib.rs adds the offsets of its two locations.
use tenjin_pangs.Base.{ℕ, ◌≡◌, ◌≢◌, refl, sym, ◌∙◌, some, ◌↔◌, inl, inr}
use tenjin_pangs.Base.Int.{ℤ, ◌+ℤ◌, ◌-ℤ◌, int_laws, checked_add}
use tenjin_pangs.Solve.Lane.{GepLane, shifted, combined, gcd_u64}
use tenjin_pangs.Solve.Lane.Congruence.{
  IsCongruent, IsCongruent-refl, IsCongruent-sym, IsCongruent--ℤ,
}
use tenjin_pangs.Solve.Lane.Gcd.{gcd_u64-meet}
use tenjin_pangs.Solve.Field.{FieldLocation, exact, lane, unknown, add}
use tenjin_pangs.Solve.Field.Meaning.{
  Contains, add_sound, checked_add-cases, class_only, shifted-IsClass, combined-IsClass,
}

-- `t` is the sum of an offset at `a` and one at `b`.
abbrev pub IsSum : FieldLocation → FieldLocation → ℤ → Type 0
IsSum a b t = (x : ℤ) × (y : ℤ) × Contains a x × Contains b y × (x +ℤ y ≡ t)

minus_plus : (t y : ℤ) → (t -ℤ y) +ℤ y ≡ t
minus_plus t y = omega int_laws

plus_minus : (t y : ℤ) → y +ℤ (t -ℤ y) ≡ t
plus_minus t y = omega int_laws

plus_less : (x y : ℤ) → (x +ℤ y) -ℤ y ≡ x
plus_less x y = omega int_laws

-- A number that is congruent to `x + y` is, less one congruent to `y`, congruent to `x`.
less :
    (m : ℕ) (t x y z : ℤ) → IsCongruent m t (x +ℤ y) → IsCongruent m z y → IsCongruent m (t -ℤ z) x
less m t x y z p q = rw (plus_less x y) at (IsCongruent--ℤ m t (x +ℤ y) z y p q)

IsSum-lane :
    (l : GepLane) (off t : ℤ)
    → IsCongruent l.modulus t (l.residue +ℤ off)
    → IsSum (lane l) (exact off) t
IsSum-lane l off t c = (
  t -ℤ off,
  off,
  less l.modulus t l.residue off off c (IsCongruent-refl l.modulus off),
  refl,
  minus_plus t off,
)

IsSum-sym : (a b : FieldLocation) (t : ℤ) → IsSum a b t → IsSum b a t
IsSum-sym a b t (x, y, p, q, e) = (y, x, q, p, swap x y ∙ e)
  where
    swap : (x y : ℤ) → y +ℤ x ≡ x +ℤ y
    swap x y = omega int_laws

IsSum-lanes :
    (l k : GepLane) (t : ℤ)
    → IsCongruent (gcd_u64 l.modulus k.modulus) t (l.residue +ℤ k.residue)
    → IsSum (lane l) (lane k) t
IsSum-lanes l k t c =
    let g = gcd_u64 l.modulus k.modulus in
    let (x, p, q) = gcd_u64-meet l.modulus k.modulus l.residue (t -ℤ k.residue) (
      IsCongruent-sym g (t -ℤ k.residue) l.residue
        (less g t l.residue k.residue k.residue c (IsCongruent-refl g k.residue))) in
    (x, t -ℤ x, p, flip k.modulus t x k.residue q, plus_minus t x)
  where
    minus_minus : (t y : ℤ) → t -ℤ (t -ℤ y) ≡ y
    minus_minus t y = omega int_laws

    flip : (m : ℕ) (t x y : ℤ) → IsCongruent m x (t -ℤ y) → IsCongruent m (t -ℤ x) y
    flip m t x y h =
        rw (minus_minus t y) at (IsCongruent--ℤ m t t x (t -ℤ y) (IsCongruent-refl m t) h)

exact_only :
    (a b t : ℤ)
    → checked_add a b ≡ some (a +ℤ b)
    → Contains (add (exact a) (exact b)) t
    → t ≡ a +ℤ b
unfolding add
exact_only a b t e c = rw (e, Contains) at c

add_only : (a b : FieldLocation) (t : ℤ) → add a b ≢ unknown → Contains (add a b) t → IsSum a b t
unfolding add
add_only unknown b t known c = absurd (known refl)
add_only (exact a) unknown t known c = absurd (known refl)
add_only (lane l) unknown t known c = absurd (known refl)
add_only (exact a) (exact b) t known c = elim (checked_add-cases a b) [
  | inl e ↦ absurd (known (rw (e, add) refl))
  | inr e ↦ (a, b, refl, refl, sym (exact_only a b t e c))
]
add_only (lane l) (exact off) t known c =
    IsSum-lane l off t
      (class_only l.modulus (l.residue +ℤ off) t (shifted l off) (shifted-IsClass l off) known c)
add_only (exact off) (lane l) t known c = IsSum-sym (lane l) (exact off) t (
    IsSum-lane l off t
      (class_only l.modulus (l.residue +ℤ off) t (shifted l off) (shifted-IsClass l off) known c))
add_only (lane l) (lane k) t known c = IsSum-lanes l k t (
    class_only (gcd_u64 l.modulus k.modulus) (l.residue +ℤ k.residue) t (combined l k)
      (combined-IsClass l k) known c)

-- Unless the sum of two locations is the unknown one, an offset is at it exactly if it is the sum
-- of an offset at the first and one at the second.
pub add_exact :
    (a b : FieldLocation) (t : ℤ) → add a b ≢ unknown → Contains (add a b) t ↔ IsSum a b t
add_exact a b t known =
    (add_only a b t known, λ (x, y, p, q, e). rw (sym e) (add_sound a b x y p q))
