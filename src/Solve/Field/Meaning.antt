-- ===== src/Solve/Field/Meaning.antt =====
-- The offsets that a field location of crates/pangs-solve/src/lib.rs stands for.
use tenjin_pangs.Base.{◌≢◌, ℕ, ◌≡◌, refl, Option, none, some, ◌<◌, ◌≤◌, ◌↔◌, arith, inl, inr, ◌⊎◌}
use tenjin_pangs.Base.Int.{ℤ, pos, ◌+ℤ◌, rem_euclid, i64_max, checked_add, int_laws}
use tenjin_pangs.Solve.Lane.{GepLane, new, shifted, combined, gcd_u64}
use tenjin_pangs.Solve.Lane.Congruence.{
  IsCongruent, IsCongruent-refl, IsCongruent-sym, IsCongruent-trans, IsCongruent-+ℤ,
  IsCongruent-weaken, rem_euclid-lt, rem_euclid-IsCongruent,
}
use tenjin_pangs.Solve.Lane.Gcd.{gcd_u64_greatest}
use tenjin_pangs.Solve.Field.{FieldLocation, exact, lane, unknown, add, from_gep, lane_or_unknown}

-- The offsets at the location.
abbrev pub Contains : FieldLocation → ℤ → Type 0
Contains (exact a) x = x ≡ a
Contains (lane l) x = IsCongruent l.modulus x l.residue
Contains unknown x = Unit

-- The lanes that the constructor makes: a positive `i64` modulus, and its remainder.
abbrev pub IsNormalLane : GepLane → Type 0
IsNormalLane l =
    (0 < l.modulus) × (l.modulus ≤ i64_max) × (r : ℕ) × (l.residue ≡ pos r) × (r < l.modulus)

abbrev pub IsNormal : FieldLocation → Type 0
IsNormal (exact a) = Unit
IsNormal (lane l) = IsNormalLane l
IsNormal unknown = Unit

normal_record :
    (m : ℕ) (x : ℤ)
    → 0 < m
    → m ≤ i64_max
    → IsNormalLane (record { modulus = m; residue = pos (rem_euclid x m) })
normal_record m x h k = (h, k, rem_euclid x m, refl, rem_euclid-lt m x h)

new-some :
    (m : ℕ) (x : ℤ)
    → 0 < m
    → m ≤ i64_max
    → new m x ≡ some (record { modulus = m; residue = pos (rem_euclid x m) })
unfolding new
new-some m x h k = ground arith

new-cases : (m : ℕ) (x : ℤ) → (new m x ≡ none) ⊎ ((0 < m) × (m ≤ i64_max))
unfolding new
new-cases m x = ground arith

-- What the constructor promises of its result: it is normal, and every offset that is congruent
-- to the residue given is in it, and no other.
abbrev pub IsClass : ℕ → ℤ → Option GepLane → Type 0
IsClass m x none = Unit
IsClass m x (some l) =
    IsNormalLane l × ((t : ℤ) → IsCongruent m t x ↔ IsCongruent l.modulus t l.residue)

pub new-IsClass : (m : ℕ) (x : ℤ) → IsClass m x (new m x)
new-IsClass m x = elim (new-cases m x) [
  | inl e ↦ rw e tt
  | inr (h, k) ↦ rw (new-some m x h k) (
    normal_record m x h k,
    λ t. (
      λ c. IsCongruent-trans m t x (pos (rem_euclid x m)) c (rem_euclid-IsCongruent m x h),
      λ c.
          IsCongruent-trans m t (pos (rem_euclid x m)) x c
            (IsCongruent-sym m x (pos (rem_euclid x m)) (rem_euclid-IsCongruent m x h)),
    ),
  )
]

pub checked_add-cases : (a b : ℤ) → (checked_add a b ≡ none) ⊎ (checked_add a b ≡ some (a +ℤ b))
unfolding checked_add
checked_add-cases a b = ground arith

pub shifted-IsClass : (l : GepLane) (off : ℤ) → IsClass l.modulus (l.residue +ℤ off) (shifted l off)
unfolding shifted
shifted-IsClass l off = elim (checked_add-cases l.residue off) [
  | inl e ↦ rw (e, IsClass) tt
  | inr e ↦ rw (e, IsClass) (new-IsClass l.modulus (l.residue +ℤ off))
]

pub combined-IsClass :
    (l k : GepLane) → IsClass (gcd_u64 l.modulus k.modulus) (l.residue +ℤ k.residue) (combined l k)
unfolding combined
combined-IsClass l k = elim (checked_add-cases l.residue k.residue) [
  | inl e ↦ rw (e, IsClass) tt
  | inr e ↦ rw (e, IsClass) (new-IsClass (gcd_u64 l.modulus k.modulus) (l.residue +ℤ k.residue))
]

class-IsNormal : (m : ℕ) (x : ℤ) (o : Option GepLane) → IsClass m x o → IsNormal (lane_or_unknown o)
class-IsNormal m x none h = tt
class-IsNormal m x (some l) h = h.0

class-Contains :
    (m : ℕ) (x t : ℤ) (o : Option GepLane)
    → IsClass m x o
    → IsCongruent m t x
    → Contains (lane_or_unknown o) t
class-Contains m x t none h c = tt
class-Contains m x t (some l) h c = (h.1 t).0 c

pub class_only :
    (m : ℕ) (x t : ℤ) (o : Option GepLane)
    → IsClass m x o
    → lane_or_unknown o ≢ unknown
    → Contains (lane_or_unknown o) t
    → IsCongruent m t x
class_only m x t none h k c = absurd (k refl)
class_only m x t (some l) h k c = (h.1 t).1 c

-- The sum of two locations is normal.
pub add-IsNormal : (a b : FieldLocation) → IsNormal (add a b)
unfolding add
add-IsNormal unknown b = tt
add-IsNormal (exact a) unknown = tt
add-IsNormal (lane l) unknown = tt
add-IsNormal (exact a) (exact b) = elim (checked_add-cases a b) [
  | inl e ↦ rw (e, IsNormal) tt
  | inr e ↦ rw (e, IsNormal) tt
]
add-IsNormal (lane l) (exact off) =
    class-IsNormal l.modulus (l.residue +ℤ off) (shifted l off) (shifted-IsClass l off)
add-IsNormal (exact off) (lane l) =
    class-IsNormal l.modulus (l.residue +ℤ off) (shifted l off) (shifted-IsClass l off)
add-IsNormal (lane l) (lane k) =
    class-IsNormal (gcd_u64 l.modulus k.modulus) (l.residue +ℤ k.residue) (combined l k)
      (combined-IsClass l k)

lanes_sum :
    (l k : GepLane) (x y : ℤ)
    → IsCongruent l.modulus x l.residue
    → IsCongruent k.modulus y k.residue
    → IsCongruent (gcd_u64 l.modulus k.modulus) (x +ℤ y) (l.residue +ℤ k.residue)
lanes_sum l k x y p q =
    let g = gcd_u64 l.modulus k.modulus in
    let (d, e, greatest) = gcd_u64_greatest l.modulus k.modulus in
    IsCongruent-+ℤ g x l.residue y k.residue (IsCongruent-weaken l.modulus g x l.residue d p)
      (IsCongruent-weaken k.modulus g y k.residue e q)

add_comm : (x y : ℤ) → x +ℤ y ≡ y +ℤ x
add_comm x y = omega int_laws

-- If an offset is at the first location and another is at the second, their sum is at the sum of
-- the locations.
pub add_sound :
    (a b : FieldLocation) (x y : ℤ) → Contains a x → Contains b y → Contains (add a b) (x +ℤ y)
unfolding add
add_sound unknown b x y p q = tt
add_sound (exact a) unknown x y p q = tt
add_sound (lane l) unknown x y p q = tt
add_sound (exact a) (exact b) x y p q = elim (checked_add-cases a b) [
  | inl e ↦ rw (e, Contains) tt
  | inr e ↦ rw (e, Contains) cc
]
add_sound (lane l) (exact off) x y p q =
    class-Contains l.modulus (l.residue +ℤ off) (x +ℤ y) (shifted l off) (shifted-IsClass l off)
      (IsCongruent-+ℤ l.modulus x l.residue y off p (rw q (IsCongruent-refl l.modulus off)))
add_sound (exact off) (lane l) x y p q =
    class-Contains l.modulus (l.residue +ℤ off) (x +ℤ y) (shifted l off) (shifted-IsClass l off) (
      rw (add_comm x y, p)
        (IsCongruent-+ℤ l.modulus y l.residue off off q (IsCongruent-refl l.modulus off)))
add_sound (lane l) (lane k) x y p q =
    class-Contains (gcd_u64 l.modulus k.modulus) (l.residue +ℤ k.residue) (x +ℤ y) (combined l k)
      (combined-IsClass l k) (lanes_sum l k x y p q)

-- The location of a GEP is normal.
pub from_gep-IsNormal : (off : Option ℤ) (l : Option GepLane) → IsNormal (from_gep off l)
unfolding from_gep
from_gep-IsNormal (some off) l = tt
from_gep-IsNormal none none = tt
from_gep-IsNormal none (some l) = go (new l.modulus l.residue) (new-IsClass l.modulus l.residue)
  where
    go :
        (o : Option GepLane)
        → IsClass l.modulus l.residue o
        → IsNormal (elim o [ none ↦ unknown | some n ↦ lane n ])
    go none h = tt
    go (some n) h = h.0
