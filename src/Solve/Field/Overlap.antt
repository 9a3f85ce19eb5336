-- ===== src/Solve/Field/Overlap.antt =====
-- `FieldRegion::may_overlap` of crates/pangs-solve/src/lib.rs tells whether two regions share a byte.
use tenjin_pangs.Base.{
  ℕ, String, ◌+◌, ◌≡◌, refl, sym, ap, ◌∙◌, Bool, true, false, Option, none, some, Result, ok, ◌<◌,
  ◌↔◌, arith, ◌&&◌,
}
use tenjin_pangs.Base.Int.{
  ℤ, pos, pos_part, neg_part, ◌+ℤ◌, ◌-ℤ◌, ◌≤ℤ◌, ltb_ℤ, int_laws, eq_of_parts,
}
use tenjin_pangs.Solve.Lane.{GepLane, gcd_u64}
use tenjin_pangs.Solve.Lane.Congruence.{IsCongruent-refl}
use tenjin_pangs.Solve.Lane.Gcd.{gcd_u64_bounds}
use tenjin_pangs.Solve.Field.{
  FieldLocation, exact, lane, unknown, may_overlap, overlap_known, lane_overlaps_exact,
  congruence_in_range, low_end, high_end, at_least_one, access, address, may_alias,
}
use tenjin_pangs.Solve.Field.Congruence.{IsReached, congruence_in_range-IsReached}
use tenjin_pangs.Solve.Field.Meaning.{Contains, IsNormal, IsNormalLane}
use tenjin_pangs.Solve.Field.Alias.{Decides, Meets, may_alias-Decides, Contains-some}
use tenjin_pangs.Solve.Field.Near.{
  Covers, Shares, Near, Near-Shares, Shares-sym, IsReached-exact, IsReached-lane, Covers-start,
}

Decides-imp : (r : Result Bool String) (P Q : Type 0) → P ↔ Q → Decides r P → Decides r Q
Decides-imp r P Q f (answer, e, c) = (answer, e, (λ t. f.0 (c.0 t), λ q. c.1 (f.1 q)))

lane_overlaps_exact-Decides :
    (l : GepLane) (u : ℕ) (a : ℤ) (v : ℕ)
    → IsNormalLane l
    → 0 < u
    → 0 < v
    → Decides (lane_overlaps_exact l u a v) (Shares (lane l) u (exact a) v)
unfolding lane_overlaps_exact
lane_overlaps_exact-Decides l u a v h hu hv =
    Decides-imp (lane_overlaps_exact l u a v) (Near (lane l) u (exact a) v)
      (Shares (lane l) u (exact a) v) (Near-Shares (lane l) u (exact a) v hu hv)
      (Decides-imp (lane_overlaps_exact l u a v)
        (IsReached (l.residue -ℤ a) l.modulus (low_end u) (high_end v))
        (Near (lane l) u (exact a) v) (IsReached-exact l u a v)
        (congruence_in_range-IsReached (l.residue -ℤ a) l.modulus (low_end u) (high_end v) h.0))

ltb_ℤ-lt : (x y : ℤ) → (ltb_ℤ x y ≡ true) ↔ (pos_part x + neg_part y < pos_part y + neg_part x)
ltb_ℤ-lt x y = (λ e. ground arith, λ h. ground arith)

and_true : (p q : Bool) → (p && q ≡ true) ↔ ((p ≡ true) × (q ≡ true))
and_true true q = (λ e. (refl, e), λ h. h.1)
and_true false q = (λ e. cc, λ h. cc)

exact_overlaps :
    (a : ℤ) (u : ℕ) (b : ℤ) (v : ℕ)
    → ((ltb_ℤ a (b +ℤ pos v) && ltb_ℤ b (a +ℤ pos u)) ≡ true) ↔ Near (exact a) u (exact b) v
exact_overlaps a u b v =
    let left = ltb_ℤ-lt a (b +ℤ pos v) in
    let right = ltb_ℤ-lt b (a +ℤ pos u) in
    let both = and_true (ltb_ℤ a (b +ℤ pos v)) (ltb_ℤ b (a +ℤ pos u)) in
    (
      λ e.
          let below = left.0 (both.0 e).0 in
          let above = right.0 (both.0 e).1 in
          (a, b, refl, refl, omega (int_laws, below, above), omega (int_laws, below, above)),
      λ (x, y, p, q, low, high).
          let low_ab : low_end u ≤ℤ a -ℤ b = rw (p, q) at low in
          let high_ab : a -ℤ b ≤ℤ high_end v = rw (p, q) at high in
          both.1 (left.1 (omega int_laws), right.1 (omega int_laws)),
    )

-- For normal locations and widths of at least one byte, the test returns and its answer is whether
-- there is a shared byte.
overlap_known-Decides :
    (a : FieldLocation) (u : ℕ) (b : FieldLocation) (v : ℕ)
    → IsNormal a
    → IsNormal b
    → 0 < u
    → 0 < v
    → Decides (overlap_known a u b v) (Shares a u b v)
unfolding overlap_known
overlap_known-Decides unknown u b v h k hu hv =
    let (y, p) = Contains-some b in
    (true, refl, (λ e. (y, Covers-start unknown u y hu tt, Covers-start b v y hv p), λ s. refl))
overlap_known-Decides (exact a) u unknown v h k hu hv = (
  true,
  refl,
  (λ e. (a, Covers-start (exact a) u a hu refl, Covers-start unknown v a hv tt), λ s. refl),
)
overlap_known-Decides (lane l) u unknown v h k hu hv =
    let p = IsCongruent-refl l.modulus l.residue in
    (
      true,
      refl,
      (
        λ e. (
          l.residue,
          Covers-start (lane l) u l.residue hu p,
          Covers-start unknown v l.residue hv tt,
        ),
        λ s. refl,
      ),
    )
overlap_known-Decides (exact a) u (exact b) v h k hu hv =
    Decides-imp (overlap_known (exact a) u (exact b) v) (Near (exact a) u (exact b) v)
      (Shares (exact a) u (exact b) v) (Near-Shares (exact a) u (exact b) v hu hv)
      (ltb_ℤ a (b +ℤ pos v) && ltb_ℤ b (a +ℤ pos u), refl, exact_overlaps a u b v)
overlap_known-Decides (lane l) u (exact b) v h k hu hv = lane_overlaps_exact-Decides l u b v h hu hv
overlap_known-Decides (exact a) u (lane l) v h k hu hv =
    Decides-imp (lane_overlaps_exact l v a u) (Shares (lane l) v (exact a) u)
      (Shares (exact a) u (lane l) v)
      (Shares-sym (lane l) v (exact a) u, Shares-sym (exact a) u (lane l) v)
      (lane_overlaps_exact-Decides l v a u k hv hu)
overlap_known-Decides (lane l) u (lane k) v h n hu hv =
    let g = gcd_u64 l.modulus k.modulus in
    let test = congruence_in_range (l.residue -ℤ k.residue) g (low_end u) (high_end v) in
    Decides-imp test (Near (lane l) u (lane k) v) (Shares (lane l) u (lane k) v)
      (Near-Shares (lane l) u (lane k) v hu hv)
      (Decides-imp test (IsReached (l.residue -ℤ k.residue) g (low_end u) (high_end v))
        (Near (lane l) u (lane k) v) (IsReached-lane l u k v)
        (congruence_in_range-IsReached (l.residue -ℤ k.residue) g (low_end u) (high_end v)
          (gcd_u64_bounds l.modulus k.modulus h.0).0))

may_overlap-known :
    (a : FieldLocation) (u : ℕ) (b : FieldLocation) (v : ℕ)
    → may_overlap (access a (some u)) (access b (some v))
      ≡ overlap_known a (at_least_one u) b (at_least_one v)
unfolding may_overlap overlap_known
may_overlap-known unknown u b v = refl
may_overlap-known (exact a) u unknown v = refl
may_overlap-known (lane l) u unknown v = refl
may_overlap-known (exact a) u (exact b) v = refl
may_overlap-known (exact a) u (lane k) v = refl
may_overlap-known (lane l) u (exact b) v = refl
may_overlap-known (lane l) u (lane k) v = refl

-- For normal locations and known widths, the test returns and it answers true exactly if the two
-- regions share a byte, where a width of zero counts as one byte.
pub may_overlap-Decides :
    (a : FieldLocation) (u : ℕ) (b : FieldLocation) (v : ℕ)
    → IsNormal a
    → IsNormal b
    → Decides
        (may_overlap (access a (some u)) (access b (some v)))
        (Shares a (at_least_one u) b (at_least_one v))
may_overlap-Decides a u b v h k =
    rw (may_overlap-known a u b v) (
      overlap_known-Decides a (at_least_one u) b (at_least_one v) h k (ground arith) (ground arith))

-- A byte of a region; one of unknown extent has every byte from an offset of its location on.
abbrev pub CoversRegion : FieldLocation → Option ℕ → ℤ → Type 0
CoversRegion a none z = (x : ℤ) × Contains a x × (x ≤ℤ z)
CoversRegion a (some w) z = Covers a (at_least_one w) z

no_width :
    (a b : FieldLocation) (v : Option ℕ)
    → (may_overlap (access a none) (access b v) ≡ ok true)
      × (may_overlap (access a v) (access b none) ≡ ok true)
unfolding may_overlap
no_width a b v = ground arith

-- Two regions at normal locations that share a byte overlap, also where an extent is unknown.
pub may_overlap_sound :
    (a : FieldLocation) (u : Option ℕ) (b : FieldLocation) (v : Option ℕ) (z : ℤ)
    → IsNormal a
    → IsNormal b
    → CoversRegion a u z
    → CoversRegion b v z
    → may_overlap (access a u) (access b v) ≡ ok true
may_overlap_sound a none b v z h k p q = (no_width a b v).0
may_overlap_sound a (some u) b none z h k p q = (no_width a b (some u)).1
may_overlap_sound a (some u) b (some v) z h k p q =
    let (answer, e, c) = may_overlap-Decides a u b v h k in e ∙ ap ok (c.1 (z, p, q))

Meets-Shares : (a b : FieldLocation) → Meets a b ↔ Shares a 1 b 1
Meets-Shares a b = (
  λ (x, p, q). (x, Covers-start a 1 x (omega arith) p, Covers-start b 1 x (omega arith) q),
  λ (z, (x, p, low, high), (y, q, below, above)).
      let left : x ≡ z = eq_of_parts x z (omega int_laws) in
      let right : y ≡ z = eq_of_parts y z (omega int_laws) in (z, rw left at p, rw right at q),
)

Decides-unique : (r s : Result Bool String) (P : Type 0) → Decides r P → Decides s P → r ≡ s
Decides-unique r s P (x, e, c) (y, f, d) = e ∙ ap ok (iff_eq x y (c.0, c.1) (d.0, d.1)) ∙ sym f
  where
    iff_eq : (x y : Bool) → ((x ≡ true) ↔ P) → ((y ≡ true) ↔ P) → x ≡ y
    iff_eq true y c d = sym (d.1 (c.0 refl))
    iff_eq false true c d = c.1 (d.0 refl)
    iff_eq false false c d = refl

-- Two addresses at normal locations overlap exactly if the locations may alias.
pub may_overlap-may_alias :
    (a b : FieldLocation)
    → IsNormal a
    → IsNormal b
    → may_overlap (address a) (address b) ≡ may_alias a b
may_overlap-may_alias a b h k =
    let (left, right) = Meets-Shares a b in
    Decides-unique (may_overlap (address a) (address b)) (may_alias a b) (Meets a b)
      (Decides-imp (may_overlap (address a) (address b)) (Shares a 1 b 1) (Meets a b) (right, left)
        (may_overlap-Decides a 0 b 0 h k))
      (may_alias-Decides a b h k)
