-- ===== src/Solve/Pag/Compatible.antt =====
-- Which functions `fsa_compatible` of crates/pangs-pir/src/lib.rs lets a call site call.
mod Tests
use tenjin_pangs.Base.{
  ℕ, zero, suc, String, Bool, true, false, not, ◌&&◌, ◌||◌, List, [], ◌∷◌, some, Option, ◌≡◌, refl,
  sym, ap, ◌∙◌, ◌⊎◌, inl, inr, ◌↔◌, ◌≤◌, arith, length, ltb, if◌then◌else◌, ◌==◌, string_eq,
  get_elem?, eq_of_beq, beq_refl,
}
use tenjin_pangs.Solve.Pag.{
  AbiClass, Param, class, class_eq, Signature, classes_agree, fsa_compatible, class_beq_iff,
}

-- Parameters at the same place have the same class.
abbrev pub ClassesAgree : List Param → List Param → Type 0
ClassesAgree left right =
    (i : ℕ) (l r : Param)
    → get_elem? left i ≡ some l
    → get_elem? right i ≡ some r
    → class l ≡ class r

-- The conventions are equal, the site passes at least the callee's parameters and agrees with them,
-- and the returned classes are equal or one of them is void.
abbrev pub Accepts : Signature → Signature → Type 0
Accepts site callee =
    (site.cc ≡ callee.cc)
    × (length callee.params ≤ length site.params)
    × ClassesAgree site.params callee.params
    × ((site.ret ≡ callee.ret) ⊎ (site.ret ≡ AbiClass.void) ⊎ (callee.ret ≡ AbiClass.void))

if_false : (b c : Bool) → ((if b then false else c) ≡ true) ↔ ((b ≡ false) × (c ≡ true))
if_false true c = (λ e. cc, λ h. cc)
if_false false c = (λ e. (refl, e), λ h. h.1)

and_true : (b c : Bool) → ((b && c) ≡ true) ↔ ((b ≡ true) × (c ≡ true))
and_true true c = (λ e. (refl, e), λ h. h.1)
and_true false c = (λ e. cc, λ h. cc)

or_true : (b c : Bool) → ((b || c) ≡ true) ↔ ((b ≡ true) ⊎ (c ≡ true))
or_true true c = (λ e. inl refl, λ h. refl)
or_true false c = (λ e. inr e, λ h. elim h [ inl e ↦ cc | inr e ↦ e ])

classes_agree_iff :
    (left right : List Param) → (classes_agree left right ≡ true) ↔ ClassesAgree left right
classes_agree_iff [] right = (λ e i l r p q. cc, λ h. refl)
classes_agree_iff (x ∷ left) [] = (λ e i l r p q. cc, λ h. refl)
classes_agree_iff (x ∷ left) (y ∷ right) =
    let (front, back) = classes_agree_iff left right in
    let both = and_true (class x == class y) (classes_agree left right) in
    (
      λ e i l r p q. at_place i l r (both.0 e).0 (front (both.0 e).1) p q,
      λ h. both.1 (same (h 0 x y refl refl), back (λ i l r p q. h (suc i) l r p q)),
    )
  where
    same : class x ≡ class y → (class x == class y) ≡ true
    same e = rw e (beq_refl (class y))

    at_place :
        (i : ℕ) (l r : Param)
        → (class x == class y) ≡ true
        → ClassesAgree left right
        → get_elem? (x ∷ left) i ≡ some l
        → get_elem? (y ∷ right) i ≡ some r
        → class l ≡ class r
    at_place zero l r t rest p q =
        ap class (sym (some_eq p)) ∙ eq_of_beq (class x) (class y) t ∙ ap class (some_eq q)
      where
        some_eq : {A : Type 0} {a b : A} → some a ≡ some b → a ≡ b
        some_eq e = cc
    at_place (suc i) l r t rest p q = rest i l r p q

iff_trans : {A B C : Type 0} → A ↔ B → B ↔ C → A ↔ C
iff_trans f g = (λ a. g.0 (f.0 a), λ c. f.1 (g.1 c))

iff_pair : {A B C D : Type 0} → A ↔ B → C ↔ D → (A × C) ↔ (B × D)
iff_pair f g = (λ h. (f.0 h.0, g.0 h.1), λ h. (f.1 h.0, g.1 h.1))

iff_sum : {A B C D : Type 0} → A ↔ B → C ↔ D → (A ⊎ C) ↔ (B ⊎ D)
iff_sum f g = (
  λ h. elim h [ inl a ↦ inl (f.0 a) | inr c ↦ inr (g.0 c) ],
  λ h. elim h [ inl b ↦ inl (f.1 b) | inr d ↦ inr (g.1 d) ],
)

flat : {A B C D : Type 0} → (A × (B × (C × D))) ↔ (A × B × C × D)
flat = (λ (a, (b, (c, d))). (a, b, c, d), λ (a, b, c, d). (a, (b, (c, d))))

not-false : (b : Bool) → (not b ≡ false) ↔ (b ≡ true)
not-false true = (λ e. refl, λ e. refl)
not-false false = (λ e. cc, λ e. cc)

cc_iff : (a b : String) → (not (a == b) ≡ false) ↔ (a ≡ b)
cc_iff a b = iff_trans (not-false (a == b)) (λ e. eq_of_beq a b e, λ e. rw e (beq_refl b))

count_iff : (vararg : Bool) (n k : ℕ) → ((if vararg then ltb n k else ltb n k) ≡ false) ↔ (k ≤ n)
count_iff true n k = (λ e. ground arith, λ h. ground arith)
count_iff false n k = (λ e. ground arith, λ h. ground arith)

ret_iff :
    (a b : AbiClass)
    → ((a == b || a == AbiClass.void || b == AbiClass.void) ≡ true)
      ↔ ((a ≡ b) ⊎ (a ≡ AbiClass.void) ⊎ (b ≡ AbiClass.void))
ret_iff a b = iff_trans (or_true (a == b || a == AbiClass.void) (b == AbiClass.void)) (
    iff_trans
      (iff_sum
        (iff_trans (or_true (a == b) (a == AbiClass.void))
          (iff_sum (class_beq_iff a b) (class_beq_iff a AbiClass.void)))
        (class_beq_iff b AbiClass.void))
      regroup)
  where
    regroup : {A B C : Type 0} → ((A ⊎ B) ⊎ C) ↔ (A ⊎ (B ⊎ C))
    regroup = (
      λ h. elim h [ inl (inl a) ↦ inl a | inl (inr b) ↦ inr (inl b) | inr c ↦ inr (inr c) ],
      λ h. elim h [ inl a ↦ inl (inl a) | inr (inl b) ↦ inl (inr b) | inr (inr c) ↦ inr c ],
    )

-- The test accepts exactly the functions with as many parameters as the site passes or fewer, of its
-- classes, with its calling convention and a return class that fits; variable arguments make no
-- difference.
pub fsa_compatible_iff :
    (site callee : Signature) → (fsa_compatible site callee ≡ true) ↔ Accepts site callee
unfolding fsa_compatible
fsa_compatible_iff site callee =
    let agree = classes_agree site.params callee.params in
    let ret = site.ret == callee.ret || site.ret == AbiClass.void || callee.ret == AbiClass.void in
    let last = if not agree then false else ret in
    let few =
      if callee.vararg
      then ltb (length site.params) (length callee.params)
      else ltb (length site.params) (length callee.params) in
    iff_trans
      (iff_trans (if_false (not (site.cc == callee.cc)) (if few then false else last)) (
        iff_pair (cc_iff site.cc callee.cc) (
          iff_trans (if_false few last) (
            iff_pair (count_iff callee.vararg (length site.params) (length callee.params)) (
              iff_trans (if_false (not agree) ret) (
                iff_pair (iff_trans (not-false agree) (classes_agree_iff site.params callee.params))
                  (ret_iff site.ret callee.ret)))))))
      flat
