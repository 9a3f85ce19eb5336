-- ===== src/Dispose/Demotion/Holder.antt =====
-- The group that holds the joint strategy of a global, for the demotion of
-- crates/pangs-dispose/src/lib.rs.
use tenjin_pangs.Base.{
  Bool, true, false, ◌&&◌, some, List, [], ◌∷◌, ◌==◌, string_eq, option_eq, ◌≡◌, refl, sym, ◌∙◌,
  ◌⊎◌, inl, inr, ◌↔◌, Bool-cases, arith,
}
use tenjin_pangs.Manifest.Strategy.{Strategy, strategy_eq}
use tenjin_pangs.Manifest.Records.{GlobalRecord, CouplingGroup}
use tenjin_pangs.Dispose.Demotion.{joint_group}

module _ {V : Type 0} (g : GlobalRecord V) (s : Strategy) where
  -- The global is of the group, and the group was given the strategy.
  abbrev pub Holds : CouplingGroup V → Type 0
  Holds group = (g.facts.coupling_group ≡ some group.id) × (group.group_disposition ≡ some s)

  -- The first group of the list that does.
  abbrev pub IsHolder : CouplingGroup V → List (CouplingGroup V) → Type 0
  IsHolder group [] = ⊥
  IsHolder group (other ∷ groups) =
      (other ≡ group) × Holds other ⊎ (¬ Holds other) × IsHolder group groups

  abbrev holds : CouplingGroup V → Bool
  holds group = g.facts.coupling_group == some group.id && group.group_disposition == some s

  holds_iff : (group : CouplingGroup V) → (holds group ≡ true) ↔ Holds group
  holds_iff group =
      let place = option_eq.beq_iff g.facts.coupling_group (some group.id) in
      let choice = option_eq.beq_iff group.group_disposition (some s) in
      (
        λ t. (place.0 (ground arith), choice.0 (ground arith)),
        λ (p, c). rw (place.1 p, choice.1 c) refl,
      )

  pub joint_group_iff :
      (group : CouplingGroup V) (groups : List (CouplingGroup V))
      → (joint_group groups g s ≡ some group) ↔ IsHolder group groups
  joint_group_iff group [] = (λ e. cc, λ h. absurd h)
  joint_group_iff group (other ∷ groups) = elim (Bool-cases (holds other)) [
    | inl t ↦ (
      λ e. inl (some_eq (rw (t, joint_group) at e), (holds_iff other).0 t),
      λ h. elim h [
        | inl (q, k) ↦ rw (t, joint_group, q) refl
        | inr (n, k) ↦ absurd (n ((holds_iff other).0 t))
      ],
    )
    | inr f ↦ (
      λ e. inr (misses f, (joint_group_iff group groups).0 (rw (f, joint_group) at e)),
      λ h. elim h [
        | inl (q, k) ↦ absurd (misses f k)
        | inr (n, k) ↦ rw (f, joint_group) ((joint_group_iff group groups).1 k)
      ],
    )
  ]
    where
      some_eq : {A : Type 0} {a b : A} → some a ≡ some b → a ≡ b
      some_eq e = cc

      misses : holds other ≡ false → ¬ Holds other
      misses f k = let clash : true ≡ false = sym ((holds_iff other).1 k) ∙ f in cc
