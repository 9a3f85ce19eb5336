-- ===== src/Dispose/Groups/Totality.antt =====
-- The functions of crates/pangs-dispose/src/lib.rs on one coupling group answer without a panic.
use tenjin_pangs.Base.{
  ◌≡◌, ◌≢◌, refl, Bool, true, false, Option, none, some, List, [], ◌∷◌, ◌==◌, Result, ok, err,
  Fault, arith, Bool-cases, Option-cases, Result-cases, inl, inr,
}
use tenjin_pangs.Manifest.Strategy.{Strategy, unhandled, strategy_eq}
use tenjin_pangs.Manifest.Key.{Key, key_eq}
use tenjin_pangs.Manifest.Facts.{Json}
use tenjin_pangs.Manifest.Records.{GlobalRecord, CouplingGroup, GuardFailure}
use tenjin_pangs.Dispose.Config.{CascadeConfig, OverrideSpec, DisposeError}
use tenjin_pangs.Dispose.Overrides.{Log, is_disabled}
use tenjin_pangs.Dispose.Guards.{is_joint, applicable, failed, not_computed, evaluate}
use tenjin_pangs.Dispose.Guards.Eligible.{evaluate_total}
use tenjin_pangs.Dispose.Groups.{
  is_per_global, find_global, failures_of, failures_at, member_failures, group_failures,
  group_availability, members_allow, first_joint, independent_joint_group_strategy,
}
use tenjin_pangs.Dispose.Groups.Resolve.{
  Decision, reset_group, record_honored_group, fall_back, pin_available, pin_group, decide_group,
}

-- The computation ends with a value.
abbrev pub Returns : {A : Type 0} → Result A (Fault DisposeError) → Type 0
Returns (ok a) = Unit
Returns (err e) = ⊥

pub result_of : {A : Type 0} (r : Result A (Fault DisposeError)) → Returns r → (a : A) × (r ≡ ok a)
result_of (ok a) h = (a, refl)
result_of (err e) h = elim h [ ]

Returns-of : {A : Type 0} (r : Result A (Fault DisposeError)) (a : A) → r ≡ ok a → Returns r
Returns-of r a e = rw e tt

module _ {V : Type 0} where
  -- The later group has the id, the members and the analysis of the earlier one.
  pub record SameGroup (g g' : CouplingGroup V) : Type 0 where
    pub id : g'.id ≡ g.id
    pub members : g'.members ≡ g.members
    pub evidence : g'.evidence ≡ g.evidence
    pub support : g'.strategy_support ≡ g.strategy_support

  -- The computation ends with a decision about the group.
  abbrev pub Decides : CouplingGroup V → Result (Decision V) (Fault DisposeError) → Type 0
  Decides g (ok d) = SameGroup g d.group
  Decides g (err e) = ⊥

  SameGroup-refl : (g : CouplingGroup V) → SameGroup g g
  SameGroup-refl g = record { id = refl; members = refl; evidence = refl; support = refl }

  honored_same :
      (g : CouplingGroup V) (spec : OverrideSpec) (risk : Bool)
      → SameGroup g (record_honored_group g spec risk)
  unfolding record_honored_group
  honored_same g spec risk = record { id = refl; members = refl; evidence = refl; support = refl }

  Decides-of_reset :
      (g : CouplingGroup V) (r : Result (Decision V) (Fault DisposeError))
      → Decides (reset_group g) r
      → Decides g r
  Decides-of_reset g (ok d) h = record {
    id = h.id;
    members = h.members;
    evidence = h.evidence;
    support = h.support;
  }
  Decides-of_reset g (err e) h = h

  pub decision_of :
      (g : CouplingGroup V) (r : Result (Decision V) (Fault DisposeError))
      → Decides g r
      → (d : Decision V) × (r ≡ ok d) × SameGroup g d.group
  decision_of g (ok d) h = (d, refl, h)
  decision_of g (err e) h = elim h [ ]

module _ {V : Type 0} ⦃json : Json V⦄ where
  failures_of-Returns :
      (s : Strategy) (k : Key) (g : GlobalRecord V) → s ≢ unhandled → Returns (failures_of s k g)
  failures_of-Returns s k g n =
      let (r, e, named) = evaluate_total DisposeError s g.facts n in
      elim (Result-cases (evaluate {E = DisposeError} s g.facts)) [
        | inl (applicable, e') ↦ rw (e', Returns) tt
        | inl (failed guards, e') ↦ rw (e', Returns) tt
        | inl (not_computed fact, e') ↦ rw (e', Returns) tt
        | inr (x, e') ↦ cc
      ]

  failures_at-Returns :
      (globals : List (GlobalRecord V)) (s : Strategy) (k : Key)
      → s ≢ unhandled
      → Returns (failures_at globals s k)
  unfolding failures_at
  failures_at-Returns globals s k n = elim (Option-cases (find_global globals k)) [
    | inl e ↦ rw (e, failures_at) tt
    | inr (g, e) ↦ rw (e, failures_at) (failures_of-Returns s k g n)
  ]

  member_failures-Returns :
      (globals : List (GlobalRecord V)) (s : Strategy) (ks : List Key)
      → s ≢ unhandled
      → Returns (member_failures globals s ks)
  unfolding member_failures
  member_failures-Returns globals s [] n = tt
  member_failures-Returns globals s (k ∷ ks) n =
      let (here, e) = result_of (failures_at globals s k) (failures_at-Returns globals s k n) in
      let (rest, e') =
        result_of (member_failures globals s ks) (member_failures-Returns globals s ks n) in
      rw (e, e', member_failures) tt

  module _ (globals : List (GlobalRecord V)) where
    group_failures-Returns :
        (group : CouplingGroup V) (s : Strategy)
        → s ≢ unhandled
        → Returns (group_failures globals group s)
    unfolding group_failures
    group_failures-Returns group s n =
        let (ms, e) =
          result_of (member_failures globals s group.members)
            (member_failures-Returns globals s group.members n) in
        rw (e, group_failures) tt

    joint_not_unhandled : (s : Strategy) → is_joint s ≡ true → s ≢ unhandled
    joint_not_unhandled s h e = ground (arith, h, e)

    first_joint_step :
        (group : CouplingGroup V) (s : Strategy) (order : List Strategy)
        (fs : List (GuardFailure V))
        → is_joint s ≡ true
        → group_failures globals group s ≡ ok fs
        → Returns (first_joint globals group order)
        → Returns (first_joint globals group (s ∷ order))
    unfolding first_joint
    first_joint_step group s order [] shared e next = rw (shared, e, first_joint) tt
    first_joint_step group s order (f ∷ fs) shared e next = rw (shared, e, first_joint) next

    first_joint-Returns :
        (group : CouplingGroup V) (order : List Strategy)
        → Returns (first_joint globals group order)
    unfolding first_joint
    first_joint-Returns group [] = tt
    first_joint-Returns group (s ∷ order) = elim (Bool-cases (is_joint s)) [
      | inl shared ↦
          let (fs, e) =
            result_of (group_failures globals group s)
              (group_failures-Returns group s (joint_not_unhandled s shared)) in
          first_joint_step group s order fs shared e (first_joint-Returns group order)
      | inr other ↦ rw (other, first_joint) (first_joint-Returns group order)
    ]

    independent_joint-Returns :
        (group : CouplingGroup V) (config : CascadeConfig)
        → Returns (independent_joint_group_strategy globals group config)
    unfolding independent_joint_group_strategy
    independent_joint-Returns group config =
        elim (Bool-cases (members_allow globals group.members)) [
          | inl allowed ↦
              rw (allowed, independent_joint_group_strategy)
                (first_joint-Returns group config.order)
          | inr refused ↦ rw (refused, independent_joint_group_strategy) tt
        ]

    module _ (config : CascadeConfig) where
      fall_back-Decides :
          (group : CouplingGroup V) (log : Log V)
          → Decides group (fall_back globals config group log)
      unfolding fall_back
      fall_back-Decides group log =
          let (chosen, e) =
            result_of (independent_joint_group_strategy globals group config)
              (independent_joint-Returns group config) in
          rw (e, fall_back) (SameGroup-refl group)

      pin_available-Decides :
          (group : CouplingGroup V) (spec : OverrideSpec) (log : Log V)
          → spec.disposition ≢ unhandled
          → Decides group (pin_available globals config group spec log)
      unfolding pin_available record_honored_group
      pin_available-Decides group spec log n =
          elim (Result-cases (group_failures globals group spec.disposition)) [
            | inl ([], e) ↦ rw (e, pin_available) (honored_same group spec false)
            | inl (f ∷ fs, e) ↦ elim (Bool-cases spec.accept_risk) [
              | inl takes ↦
                  rw (e, takes, pin_available)
                    (record { id = refl; members = refl; evidence = refl; support = refl })
              | inr leaves ↦ rw (e, leaves, pin_available) (fall_back-Decides group _)
            ]
            | inr (x, e) ↦ absurd (rw e at (group_failures-Returns group spec.disposition n))
          ]

      pin_group-Decides :
          (group : CouplingGroup V) (spec : OverrideSpec) (log : Log V)
          → Decides group (pin_group globals config group spec log)
      unfolding pin_group
      pin_group-Decides group spec log = elim (Bool-cases (is_per_global spec.disposition)) [
        | inl p ↦ rw (p, pin_group) (fall_back-Decides group _)
        | inr p ↦ elim (Bool-cases (is_disabled config spec.disposition)) [
          | inl q ↦ rw (p, q, pin_group) (fall_back-Decides group _)
          | inr q ↦ elim (Bool-cases (spec.disposition == unhandled)) [
            | inl r ↦ rw (p, q, r, pin_group) (honored_same group spec false)
            | inr r ↦ elim (Option-cases (group_availability globals group spec.disposition)) [
              | inl a ↦
                  let n : spec.disposition ≢ unhandled =
                    λ k. ground (arith, r, strategy_eq.beq_iff spec.disposition unhandled) in
                  rw (p, q, r, a, pin_group) (pin_available-Decides group spec log n)
              | inr (o, a) ↦ rw (p, q, r, a, pin_group) (fall_back-Decides group _)
            ]
          ]
        ]
      ]

      -- The decision on a group is made without a panic, and it is about that group.
      pub decide_group-Decides :
          (spec : Option OverrideSpec) (group : CouplingGroup V) (log : Log V)
          → Decides group (decide_group globals config spec group log)
      unfolding decide_group
      decide_group-Decides none group log =
          Decides-of_reset group (fall_back globals config (reset_group group) log)
            (fall_back-Decides (reset_group group) log)
      decide_group-Decides (some spec) group log =
          Decides-of_reset group (pin_group globals config (reset_group group) spec log)
            (pin_group-Decides (reset_group group) spec log)
