-- ===== src/Dispose/Groups/Joint.antt =====
-- What the automatic joint strategy of crates/pangs-dispose/src/lib.rs guarantees of its group.
use tenjin_pangs.Base.{
  String, ◌≡◌, ◌≢◌, refl, ap, true, Option, some, List, [], ◌∷◌, ◌++◌, Result, ok, Fault, ◌>>=◌,
  contains, All, arith, Bool-cases, Result-cases, inl, inr, >>=-eq-ok, sort_by_nil, ◌⊎◌, IsIn,
  contains_iff, append_nil, map_nil, beq_refl,
}
use tenjin_pangs.Manifest.Strategy.{Strategy, once_lock, mutex, unhandled, strategy_eq}
use tenjin_pangs.Manifest.Key.{Key, key_eq}
use tenjin_pangs.Manifest.Facts.{Facts, Json}
use tenjin_pangs.Manifest.Records.{GlobalRecord, CouplingGroup}
use tenjin_pangs.Dispose.Config.{CascadeConfig, DisposeError}
use tenjin_pangs.Dispose.Guards.{is_joint, GuardResult, applicable, failed, not_computed, evaluate}
use tenjin_pangs.Dispose.Guards.Eligible.{Eligible, evaluate-Eligible, evaluate_total}
use tenjin_pangs.Dispose.Overrides.Witnesses.{guard_failures, member_guard_cmp}
use tenjin_pangs.Dispose.Groups.{
  find_global, members_allow, failures_of, failures_at, member_failures, support_failures,
  group_failures, first_joint, independent_joint_group_strategy,
}
use tenjin_pangs.Dispose.Groups.Support.{
  IsExplained, Supports, IsOpen, support_failures_nil, members_allow_sound,
}

some_of_ok :
    {s t : Strategy}
    → ◌≡◌ {A = Result (Option Strategy) (Fault DisposeError)} (ok (some s)) (ok (some t))
    → s ≡ t
some_of_ok h = cc

joint_cases : (s : Strategy) → is_joint s ≡ true → (s ≡ once_lock) ⊎ (s ≡ mutex)
joint_cases once_lock h = inl refl
joint_cases mutex h = inr refl
joint_cases _ h = cc

module _ {V : Type 0} ⦃json : Json V⦄ where
  guard_failures_nil :
      (k : Key) (f : Facts V) (guards : List String) → guard_failures k f guards ≡ [] → guards ≡ []
  unfolding guard_failures
  guard_failures_nil k f guards h = map_nil _ guards (sort_by_nil member_guard_cmp _ h)

  failures_of_nil :
      (s : Strategy) (k : Key) (g : GlobalRecord V)
      → s ≢ unhandled
      → failures_of s k g ≡ ok []
      → Eligible s g.facts
  failures_of_nil s k g n h =
      let (r, e, named) = evaluate_total DisposeError s g.facts n in by_answer r e named
    where
      by_answer :
          (r : GuardResult)
          → evaluate {E = DisposeError} s g.facts ≡ ok r
          → r ≢ failed []
          → Eligible s g.facts
      by_answer applicable e named = (evaluate-Eligible DisposeError s g.facts).0 e
      by_answer (failed guards) e named =
          absurd (named (ap failed (guard_failures_nil k g.facts guards (ground arith))))
      by_answer (not_computed fact) e named = absurd (ground arith)

  failures_at_found :
      (globals : List (GlobalRecord V)) (s : Strategy) (k : Key) (g : GlobalRecord V)
      → find_global globals k ≡ some g
      → failures_at globals s k ≡ ok []
      → failures_of s k g ≡ ok []
  unfolding failures_at
  failures_at_found globals s k g e h = rw (e, failures_at) at h

  member_failures_nil :
      (globals : List (GlobalRecord V)) (s : Strategy) (ks : List Key)
      → s ≢ unhandled
      → member_failures globals s ks ≡ ok []
      → All (λ k. (g : GlobalRecord V) → find_global globals k ≡ some g → Eligible s g.facts) ks
  unfolding member_failures
  member_failures_nil globals s [] n h = tt
  member_failures_nil globals s (k ∷ ks) n h =
      let (here, runs, next) =
        >>=-eq-ok (failures_at globals s k)
          (λ here. member_failures globals s ks >>= λ rest. ok (here ++ rest)) h in
      let (rest, runs', last) =
        >>=-eq-ok (member_failures globals s ks) (λ rest. ok (here ++ rest)) next in
      let (none_here, none_rest) = append_nil here rest (ground arith) in
      (
        λ g e. failures_of_nil s k g n (failures_at_found globals s k g e (rw none_here at runs)),
        member_failures_nil globals s ks n (rw none_rest at runs'),
      )

  -- What `group_failures` finds when it finds nothing.
  group_failures_nil :
      (globals : List (GlobalRecord V)) (group : CouplingGroup V) (s : Strategy)
      → group_failures globals group s ≡ ok []
      → (member_failures globals s group.members ≡ ok []) × (support_failures group s ≡ [])
  unfolding group_failures
  group_failures_nil globals group s h =
      let (ms, runs, last) = >>=-eq-ok (member_failures globals s group.members) _ h in
      let (none_members, none_support) =
        append_nil ms _ (sort_by_nil member_guard_cmp _ (ground arith)) in
      (rw none_members at runs, none_support)

  -- The automatic joint strategy of a group.
  pub record IsSharedChoice (globals : List (GlobalRecord V)) (group : CouplingGroup V)
      (order : List Strategy) (s : Strategy) : Type 0 where
    pub shared : (s ≡ once_lock) ⊎ (s ≡ mutex)
    pub named : IsIn s order
    pub independent : All (IsOpen globals) group.members
    pub eligible :
        All
          (λ k. (g : GlobalRecord V) → find_global globals k ≡ some g → Eligible s g.facts)
          group.members
    pub supported : Supports group s

  first_joint_sound :
      (globals : List (GlobalRecord V)) (group : CouplingGroup V) (order : List Strategy)
      (s : Strategy)
      → first_joint globals group order ≡ ok (some s)
      → (is_joint s ≡ true) × (contains order s ≡ true) × (group_failures globals group s ≡ ok [])
  unfolding first_joint
  first_joint_sound globals group [] s h = cc
  first_joint_sound globals group (t ∷ order) s h = elim (Bool-cases (is_joint t)) [
    | inl shared ↦ elim (Result-cases (group_failures globals group t)) [
      | inl ([], e) ↦
          let p : t ≡ s = some_of_ok (rw (shared, e, first_joint) at h) in
          rw (← p) (shared, rw (beq_refl t), e)
      | inl (f ∷ fs, e) ↦
          let (a, b, c) =
            first_joint_sound globals group order s (rw (shared, e, first_joint) at h) in
          (a, ground (arith, b), c)
      | inr (x, e) ↦ cc (rw (shared, e, first_joint) at h)
    ]
    | inr other ↦
        let (a, b, c) = first_joint_sound globals group order s (rw (other, first_joint) at h) in
        (a, ground (arith, b), c)
  ]

  -- A joint strategy that is chosen automatically for a group with members, whose mutex certificate
  -- carries a witness if it failed, is `once_lock` or `mutex` and of the order. Every member is a
  -- global that the cascade gave no strategy of its own and that is eligible for the joint one, and
  -- the group supports it: `once_lock` with its common publication, `mutex` with a certified
  -- certificate.
  pub independent_joint-IsSharedChoice :
      (globals : List (GlobalRecord V)) (group : CouplingGroup V) (config : CascadeConfig)
      (s : Strategy)
      → group.members ≢ []
      → IsExplained group.strategy_support.mutex
      → independent_joint_group_strategy globals group config ≡ ok (some s)
      → IsSharedChoice globals group config.order s
  unfolding independent_joint_group_strategy
  independent_joint-IsSharedChoice globals group config s nonempty explained h =
      elim (Bool-cases (members_allow globals group.members)) [
        | inl allowed ↦
            let (shared, named, clean) =
              first_joint_sound globals group config.order s
                (rw (allowed, independent_joint_group_strategy) at h) in
            let (members, support) = group_failures_nil globals group s clean in
            record {
              shared = joint_cases s shared;
              named = (contains_iff config.order s).0 named;
              independent = members_allow_sound globals group.members allowed;
              eligible =
                  member_failures_nil globals s group.members (λ e. ground (arith, shared, e))
                    members;
              supported = support_failures_nil group s nonempty explained support;
            }
        | inr refused ↦ cc (rw (refused, independent_joint_group_strategy) at h)
      ]
