-- ===== src/Dispose/Guards/Eligible.antt =====
-- The conditions under which each strategy's guard in crates/pangs-dispose/src/lib.rs applies.
use tenjin_pangs.Base.{
  String, ◌≡◌, ◌≢◌, ◌↔◌, refl, Bool, true, false, ◌&&◌, ◌||◌, Option, none, some, List, [], ◌∷◌,
  string_eq, ok, err, Fault, any, is_err, contains_key, arith, All, Bool-cases, Result-cases, inl,
  inr, any-eq-false, All-any-false, contains_key-lookup,
}
use tenjin_pangs.Manifest.Strategy.{
  Strategy, immutable, once_lock, atomic, mutex, localize, unhandled, strategy_eq, is_hard,
}
use tenjin_pangs.Manifest.Facts.{
  Facts, Certificate, is_certified, verdict_is_ok, ViolationRelevanceDiagnostic, SourceObligations,
  Json, source_obligations, has_hard_violation, Localization,
}
use tenjin_pangs.Dispose.Guards.{
  is_joint, certificate_guard, applicable, failed, GuardResult, hard_blocks, violation_taint_blocks,
  localize_exempt_violation_kind, is_update, is_unclassified, source_immutable_failures,
  tainted_failures, source_failures, untainted, evaluate_facts, evaluate,
}

module _ {V : Type 0} where
  -- The source obligations leave nothing that keeps a static from being immutable.
  pub record IsConstant (source : SourceObligations V) : Type 0 where
    pub declared : source.declaration ≢ none
    pub pointer_free : source.contains_object_pointer ≡ false
    pub plain_initializer : source.initializer_features ≡ []
    pub never_assigned : All (λ o. is_update o ≡ false) source.observations
    pub classified : All (λ o. is_unclassified o ≡ false) source.observations

  pub source_immutable_failures_nil :
      (source : SourceObligations V) → (source_immutable_failures source ≡ []) ↔ IsConstant source
  unfolding source_immutable_failures
  source_immutable_failures_nil source = (
    λ h. record {
      declared = λ e. ground arith;
      pointer_free = ground arith;
      plain_initializer = ground arith;
      never_assigned = any-eq-false is_update source.observations (ground arith);
      classified = any-eq-false is_unclassified source.observations (ground arith);
    },
    λ c.
        let a = All-any-false is_update source.observations c.never_assigned in
        let b = All-any-false is_unclassified source.observations c.classified in
        ground (arith, a, b, c.declared, c.pointer_free, c.plain_initializer),
  )

  -- Every hard diagnostic is of the kind that localization tolerates.
  abbrev pub AllExempt : List (ViolationRelevanceDiagnostic V) → Type 0
  AllExempt =
      All (λ d. is_hard d.classification ≡ true → d.finding_kind ≡ localize_exempt_violation_kind)

  hard_blocks_sound :
      (taint saw : Bool) (ds : List (ViolationRelevanceDiagnostic V))
      → hard_blocks taint saw ds ≡ false
      → AllExempt ds × (taint ≡ true → (saw || any (λ d. is_hard d.classification) ds) ≡ true)
  unfolding hard_blocks
  hard_blocks_sound taint saw [] h = (tt, λ e. ground arith)
  hard_blocks_sound taint saw (d ∷ ds) h =
      let (exempt, seen) =
        hard_blocks_sound taint (saw || is_hard d.classification) ds (ground arith) in
      (
        (
          λ hard. ground (arith, string_eq.beq_iff d.finding_kind localize_exempt_violation_kind),
          exempt,
        ),
        λ e. ground (arith, seen e),
      )

  hard_blocks_complete :
      (taint saw : Bool) (ds : List (ViolationRelevanceDiagnostic V))
      → AllExempt ds
      → (taint ≡ true → (saw || any (λ d. is_hard d.classification) ds) ≡ true)
      → hard_blocks taint saw ds ≡ false
  unfolding hard_blocks
  hard_blocks_complete taint saw [] a t = elim (Bool-cases taint) [
    | inl yes_taint ↦ ground (arith, t yes_taint)
    | inr no_taint ↦ ground arith
  ]
  hard_blocks_complete taint saw (d ∷ ds) a t =
      let rest =
        hard_blocks_complete taint (saw || is_hard d.classification) ds a.1
          (λ e. ground (arith, t e)) in
      ground (arith, rest, a.0, string_eq.beq_iff d.finding_kind localize_exempt_violation_kind)

  certificate_guard_applicable :
      (name : String) (slot : Option (Certificate V))
      → certificate_guard name slot ≡ applicable
      → (c : Certificate V) × (slot ≡ some c) × (is_certified c ≡ true)
  certificate_guard_applicable name none h = cc
  certificate_guard_applicable name (some c) h = (c, refl, ground arith)

module _ {V : Type 0} ⦃json : Json V⦄ where
  -- The source contract, where there is one, decodes and names the supported emitter.
  abbrev pub ContractHolds : Facts V → Type 0
  ContractHolds f = is_err (source_obligations f) ≡ false

  -- The conditions of each strategy, as the policy documents them.
  abbrev pub Eligible : Strategy → Facts V → Type 0
  Eligible immutable f =
      ContractHolds f
      × (f.atomic_declaration.value ≡ false)
      × (f.violation_taint.value ≡ false)
      × (f.written.value ≡ false)
      × (f.omega_escaped_address.value ≡ false)
      × ((source : SourceObligations V)
          → source_obligations f ≡ ok (some source)
          → IsConstant source)
  Eligible once_lock f =
      (contains_key "source_obligations" f.extra ≡ false)
      × (f.atomic_declaration.value ≡ false)
      × (f.violation_taint.value ≡ false)
      × ((c : Certificate V) × (f.phase_stationarity ≡ some c) × (is_certified c ≡ true))
  Eligible atomic f = ContractHolds f × (f.atomic_declaration.value ≡ true)
  Eligible mutex f =
      (contains_key "source_obligations" f.extra ≡ false)
      × (f.atomic_declaration.value ≡ false)
      × (f.violation_taint.value ≡ false)
      × ((c : Certificate V) × (f.mutex_eligibility ≡ some c) × (is_certified c ≡ true))
  Eligible localize f =
      ContractHolds f
      × (f.atomic_declaration.value ≡ false)
      × AllExempt f.violation_relevance
      × (f.violation_taint.value ≡ true → has_hard_violation f ≡ true)
      × ((l : Localization V) × (f.localization ≡ some l) × (verdict_is_ok l.verdict ≡ true))
  Eligible unhandled f = ⊥

  -- Without a contract there is nothing to decode.
  pub no_obligations :
      (f : Facts V)
      → contains_key "source_obligations" f.extra ≡ false
      → source_obligations f ≡ ok none
  unfolding source_obligations
  no_obligations f h = rw (contains_key-lookup "source_obligations" f.extra h, source_obligations)

  pub no_contract :
      (f : Facts V) → contains_key "source_obligations" f.extra ≡ false → ContractHolds f
  no_contract f h = rw (no_obligations f h)

  module _ (E : Type 0) where
    contract_of :
        (s : Strategy) (f : Facts V)
        → evaluate {E = E} s f ≡ ok applicable
        → ContractHolds f
          × ((contains_key "source_obligations" f.extra && is_joint s) ≡ false)
          × (evaluate_facts {E = E} s f ≡ ok applicable)
    unfolding evaluate
    contract_of s f h = elim (Bool-cases (contains_key "source_obligations" f.extra)) [
      | inl present ↦ (ground arith, ground arith, ground arith)
      | inr absent ↦ (no_contract f absent, rw absent, rw (absent, evaluate) at h)
    ]

    evaluate_of_contract :
        (s : Strategy) (f : Facts V)
        → ContractHolds f
        → (contains_key "source_obligations" f.extra && is_joint s) ≡ false
        → evaluate_facts {E = E} s f ≡ ok applicable
        → evaluate {E = E} s f ≡ ok applicable
    unfolding evaluate
    evaluate_of_contract s f c n h = ground arith

    source_failures_nil :
        (f : Facts V)
        → source_failures f ≡ []
        → (source : SourceObligations V) → source_obligations f ≡ ok (some source)
        → IsConstant source
    unfolding source_failures
    source_failures_nil f h source e =
        (source_immutable_failures_nil source).0 (rw (e, source_failures) at h)

    source_failures_of_IsConstant :
        (f : Facts V)
        → ContractHolds f
        → ((source : SourceObligations V)
            → source_obligations f ≡ ok (some source)
            → IsConstant source)
        → source_failures f ≡ []
    unfolding source_failures
    source_failures_of_IsConstant f c all = elim (Result-cases (source_obligations f)) [
      | inl (none, e) ↦ ground arith
      | inl (some source, e) ↦
          rw (e, source_failures) ((source_immutable_failures_nil source).1 (all source e))
      | inr (_, e) ↦ ground arith
    ]

    -- Soundness of the guards.
    evaluate_sound :
        (s : Strategy) (f : Facts V) → evaluate {E = E} s f ≡ ok applicable → Eligible s f
    unfolding evaluate_facts violation_taint_blocks tainted_failures untainted
    evaluate_sound immutable f h =
        let (c, n, e) = contract_of immutable f h in
        (
          c,
          ground arith,
          ground arith,
          ground arith,
          ground arith,
          source_failures_nil f (ground arith),
        )
    evaluate_sound once_lock f h =
        let (c, n, e) = contract_of once_lock f h in
        let guard : certificate_guard "phase_stationarity" f.phase_stationarity ≡ applicable =
          ground arith in
        (ground arith, ground arith, ground arith, certificate_guard_applicable _ _ guard)
    evaluate_sound atomic f h = let (c, n, e) = contract_of atomic f h in (c, ground arith)
    evaluate_sound mutex f h =
        let (c, n, e) = contract_of mutex f h in
        let guard : certificate_guard "mutex_eligibility" f.mutex_eligibility ≡ applicable =
          ground arith in
        (ground arith, ground arith, ground arith, certificate_guard_applicable _ _ guard)
    evaluate_sound localize f h =
        let (c, n, e) = contract_of localize f h in
        let calm : hard_blocks f.violation_taint.value false f.violation_relevance ≡ false =
          ground arith in
        let (exempt, seen) =
          hard_blocks_sound f.violation_taint.value false f.violation_relevance calm in
        (c, ground arith, exempt, seen, ground arith)
    evaluate_sound unhandled f h = let (c, n, e) = contract_of unhandled f h in ground arith

    -- Completeness of the guards.
    evaluate_complete :
        (s : Strategy) (f : Facts V) → Eligible s f → evaluate {E = E} s f ≡ ok applicable
    unfolding evaluate_facts violation_taint_blocks untainted
    evaluate_complete immutable f (c, a, t, w, o, src) =
        let clean = source_failures_of_IsConstant f c src in
        evaluate_of_contract immutable f c (ground arith) (ground arith)
    evaluate_complete once_lock f (k, a, t, cert) =
        evaluate_of_contract once_lock f (no_contract f k) (ground arith) (ground arith)
    evaluate_complete atomic f (c, a) =
        evaluate_of_contract atomic f c (ground arith) (ground arith)
    evaluate_complete mutex f (k, a, t, cert) =
        evaluate_of_contract mutex f (no_contract f k) (ground arith) (ground arith)
    evaluate_complete localize f (c, a, exempt, seen, l) =
        let calm =
          hard_blocks_complete f.violation_taint.value false f.violation_relevance exempt seen in
        evaluate_of_contract localize f c (ground arith) (ground arith)
    evaluate_complete unhandled f h = elim h [ ]

    -- The guard of a strategy applies exactly under its documented conditions: with a source
    -- contract that holds, and for the shared strategies with none at all; `atomic` for the
    -- declared atomics, and the others for the rest; and behind the evidence of each strategy.
    pub evaluate-Eligible :
        (s : Strategy) (f : Facts V) → (evaluate {E = E} s f ≡ ok applicable) ↔ Eligible s f
    evaluate-Eligible s f = (evaluate_sound s f, evaluate_complete s f)

    evaluate-ne-err :
        (s : Strategy) (f : Facts V) (e : Fault E) → s ≢ unhandled → evaluate {E = E} s f ≢ err e
    unfolding evaluate evaluate_facts tainted_failures untainted
    evaluate-ne-err immutable f e n h = ground arith
    evaluate-ne-err _ f e n h = ground arith

    evaluate-ne-failed_nil : (s : Strategy) (f : Facts V) → evaluate {E = E} s f ≢ ok (failed [])
    unfolding evaluate evaluate_facts tainted_failures untainted
    evaluate-ne-failed_nil immutable f h = ground arith
    evaluate-ne-failed_nil _ f h = ground arith

    -- The guard of an explicit strategy never panics: it answers, and a failure names a guard.
    pub evaluate_total :
        (s : Strategy) (f : Facts V)
        → s ≢ unhandled
        → (r : GuardResult) × (evaluate {E = E} s f ≡ ok r) × (r ≢ failed [])
    evaluate_total s f h = elim (Result-cases (evaluate {E = E} s f)) [
      | inl (r, e) ↦ (r, e, λ e'. evaluate-ne-failed_nil s f (cc))
      | inr (x, e) ↦ absurd (evaluate-ne-err s f x h e)
    ]
