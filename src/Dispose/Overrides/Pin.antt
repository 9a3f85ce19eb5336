-- ===== src/Dispose/Overrides/Pin.antt =====
-- What a pin of one global in crates/pangs-dispose/src/lib.rs does, on every branch.
use tenjin_pangs.Base.{
  String, ◌≡◌, ◌≢◌, refl, sym, ◌∙◌, true, false, Option, none, some, List, [], ◌∷◌, ◌++◌, Result,
  ok, Fault, is_some, beq_ne, Bool-cases, Option-cases, inl, inr, ◌⊎◌,
}
use tenjin_pangs.Manifest.Strategy.{
  Strategy, unhandled, strategy_beq_iff, strategy_eq, strategy_discrete,
}
use tenjin_pangs.Manifest.Key.{display}
use tenjin_pangs.Manifest.Facts.{Json}
use tenjin_pangs.Manifest.Records.{
  Disposition, GlobalRecord, GuardFailure, OverrideOutcome, honored, honored_accepted_risk,
  rejected, rejected_strategy_disabled, rejected_strategy_unavailable, rejected_no_recipe,
  unmatched_key, OverrideReportEntry, OverrideScope, OverrideRequested, AuditRecord, AuditScope,
  AuditSource,
}
use tenjin_pangs.Dispose.Config.{OverrideSpec, CascadeConfig, DisposeError}
use tenjin_pangs.Dispose.Guards.{GuardResult, applicable, failed, not_computed, evaluate}
use tenjin_pangs.Dispose.Guards.Eligible.{Eligible, evaluate-Eligible, evaluate_total}
use tenjin_pangs.Dispose.Overrides.Witnesses.{guard_failures}
use tenjin_pangs.Dispose.Overrides.Available.{unavailable_cases}
use tenjin_pangs.Dispose.Overrides.{
  member_conflict, strategy_omitted, guard_not_accepted, inputs_not_computed, risk_record,
  risk_text, unavailable_reason, Log, report_entry, honor_override, unavailable_outcome,
  apply_evaluated, apply_global_override, pin_conflicts, is_disabled,
}

module _ {V : Type 0} ⦃json : Json V⦄ (g : GlobalRecord V) (d : Disposition V) (spec : OverrideSpec)
    (config : CascadeConfig) (group : Option Strategy) (log : Log V) where
  -- What justifies each outcome, in terms of the conditions of the strategy.
  abbrev pub Justified : OverrideOutcome → Type 0
  Justified honored =
      (pin_conflicts group spec ≡ false)
      × (is_disabled config spec.disposition ≡ false)
      × ((spec.disposition ≡ unhandled)
          ⊎ (unavailable_outcome spec.disposition g.facts ≡ none)
            × Eligible spec.disposition g.facts)
  Justified honored_accepted_risk =
      (pin_conflicts group spec ≡ false)
      × (is_disabled config spec.disposition ≡ false)
      × (spec.disposition ≢ unhandled)
      × (unavailable_outcome spec.disposition g.facts ≡ none)
      × (spec.accept_risk ≡ true)
      × ¬ Eligible spec.disposition g.facts
  Justified rejected =
      (pin_conflicts group spec ≡ true)
      ⊎ (spec.accept_risk ≡ false)
        × (spec.disposition ≢ unhandled)
        × ¬ Eligible spec.disposition g.facts
  Justified rejected_strategy_disabled = is_disabled config spec.disposition ≡ true
  Justified rejected_strategy_unavailable =
      (spec.disposition ≢ unhandled)
      × ((unavailable_outcome spec.disposition g.facts ≡ some rejected_strategy_unavailable)
          ⊎ ¬ Eligible spec.disposition g.facts)
  Justified rejected_no_recipe =
      (spec.disposition ≢ unhandled)
      × (unavailable_outcome spec.disposition g.facts ≡ some rejected_no_recipe)
  Justified unmatched_key = ⊥

  -- The effect of each outcome on the global and on the ledger.
  abbrev pub Effect : OverrideReportEntry V → OverrideOutcome → GlobalRecord V → Log V → Type 0
  Effect entry honored g' log' =
      (g' ≡ record g { disposition = some (honor_override d spec false) })
      × (log'.ledger ≡ log.ledger)
  Effect entry honored_accepted_risk g' log' =
      (g' ≡ record g { disposition = some (honor_override d spec true) })
      × ((r : AuditRecord V) × (log'.ledger ≡ log.ledger ++ r ∷ [])
          × (r.source ≡ AuditSource.override)
          × (r.failures ≡ entry.failures))
  Effect entry _ g' log' = (g' ≡ g) × (log'.ledger ≡ log.ledger) × (is_some entry.reason ≡ true)

  -- One entry is reported, for this global and this request, with a justified outcome, and the
  -- global and the ledger change as that outcome says.
  pub record Pins (g' : GlobalRecord V) (log' : Log V) : Type 0 where
    pub entry : OverrideReportEntry V
    pub logged : log'.entries ≡ log.entries ++ entry ∷ []
    pub named : entry.key ≡ some (display g.key)
    pub asked : entry.requested ≡ OverrideRequested.strategy spec.disposition
    pub justified : Justified entry.outcome
    pub effect : Effect entry entry.outcome g' log'

  abbrev pub Done : Type 0
  Done =
      (g' : GlobalRecord V) × (log' : Log V) × (apply_global_override g spec config group log
        ≡ ok (g', log'))
      × Pins g' log'

  abbrev entry_of :
      OverrideOutcome → Option String → Option (List (GuardFailure V)) → OverrideReportEntry V
  entry_of o reason failures =
      report_entry OverrideScope.global (some (display g.key)) spec o reason failures

  abbrev log_of : OverrideReportEntry V → List (AuditRecord V) → Log V
  log_of entry ledger = record { entries = log.entries ++ entry ∷ []; ledger = ledger }

  done :
      (o : OverrideOutcome) (reason : Option String) (failures : Option (List (GuardFailure V)))
      (g' : GlobalRecord V) (ledger : List (AuditRecord V))
      → apply_global_override g spec config group log
        ≡ ok (g', log_of (entry_of o reason failures) ledger)
      → Justified o
      → Effect (entry_of o reason failures) o g' (log_of (entry_of o reason failures) ledger)
      → Done
  unfolding report_entry
  done o reason failures g' ledger runs j e = (
    g',
    log_of (entry_of o reason failures) ledger,
    runs,
    record {
      entry = entry_of o reason failures;
      logged = refl;
      named = refl;
      asked = refl;
      justified = j;
      effect = e;
    },
  )

  module _ (has : g.disposition ≡ some d) where
    conflicting : pin_conflicts group spec ≡ true → Done
    unfolding apply_global_override report_entry
    conflicting c =
        done rejected (some member_conflict) none g log.ledger (rw (has, c, apply_global_override))
          (inl c) (refl, refl, refl)

    module _ (free : pin_conflicts group spec ≡ false) where
      disabled : is_disabled config spec.disposition ≡ true → Done
      unfolding apply_global_override report_entry
      disabled c =
          done rejected_strategy_disabled (some strategy_omitted) none g log.ledger
            (rw (has, free, c, apply_global_override)) c (refl, refl, refl)

      module _ (named : is_disabled config spec.disposition ≡ false) where
        left_alone : spec.disposition ≡ unhandled → Done
        unfolding apply_global_override report_entry
        left_alone u =
            done honored none none (record g { disposition = some (honor_override d spec false) })
              log.ledger
              (rw (
                has,
                free,
                named,
                (strategy_beq_iff spec.disposition unhandled).1 u,
                apply_global_override,
              ))
              (free, named, inl u) (refl, refl)

        module _ (explicit : spec.disposition ≢ unhandled) where
          -- The rest of the function, once the first three tests have failed.
          behind_tests :
              apply_global_override g spec config group log
              ≡ elim (unavailable_outcome spec.disposition g.facts) [
                | some o ↦ ok (g, log_of (entry_of o (some (unavailable_reason o)) none) log.ledger)
                | none ↦ apply_evaluated g d spec log
              ]
          unfolding apply_global_override report_entry
          behind_tests =
              rw (
                has,
                free,
                named,
                beq_ne spec.disposition unhandled explicit,
                apply_global_override,
              )

          missing :
              (o : OverrideOutcome) → unavailable_outcome spec.disposition g.facts ≡ some o → Done
          unfolding report_entry
          missing o h = elim (unavailable_cases spec.disposition g.facts o h) [
            | inl e ↦
                done rejected_no_recipe (some (unavailable_reason o)) none g log.ledger
                  (behind_tests ∙ rw (h, e)) (explicit, rw e at h) (refl, refl, refl)
            | inr e ↦
                done rejected_strategy_unavailable (some (unavailable_reason o)) none g log.ledger
                  (behind_tests ∙ rw (h, e)) (explicit, inl (rw e at h)) (refl, refl, refl)
          ]

          refused :
              {r : GuardResult}
              → evaluate {E = DisposeError} spec.disposition g.facts ≡ ok r
              → r ≢ applicable
              → ¬ Eligible spec.disposition g.facts
          refused e n el =
              n (cc (e, (evaluate-Eligible DisposeError spec.disposition g.facts).1 el))

          by_guard :
              (r : GuardResult)
              → unavailable_outcome spec.disposition g.facts ≡ none
              → evaluate {E = DisposeError} spec.disposition g.facts ≡ ok r
              → Done
          unfolding apply_evaluated report_entry
          by_guard applicable h e =
              done honored none none (record g { disposition = some (honor_override d spec false) })
                log.ledger (behind_tests ∙ rw (h, e, apply_evaluated))
                (
                  free,
                  named,
                  inr (h, (evaluate-Eligible DisposeError spec.disposition g.facts).0 e),
                )
                (refl, refl)
          by_guard (not_computed fact) h e =
              done rejected_strategy_unavailable (some inputs_not_computed) none g log.ledger
                (behind_tests ∙ rw (h, e, apply_evaluated)) (explicit, inr (refused e (λ k. cc)))
                (refl, refl, refl)
          by_guard (failed guards) h e = elim (Bool-cases spec.accept_risk) [
            | inl risk ↦
                let failures = guard_failures g.key g.facts guards in
                let r =
                  risk_record spec (AuditScope.global g.key []) (risk_text spec (display g.key))
                    failures in
                done honored_accepted_risk none (some failures)
                  (record g { disposition = some (honor_override d spec true) })
                  (log.ledger ++ r ∷ []) (behind_tests ∙ rw (h, e, risk, apply_evaluated))
                  (free, named, explicit, h, risk, refused e (λ k. cc))
                  (refl, (r, refl, refl, refl))
            | inr careful ↦
                done rejected (some guard_not_accepted) (some (guard_failures g.key g.facts guards))
                  g log.ledger (behind_tests ∙ rw (h, e, careful, apply_evaluated))
                  (inr (careful, explicit, refused e (λ k. cc))) (refl, refl, refl)
          ]

          evaluated : unavailable_outcome spec.disposition g.facts ≡ none → Done
          evaluated h =
              let (r, e, _) = evaluate_total DisposeError spec.disposition g.facts explicit in
              by_guard r h e

  -- A pin of a global that has a disposition returns and never panics. It reports one entry for
  -- that global and request, whose outcome is justified by the group's choice, the order, the
  -- inputs, the eligibility and the accepted risk, and the global and the ledger change as that
  -- outcome says.
  pub apply_global_override_pins : g.disposition ≡ some d → Done
  apply_global_override_pins e = elim (Bool-cases (pin_conflicts group spec)) [
    | inl conflict ↦ conflicting e conflict
    | inr free ↦ elim (Bool-cases (is_disabled config spec.disposition)) [
      | inl c ↦ disabled e free c
      | inr named ↦ elim (strategy_discrete spec.disposition unhandled) [
        | yes u ↦ left_alone e free named u
        | no n ↦ elim (Option-cases (unavailable_outcome spec.disposition g.facts)) [
          | inl h ↦ evaluated e free named n h
          | inr (o, h) ↦ missing e free named n o h
        ]
      ]
    ]
  ]

  -- Whatever a pin of a global with a disposition returns is such a change.
  pub Pins-of_result :
      (g' : GlobalRecord V) (log' : Log V)
      → g.disposition ≡ some d
      → apply_global_override g spec config group log ≡ ok (g', log')
      → Pins g' log'
  Pins-of_result g' log' has runs =
      let (g₁, log₁, runs₁, pins) = apply_global_override_pins has in
      let same : ◌≡◌ {A = Result (GlobalRecord V × Log V) (Fault DisposeError)} (ok (g₁, log₁))
          (ok (g', log')) =
        sym runs₁ ∙ runs in
      let p : g₁ ≡ g' = cc same in let q : log₁ ≡ log' = cc same in rw (p, q) at pins
