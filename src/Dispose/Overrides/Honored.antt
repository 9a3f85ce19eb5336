-- ===== src/Dispose/Overrides/Honored.antt =====
-- Consequences of a pin in crates/pangs-dispose/src/lib.rs: when it is honored, and what it keeps.
use tenjin_pangs.Base.{
  ◌≡◌, ◌≢◌, ◌↔◌, refl, ◌∙◌, ap, Bool, true, false, Option, none, some, ok, arith, Bool-cases, inl,
  inr, ◌⊎◌,
}
use tenjin_pangs.Manifest.Strategy.{Strategy, atomic}
use tenjin_pangs.Manifest.Facts.{Json, facts_validate}
use tenjin_pangs.Manifest.Records.{
  Disposition, GlobalRecord, OverrideOutcome, honored, honored_accepted_risk, rejected,
  rejected_strategy_disabled, rejected_strategy_unavailable, rejected_no_recipe, unmatched_key,
}
use tenjin_pangs.Dispose.Config.{OverrideSpec, CascadeConfig}
use tenjin_pangs.Dispose.Guards.Eligible.{Eligible}
use tenjin_pangs.Dispose.Overrides.Available.{Eligible-available, IsAvailable, available}
use tenjin_pangs.Dispose.Overrides.Pin.{
  Pins, Justified, Effect, Pins-of_result, apply_global_override_pins,
}
use tenjin_pangs.Dispose.Overrides.{
  Log, honor_override, unavailable_outcome, apply_global_override, pin_conflicts, is_disabled,
}

not_declared : {b : Bool} {s : Strategy} → (b ≡ true) ↔ (s ≡ atomic) → s ≢ atomic → b ≡ false
not_declared {b} e n = elim (Bool-cases b) [ inl t ↦ absurd (n (e.0 t)) | inr f ↦ f ]

module _ {V : Type 0} ⦃json : Json V⦄ (g : GlobalRecord V) (d : Disposition V) (spec : OverrideSpec)
    (config : CascadeConfig) (group : Option Strategy) (log : Log V) where
  by_outcome :
      (g' : GlobalRecord V) (log' : Log V) (o : OverrideOutcome)
      → (p : Pins g d spec config group log g' log') → p.entry.outcome ≡ o
      → Justified g d spec config group log o × Effect g d spec config group log p.entry o g' log'
  by_outcome g' log' o p e = (rw e at p.justified, rw e at p.effect)

  -- What a pin keeps, and what it may choose.
  abbrev pub Keeps : GlobalRecord V → Type 0
  Keeps g' =
      (d' : Disposition V) × (g'.disposition ≡ some d')
      × (g'.key ≡ g.key)
      × (g'.facts ≡ g.facts)
      × (d'.cascade_chosen ≡ d.cascade_chosen)
      × (d'.cascade_trace ≡ d.cascade_trace)
      × ((d' ≡ d) ⊎ (d'.chosen ≡ spec.disposition))

  kept : (g' : GlobalRecord V) → g.disposition ≡ some d → g' ≡ g → Keeps g'
  kept g' has e = rw e (d, has, refl, refl, refl, refl, inl refl)

  pinned :
      (risk : Bool) (g' : GlobalRecord V)
      → g' ≡ record g { disposition = some (honor_override d spec risk) }
      → Keeps g'
  unfolding honor_override
  pinned risk g' e = rw e (honor_override d spec risk, refl, refl, refl, refl, refl, inr refl)

  by-Effect :
      (o : OverrideOutcome) (g' : GlobalRecord V) (log' : Log V)
      (p : Pins g d spec config group log g' log')
      → g.disposition ≡ some d
      → Effect g d spec config group log p.entry o g' log'
      → Keeps g'
  by-Effect honored g' log' p has e = pinned false g' e.0
  by-Effect honored_accepted_risk g' log' p has e = pinned true g' e.0
  by-Effect rejected g' log' p has e = kept g' has e.0
  by-Effect _ g' log' p has e = kept g' has e.0

  -- A pin leaves the key, the facts and the history of the cascade alone, whatever its outcome;
  -- the disposition is the one before, or it has the strategy asked for.
  pub apply_global_override_history :
      (g' : GlobalRecord V) (log' : Log V)
      → g.disposition ≡ some d
      → apply_global_override g spec config group log ≡ ok (g', log')
      → Keeps g'
  apply_global_override_history g' log' has runs =
      let p = Pins-of_result g d spec config group log g' log' has runs in
      by-Effect p.entry.outcome g' log' p has p.effect

  ledger_cases :
      (o : OverrideOutcome) (g' : GlobalRecord V) (log' : Log V)
      (p : Pins g d spec config group log g' log')
      → Effect g d spec config group log p.entry o g' log'
      → (log'.ledger ≡ log.ledger) ⊎ (o ≡ honored_accepted_risk)
  ledger_cases honored g' log' p e = inl e.1
  ledger_cases honored_accepted_risk g' log' p e = inr refl
  ledger_cases rejected g' log' p e = inl e.1
  ledger_cases _ g' log' p e = inl e.1

  -- An accepted risk reaches the ledger only if the override asks for it, and only for an explicit
  -- strategy that is available. It never invents an atomic declaration, nor relabels one: the
  -- strategy is not `atomic`, and the global is not declared atomic.
  pub accepted_risk_limits :
      (g' : GlobalRecord V) (log' : Log V)
      → g.disposition ≡ some d
      → apply_global_override g spec config group log ≡ ok (g', log')
      → log'.ledger ≢ log.ledger
      → (spec.accept_risk ≡ true)
        × (spec.disposition ≢ atomic)
        × (g.facts.atomic_declaration.value ≡ false)
        × IsAvailable spec.disposition g.facts
  accepted_risk_limits g' log' has runs changed =
      let p = Pins-of_result g d spec config group log g' log' has runs in
      elim (ledger_cases p.entry.outcome g' log' p p.effect) [
        | inl same ↦ absurd (changed same)
        | inr e ↦
            let ((free, named, explicit, inputs, risk, refused), _) =
              by_outcome g' log' honored_accepted_risk p e in
            let a = available spec.disposition g.facts explicit inputs in
            let other : spec.disposition ≢ atomic =
              λ k. refused (rw k (a.contract, a.declared.1 k)) in
            (risk, other, not_declared a.declared other, a)
      ]

  -- On valid facts, a pin to an eligible strategy that the order names and that the coupling group
  -- does not contradict is honored: the global gets that strategy, with no risk taken.
  pub apply_global_override-Eligible :
      g.disposition ≡ some d
      → facts_validate g.facts ≡ ok tt
      → Eligible spec.disposition g.facts
      → pin_conflicts group spec ≡ false
      → is_disabled config spec.disposition ≡ false
      → (log' : Log V) × (apply_global_override g spec config group log
          ≡ ok (record g { disposition = some (honor_override d spec false) }, log'))
        × (log'.ledger ≡ log.ledger)
  apply_global_override-Eligible has valid el free named =
      let (g', log', runs, p) = apply_global_override_pins g d spec config group log has in
      let (e, same) = granted p.entry.outcome g' log' p p.justified p.effect in
      (log', runs ∙ ap (λ x. ok (x, log')) e, same)
    where
      inputs : unavailable_outcome spec.disposition g.facts ≡ none
      inputs = Eligible-available spec.disposition g.facts valid el

      granted :
          (o : OverrideOutcome) (g' : GlobalRecord V) (log' : Log V)
          (p : Pins g d spec config group log g' log')
          → Justified g d spec config group log o
          → Effect g d spec config group log p.entry o g' log'
          → (g' ≡ record g { disposition = some (honor_override d spec false) })
            × (log'.ledger ≡ log.ledger)
      granted honored g' log' p j e = e
      granted honored_accepted_risk g' log' p j e = absurd (j.5 el)
      granted rejected g' log' p (inl c) e = absurd (ground (arith, free, c))
      granted rejected g' log' p (inr (careful, explicit, n)) e = absurd (n el)
      granted rejected_strategy_disabled g' log' p j e = absurd (ground (arith, named, j))
      granted rejected_strategy_unavailable g' log' p (explicit, inl h) e =
          absurd (ground (arith, inputs, h))
      granted rejected_strategy_unavailable g' log' p (explicit, inr n) e = absurd (n el)
      granted rejected_no_recipe g' log' p j e = absurd (ground (arith, inputs, j.1))
      granted unmatched_key g' log' p j e = elim j [ ]
