-- ===== src/Dispose/Overrides/Available.antt =====
-- Which strategies crates/pangs-dispose/src/lib.rs finds available for an override.
use tenjin_pangs.Base.{
  ◌≡◌, ◌≢◌, ◌↔◌, refl, true, false, Option, none, some, string_eq, ok, arith, List-cases,
  Result-cases, inl, inr, ◌⊎◌,
}
use tenjin_pangs.Manifest.Strategy.{
  Strategy, immutable, once_lock, atomic, mutex, localize, unhandled, strategy_eq,
}
use tenjin_pangs.Manifest.Facts.{
  Facts, Certificate, is_certified, has_recipe, verdict_is_ok, Json, source_obligations,
  Localization, facts_validate, localization_validate,
}
use tenjin_pangs.Manifest.Records.{
  OverrideOutcome, rejected_no_recipe, rejected_strategy_unavailable,
}
use tenjin_pangs.Dispose.Guards.{is_joint}
use tenjin_pangs.Dispose.Guards.Eligible.{
  Eligible, ContractHolds, no_obligations, source_immutable_failures_nil,
}
use tenjin_pangs.Dispose.Overrides.{
  contract_blocks, unavailable_outcome, has_source_blocker, slot_outcome,
}

module _ {V : Type 0} where
  -- A localization that passes its validation with the verdict `ok` has no blocker.
  no_blocker :
      (l : Localization V)
      → localization_validate (some l) ≡ ok tt
      → verdict_is_ok l.verdict ≡ true
      → has_source_blocker (some l) ≡ false
  unfolding localization_validate
  no_blocker l valid good = elim (List-cases l.blocker_samples) [
    | inl e ↦ rw e
    | inr (b, rest, e) ↦ absurd (ground arith)
  ]

  slot_recipe :
      (slot : Option (Certificate V))
      → slot_outcome slot ≡ none
      → (c : Certificate V) × (slot ≡ some c) × (has_recipe c ≡ true)
  slot_recipe none h = cc
  slot_recipe (some c) h = (c, refl, ground arith)

module _ {V : Type 0} ⦃json : Json V⦄ where
  facts_validate-localization :
      (f : Facts V) → facts_validate f ≡ ok tt → localization_validate f.localization ≡ ok tt
  unfolding facts_validate
  facts_validate-localization f h = ground arith

  certified_has_recipe : (c : Certificate V) → is_certified c ≡ true → has_recipe c ≡ true
  certified_has_recipe (Certificate.certified c x) h = refl
  certified_has_recipe (Certificate.failed c w r d x) h = cc

  -- A strategy that is eligible on valid facts has every input that an override needs.
  pub Eligible-available :
      (s : Strategy) (f : Facts V)
      → facts_validate f ≡ ok tt
      → Eligible s f
      → unavailable_outcome s f ≡ none
  unfolding unavailable_outcome contract_blocks
  Eligible-available immutable f valid (c, a, t, w, o, src) =
      elim (Result-cases (source_obligations f)) [
        | inl (none, e) ↦ ground arith
        | inl (some source, e) ↦
            let clean = (source_immutable_failures_nil source).1 (src source e) in ground arith
        | inr (_, e) ↦ ground arith
      ]
  Eligible-available once_lock f valid (k, a, t, (cert, e, ce)) =
      ground (arith, no_obligations f k, certified_has_recipe cert ce)
  Eligible-available atomic f valid (c, a) = ground arith
  Eligible-available mutex f valid (k, a, t, (cert, e, ce)) =
      ground (arith, no_obligations f k, certified_has_recipe cert ce)
  Eligible-available localize f valid (c, a, x, seen, (l, e, good)) =
      let clear = no_blocker l (rw e at (facts_validate-localization f valid)) good in ground arith
  Eligible-available unhandled f valid h = elim h [ ]

  -- What an available explicit strategy has: a contract that holds and that leaves its
  -- representation possible, the atomic declaration exactly for `atomic`, and for the shared
  -- strategies and `localize` the analysis that they apply, with a recipe.
  pub record IsAvailable (s : Strategy) (f : Facts V) : Type 0 where
    pub contract : ContractHolds f
    pub declared : (f.atomic_declaration.value ≡ true) ↔ (s ≡ atomic)
    pub separate : is_joint s ≡ true → source_obligations f ≡ ok none
    pub interval :
        s ≡ once_lock
        → (c : Certificate V) × (f.phase_stationarity ≡ some c) × (has_recipe c ≡ true)
    pub lock :
        s ≡ mutex → (c : Certificate V) × (f.mutex_eligibility ≡ some c) × (has_recipe c ≡ true)
    pub local : s ≡ localize → (l : Localization V) × (f.localization ≡ some l)

  pub available :
      (s : Strategy) (f : Facts V)
      → s ≢ unhandled
      → unavailable_outcome s f ≡ none
      → IsAvailable s f
  unfolding unavailable_outcome contract_blocks
  available immutable f n h = record {
    contract = ground arith;
    declared = (λ e. ground arith, λ e. cc);
    separate = λ e. cc;
    interval = λ e. cc;
    lock = λ e. cc;
    local = λ e. cc;
  }
  available once_lock f n h = record {
    contract = ground arith;
    declared = (λ e. ground arith, λ e. cc);
    separate = λ e. ground arith;
    interval = λ _. slot_recipe f.phase_stationarity (ground arith);
    lock = λ e. cc;
    local = λ e. cc;
  }
  available atomic f n h = record {
    contract = ground arith;
    declared = (λ e. refl, λ e. ground arith);
    separate = λ e. cc;
    interval = λ e. cc;
    lock = λ e. cc;
    local = λ e. cc;
  }
  available mutex f n h = record {
    contract = ground arith;
    declared = (λ e. ground arith, λ e. cc);
    separate = λ e. ground arith;
    interval = λ e. cc;
    lock = λ _. slot_recipe f.mutex_eligibility (ground arith);
    local = λ e. cc;
  }
  available localize f n h = record {
    contract = ground arith;
    declared = (λ e. ground arith, λ e. cc);
    separate = λ e. cc;
    interval = λ e. cc;
    lock = λ e. cc;
    local = λ e. ground arith;
  }
  available unhandled f n h = absurd (n refl)

  -- An unavailable strategy is reported in one of two ways.
  pub unavailable_cases :
      (s : Strategy) (f : Facts V) (o : OverrideOutcome)
      → unavailable_outcome s f ≡ some o
      → (o ≡ rejected_no_recipe) ⊎ (o ≡ rejected_strategy_unavailable)
  unfolding unavailable_outcome contract_blocks
  unavailable_cases immutable f o h = ground arith
  unavailable_cases once_lock f o h = ground arith
  unavailable_cases _ f o h = ground arith
