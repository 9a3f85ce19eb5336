-- ===== src/Dispose/Overrides.antt =====
-- crates/pangs-dispose/src/lib.rs: pins of single globals, and the entries that report them.
pub mod Witnesses
pub mod Available
pub mod Pin
pub mod Honored
pub mod Provenance
pub mod Counts
use Prim.Native.String.{◌++◌ as concat}
use text.Mathlib.Text.{starts_with}
use tenjin_pangs.Base.{
  ℕ, String, Bool, true, false, not, ◌&&◌, ◌||◌, Option, none, some, List, [], ◌∷◌, ◌++◌, ◌==◌,
  string_eq, Result, ok, err, Fault, expect, ◌>>=◌, if◌then◌else◌, any, is_empty, is_some, contains,
  ltb,
}
use tenjin_pangs.Manifest.Strategy.{
  Strategy, immutable, once_lock, atomic, mutex, localize, unhandled, strategy_eq, as_str,
}
use tenjin_pangs.Manifest.Key.{Key, display}
use tenjin_pangs.Manifest.Facts.{
  Facts, Certificate, has_recipe, Json, source_obligations, Localization, SourceObligations, Extra,
}
use tenjin_pangs.Manifest.Records.{
  Disposition, GlobalRecord, GuardFailure, OverrideEcho, OverrideOutcome, honored,
  honored_accepted_risk, rejected, rejected_strategy_disabled, rejected_strategy_unavailable,
  rejected_no_recipe, unmatched_key, OverrideReportEntry, OverrideScope, OverrideRequested,
  OverrideCounts, AuditRecord, AuditScope, AuditSource, DispositionProvenance,
}
use tenjin_pangs.Dispose.Config.{OverrideSpec, CascadeConfig, DisposeError}
use tenjin_pangs.Dispose.Guards.{
  is_joint, applicable, failed, not_computed, source_immutable_failures, evaluate,
}
use tenjin_pangs.Dispose.Overrides.Witnesses.{guard_failures}

-- The two lists that the policy appends to.
pub record Log (V : Type 0) : Type 0 where
  pub entries : List (OverrideReportEntry V)
  pub ledger : List (AuditRecord V)

-- The reasons that the report gives.
abbrev pub member_conflict : String
member_conflict = "member pin conflicts with the resolved coupling-group disposition"

abbrev pub strategy_omitted : String
strategy_omitted = "strategy is omitted from the configured cascade"

abbrev pub guard_not_accepted : String
guard_not_accepted = "strategy guard failed and accept_risk was not set"

abbrev pub inputs_not_computed : String
inputs_not_computed = "strategy inputs were not computed"

-- The pin of a member that its coupling group resolved otherwise.
abbrev pub pin_conflicts : Option Strategy → OverrideSpec → Bool
pin_conflicts none spec = false
pin_conflicts (some group) spec = not (group == spec.disposition)

-- The strategy is explicit, and the configured order does not name it.
abbrev pub is_disabled : CascadeConfig → Strategy → Bool
is_disabled config s = not (s == unhandled) && not (contains config.order s)

abbrev pub risk_text : OverrideSpec → String → String
risk_text spec key = elim spec.reason [
  | some reason ↦ reason
  | none ↦ concat "accepted risk for " (concat (as_str spec.disposition) (concat " on " key))
]

abbrev pub unavailable_reason : OverrideOutcome → String
unavailable_reason rejected_no_recipe = "eligibility failed and supplied no materialization recipe"
unavailable_reason _ = inputs_not_computed

module _ {V : Type 0} where
  unfoldable pub report_entry :
      OverrideScope
      → Option String
      → OverrideSpec
      → OverrideOutcome
      → Option String
      → Option (List (GuardFailure V))
      → OverrideReportEntry V
  report_entry scope key spec outcome reason failures = record {
    scope = scope;
    key = key;
    requested = OverrideRequested.strategy spec.disposition;
    accept_risk = spec.accept_risk;
    outcome = outcome;
    reason = reason;
    witness = none;
    failures = failures;
    extra = [];
  }

  abbrev pub push_entry : Log V → OverrideReportEntry V → Log V
  push_entry log e = record log { entries = log.entries ++ e ∷ [] }

  abbrev pub echo : OverrideSpec → OverrideEcho V
  echo spec = record {
    disposition = spec.disposition;
    accept_risk = spec.accept_risk;
    reason = spec.reason;
    extra = [];
  }

  unfoldable pub honor_override : Disposition V → OverrideSpec → Bool → Disposition V
  honor_override d spec accepted_risk = record d {
    chosen = spec.disposition;
    provenance =
        if accepted_risk
        then DispositionProvenance.override_accepted_risk
        else DispositionProvenance.override;
    override = some (echo spec);
  }

  -- One entry of the report, counted under its outcome.
  abbrev pub count_one : OverrideCounts V → OverrideOutcome → OverrideCounts V
  count_one c honored = record c { honored = ℕ.suc c.honored }
  count_one c honored_accepted_risk = record c {
    honored_accepted_risk = ℕ.suc c.honored_accepted_risk;
  }
  count_one c rejected = record c { rejected = ℕ.suc c.rejected }
  count_one c rejected_strategy_disabled = record c {
    rejected_strategy_disabled = ℕ.suc c.rejected_strategy_disabled;
  }
  count_one c rejected_strategy_unavailable = record c {
    rejected_strategy_unavailable = ℕ.suc c.rejected_strategy_unavailable;
  }
  count_one c rejected_no_recipe = record c { rejected_no_recipe = ℕ.suc c.rejected_no_recipe }
  count_one c unmatched_key = record c { unmatched_key = ℕ.suc c.unmatched_key }

  abbrev pub no_counts : OverrideCounts V
  no_counts = record {
    honored = 0;
    honored_accepted_risk = 0;
    rejected = 0;
    rejected_strategy_disabled = 0;
    rejected_strategy_unavailable = 0;
    rejected_no_recipe = 0;
    unmatched_key = 0;
    extra = [];
  }

  pub count_from : OverrideCounts V → List (OverrideReportEntry V) → OverrideCounts V
  count_from c [] = c
  count_from c (e ∷ es) = count_from (count_one c e.outcome) es

  unfoldable pub count_outcomes : List (OverrideReportEntry V) → OverrideCounts V
  unfolding count_from
  count_outcomes es = count_from no_counts es

  -- `override_problems` of `apply_policy`.
  unfoldable pub has_problems : OverrideCounts V → Bool
  has_problems c =
      ltb 0 c.rejected
      || ltb 0 c.rejected_strategy_disabled
      || ltb 0 c.rejected_strategy_unavailable
      || ltb 0 c.rejected_no_recipe
      || ltb 0 c.unmatched_key

  -- The certificate that the last `match` of `unavailable_outcome` reads.
  abbrev pub slot_outcome : Option (Certificate V) → Option OverrideOutcome
  slot_outcome none = some rejected_strategy_unavailable
  slot_outcome (some c) = if has_recipe c then none else some rejected_no_recipe

  -- A blocker of the localization that comes from the source.
  abbrev pub has_source_blocker : Option (Localization V) → Bool
  has_source_blocker none = false
  has_source_blocker (some l) = any (λ b. starts_with b.code "source-") l.blocker_samples

  abbrev pub source_unsupported : Strategy → Facts V → SourceObligations V → Bool
  source_unsupported s f source =
      is_joint s
      || s == immutable && not (is_empty (source_immutable_failures source))
      || s == localize && has_source_blocker f.localization

  -- `unavailable_outcome` behind the source contract and the tests of the atomic declaration.
  abbrev pub missing_input : Strategy → Facts V → Option OverrideOutcome
  missing_input once_lock f = slot_outcome f.phase_stationarity
  missing_input mutex f = slot_outcome f.mutex_eligibility
  missing_input localize f =
      if is_some f.localization then none else some rejected_strategy_unavailable
  missing_input immutable f = none
  missing_input atomic f = none
  missing_input unhandled f = none

module _ {V : Type 0} ⦃json : Json V⦄ where
  -- The first test of `unavailable_outcome`.
  pub contract_blocks : Strategy → Facts V → Bool
  contract_blocks s f = not (s == unhandled) && elim (source_obligations f) [
    | err _ ↦ true
    | ok (some source) ↦ source_unsupported s f source
    | ok none ↦ false
  ]

  unfoldable pub unavailable_outcome : Strategy → Facts V → Option OverrideOutcome
  unfolding contract_blocks
  unavailable_outcome s f =
      if contract_blocks s f
      then some rejected_no_recipe
      else if f.atomic_declaration.value && not (s == atomic || s == unhandled)
      then some rejected_strategy_unavailable
      else if s == atomic
      then if f.atomic_declaration.value then none else some rejected_strategy_unavailable
      else missing_input s f

  -- The record of the ledger for a risk that was accepted.
  abbrev pub risk_record :
      OverrideSpec → AuditScope V → String → List (GuardFailure V) → AuditRecord V
  risk_record spec scope text failures = record {
    id = "";
    kind = "accepted-risk";
    scope = scope;
    source = AuditSource.override;
    text = text;
    witness = none;
    failures = some failures;
    extra = [];
  }

  -- `apply_global_override` from its `match evaluate(..)` on, `d` the disposition of the global.
  unfoldable pub apply_evaluated :
      GlobalRecord V
      → Disposition V
      → OverrideSpec
      → Log V
      → Result (GlobalRecord V × Log V) (Fault DisposeError)
  unfolding report_entry honor_override
  apply_evaluated g d spec log =
      let key = display g.key in
      let entry =
        λ (outcome : OverrideOutcome) (reason : Option String)
            (failures : Option (List (GuardFailure V))).
          push_entry log
            (report_entry OverrideScope.global (some key) spec outcome reason failures) in
      elim (evaluate spec.disposition g.facts) [
        | ok applicable ↦
            ok (
              record g { disposition = some (honor_override d spec false) },
              entry honored none none,
            )
        | ok (not_computed _) ↦
            ok (g, entry rejected_strategy_unavailable (some inputs_not_computed) none)
        | ok (failed guards) ↦
            let failures = guard_failures g.key g.facts guards in
            if spec.accept_risk
            then ok (
              record g { disposition = some (honor_override d spec true) },
              record (entry honored_accepted_risk none (some failures)) {
                ledger =
                    log.ledger
                    ++ risk_record spec (AuditScope.global g.key []) (risk_text spec key) failures
                      ∷ [];
              },
            )
            else ok (g, entry rejected (some guard_not_accepted) (some failures))
        | err e ↦ err e
      ]

  unfoldable pub apply_global_override :
      GlobalRecord V
      → OverrideSpec
      → CascadeConfig
      → Option Strategy
      → Log V
      → Result (GlobalRecord V × Log V) (Fault DisposeError)
  unfolding report_entry honor_override apply_evaluated
  apply_global_override g spec config group log = do
    d ← expect "independent cascade populated disposition" g.disposition
    let entry = λ (outcome : OverrideOutcome) (reason : Option String).
        push_entry log
          (report_entry OverrideScope.global (some (display g.key)) spec outcome reason none)
    if pin_conflicts group spec
        then ok (g, entry rejected (some member_conflict))
        else if is_disabled config spec.disposition
        then ok (g, entry rejected_strategy_disabled (some strategy_omitted))
        else if spec.disposition == unhandled
        then ok (record g { disposition = some (honor_override d spec false) }, entry honored none)
        else elim (unavailable_outcome spec.disposition g.facts) [
          | some outcome ↦ ok (g, entry outcome (some (unavailable_reason outcome)))
          | none ↦ apply_evaluated g d spec log
        ]
