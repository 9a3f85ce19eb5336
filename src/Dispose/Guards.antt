-- ===== src/Dispose/Guards.antt =====
-- crates/pangs-dispose/src/lib.rs: the guard of each strategy over the facts of one global.
pub mod Eligible
use text.Mathlib.Text.{starts_with}
use tenjin_pangs.Base.{
  String, Bool, true, false, not, ◌&&◌, ◌||◌, Option, none, some, List, [], ◌∷◌, ◌++◌, ◌==◌,
  string_eq, Result, ok, err, Fault, panicked, if◌then◌else◌, any, is_empty, is_err, is_some,
  contains_key, contains,
}
use tenjin_pangs.Manifest.Strategy.{
  Strategy, immutable, once_lock, atomic, mutex, localize, unhandled, strategy_eq, is_hard,
}
use tenjin_pangs.Manifest.Key.{Error}
use tenjin_pangs.Manifest.Facts.{
  Facts, Certificate, is_certified, verdict_is_ok, ViolationRelevanceDiagnostic, SourceObservation,
  SourceObligations, Json, source_obligations,
}

pub data GuardResult : Type 0 where
  applicable : GuardResult
  failed : List String → GuardResult
  not_computed : String → GuardResult

abbrev pub localize_exempt_violation_kind : String
localize_exempt_violation_kind = "fnptr_varargs_internal_unmodeled"

-- `matches!(strategy, OnceLock | Mutex)`: the strategies that share one object among globals.
abbrev pub is_joint : Strategy → Bool
is_joint s = s == once_lock || s == mutex

-- `if test { failed.push(name) }`, as the list that is pushed.
abbrev pub push_if : Bool → String → List String
push_if true name = name ∷ []
push_if false name = []

abbrev pub failed_result : List String → GuardResult
failed_result [] = applicable
failed_result (g ∷ gs) = failed (g ∷ gs)

module _ {V : Type 0} where
  -- The loop over the diagnostics, with `saw_hard`. The early `return true` is the first branch.
  pub hard_blocks : Bool → Bool → List (ViolationRelevanceDiagnostic V) → Bool
  hard_blocks taint saw_hard [] = taint && not saw_hard
  hard_blocks taint saw_hard (d ∷ rest) =
      let next = hard_blocks taint (saw_hard || is_hard d.classification) rest in
      if is_hard d.classification && not (d.finding_kind == localize_exempt_violation_kind)
      then true
      else next

  unfoldable pub violation_taint_blocks : Strategy → Facts V → Bool
  unfolding hard_blocks
  violation_taint_blocks s f =
      if s == atomic
      then false
      else if not (s == localize)
      then f.violation_taint.value
      else hard_blocks f.violation_taint.value false f.violation_relevance

  abbrev pub push_failed_certificate : String → Option (Certificate V) → List String
  push_failed_certificate name none = name ∷ []
  push_failed_certificate name (some c) = push_if (not (is_certified c)) name

  abbrev pub certificate_guard : String → Option (Certificate V) → GuardResult
  certificate_guard name none = not_computed name
  certificate_guard name (some c) = if is_certified c then applicable else failed (name ∷ [])

  abbrev pub is_update : SourceObservation V → Bool
  is_update o = o.kind == "assignment" || o.kind == "update"

  abbrev pub is_unclassified : SourceObservation V → Bool
  is_unclassified o = not (
      contains
        ("assignment" ∷ "update" ∷ "read" ∷ "pointer-read" ∷ "address" ∷ "array-decay"
          ∷ "decayed-address" ∷ "unevaluated" ∷ [])
        o.kind)

  unfoldable pub source_immutable_failures : SourceObligations V → List String
  source_immutable_failures source =
      push_if (not (is_some source.declaration)) "source-unmapped-global"
      ++ (push_if source.contains_object_pointer "source-default-type-not-sync"
          ++ (push_if (not (is_empty source.initializer_features)) "source-section-initializer"
              ++ (push_if (any is_update source.observations) "source-retained-assignment"
                  ++ push_if (any is_unclassified source.observations) "source-unclassified-use")))

  -- What the tainted branch of `evaluate` pushes after "violation_taint".
  pub tainted_failures : {E : Type 0} → Strategy → Facts V → Result (List String) (Fault E)
  tainted_failures immutable f = ok (
      push_if f.written.value "written"
      ++ push_if f.omega_escaped_address.value "omega_escaped_address")
  tainted_failures once_lock f =
      ok (push_failed_certificate "phase_stationarity" f.phase_stationarity)
  tainted_failures atomic f = err (panicked "atomic was handled before violation taint")
  tainted_failures mutex f = ok (push_failed_certificate "mutex_eligibility" f.mutex_eligibility)
  tainted_failures localize f = ok (elim f.localization [
    | none ↦ []
    | some l ↦ push_if (not (verdict_is_ok l.verdict)) "localization"
  ])
  tainted_failures unhandled f = err (panicked "unhandled is not evaluated")

module _ {V : Type 0} ⦃json : Json V⦄ where
  -- The source obligations' share of the guard of `immutable`.
  pub source_failures : Facts V → List String
  source_failures f = elim (source_obligations f) [
    | err _ ↦ "source-invalid-contract" ∷ []
    | ok none ↦ []
    | ok (some source) ↦ source_immutable_failures source
  ]

  -- The last `match` of `evaluate`.
  pub untainted : {E : Type 0} → Strategy → Facts V → Result GuardResult (Fault E)
  unfolding source_failures
  untainted immutable f = ok (
      failed_result (
        push_if f.written.value "written"
        ++ (push_if f.omega_escaped_address.value "omega_escaped_address" ++ source_failures f)))
  untainted once_lock f = ok (certificate_guard "phase_stationarity" f.phase_stationarity)
  untainted atomic f = err (panicked "atomic was handled before analysis-derived guards")
  untainted mutex f = ok (certificate_guard "mutex_eligibility" f.mutex_eligibility)
  untainted localize f = ok (elim f.localization [
    | none ↦ not_computed "localization"
    | some l ↦ if verdict_is_ok l.verdict then applicable else failed ("localization" ∷ [])
  ])
  untainted unhandled f = err (panicked "unhandled is not evaluated")

  -- The guards behind the test of the source contract.
  unfoldable pub evaluate_facts : {E : Type 0} → Strategy → Facts V → Result GuardResult (Fault E)
  unfolding violation_taint_blocks tainted_failures untainted
  evaluate_facts s f =
      if s == atomic
      then ok
          (if f.atomic_declaration.value then applicable else failed ("atomic_declaration" ∷ []))
      else if f.atomic_declaration.value
      then ok (failed ("atomic_declaration" ∷ []))
      else if violation_taint_blocks s f
      then elim (tainted_failures s f) [
        | ok names ↦ ok (failed ("violation_taint" ∷ names))
        | err e ↦ err e
      ]
      else untainted s f

  unfoldable pub evaluate : {E : Type 0} → Strategy → Facts V → Result GuardResult (Fault E)
  evaluate s f =
      if contains_key "source_obligations" f.extra && is_err (source_obligations f)
      then ok (failed ("source-invalid-contract" ∷ []))
      else if contains_key "source_obligations" f.extra && is_joint s
      then ok (failed ("source-unsupported-strategy" ∷ []))
      else evaluate_facts s f
