-- ===== src/Manifest/Facts.antt =====
-- crates/pangs-manifest/src/lib.rs: the facts of a global, their evidence and their checks.
-- `V` is `serde_json::Value`, a type of a library, and `Extra` is a map of such values.
use Prim.Native.String.{◌++◌ as concat}
use tenjin_pangs.Base.{
  ℕ, String, Bool, true, false, not, ◌||◌, Option, none, some, List, ◌==◌, string_eq, bool_eq,
  is_some, ltb, Result, ok, err, ◌>>=◌, ◌>>◌, if◌then◌else◌, any, is_empty, length, lookup, map_err,
  ensure,
}
use tenjin_pangs.Manifest.Strategy.{ViolationRelevance, is_hard}
use tenjin_pangs.Manifest.Key.{Error, invalid_evidence, invalid_invariant}

abbrev pub Extra : Type 0 → Type 0
Extra V = List (String × V)

pub record Site (V : Type 0) : Type 0 where
  pub file : String
  pub line : ℕ
  pub col : Option ℕ
  pub function : Option String
  pub extra : Extra V

pub record Witness (V : Type 0) : Type 0 where
  pub kind : String
  pub site : Option (Site V)
  pub symbol : Option String
  pub note : Option String
  pub extra : Extra V

pub record ViolationRelevanceDiagnostic (V : Type 0) : Type 0 where
  pub classification : ViolationRelevance
  pub finding_kind : String
  pub witness : Witness V

pub record EvidencedBool (V : Type 0) : Type 0 where
  pub value : Bool
  pub witness : Option (Witness V)
  pub extra : Extra V

pub data Certificate (V : Type 0) : Type 0 where
  certified : (certificate : V) (extra : Extra V) → Certificate V
  failed :
      (codes : List String) (witnesses : List (Witness V)) (recipe diagnostics : Option V)
      (extra : Extra V)
      → Certificate V

abbrev pub is_certified : {V : Type 0} → Certificate V → Bool
is_certified (certified c x) = true
is_certified (failed c w r d x) = false

abbrev pub has_recipe : {V : Type 0} → Certificate V → Bool
has_recipe (certified c x) = true
has_recipe (failed c w r d x) = is_some r

pub record LocalizationBlocker (V : Type 0) : Type 0 where
  pub code : String
  pub witness : Witness V
  pub extra : Extra V

pub data LocalizationVerdict : Type 0 where
  verdict_ok blocked : LocalizationVerdict

abbrev pub verdict_is_ok : LocalizationVerdict → Bool
verdict_is_ok verdict_ok = true
verdict_is_ok blocked = false

pub record Localization (V : Type 0) : Type 0 where
  pub component : String
  pub verdict : LocalizationVerdict
  pub blocker_count : ℕ
  pub blocker_samples : List (LocalizationBlocker V)
  pub extra : Extra V

pub record Facts (V : Type 0) : Type 0 where
  pub written : EvidencedBool V
  pub omega_escaped_address : EvidencedBool V
  pub violation_taint : EvidencedBool V
  pub thread_visible : EvidencedBool V
  pub signal_context_access : EvidencedBool V
  pub access_set_complete : EvidencedBool V
  pub atomic_declaration : EvidencedBool V
  pub phase_stationarity : Option (Certificate V)
  pub mutex_eligibility : Option (Certificate V)
  pub coupling_group : Option String
  pub localization : Option (Localization V)
  pub violation_relevance : List (ViolationRelevanceDiagnostic V)
  pub extra : Extra V

abbrev pub source_emitter : String
source_emitter = "tenjin-c2rust-default-v1"

pub record SourceObservation (V : Type 0) : Type 0 where
  pub kind : String
  pub site : Site V

pub record SourceObligations (V : Type 0) : Type 0 where
  pub emitter : String
  pub declaration : Option String
  pub declaration_site : Option (Site V)
  pub contains_object_pointer : Bool
  pub initializer_features : List String
  pub observations : List (SourceObservation V)

-- What the code takes from `serde_json`: `from_value` for the source obligations, which gives the
-- decoded record or the text of the error, and `Value::as_str`.
pub record Json (V : Type 0) : Type 0 where
  pub value_as_str : V → Option String
  pub decode_obligations : V → Result (SourceObligations V) String

module _ {V : Type 0} where
  unfoldable pub evidence_validate : EvidencedBool V → String → Bool → Result (Unit {0}) Error
  evidence_validate e fact polarity =
      if is_some e.witness == (e.value == polarity)
      then ok tt
      else err (invalid_evidence fact e.value)

  unfoldable pub certificate_validate : String → Option (Certificate V) → Result (Unit {0}) Error
  certificate_validate name none = ok tt
  certificate_validate name (some (certified c x)) = ok tt
  certificate_validate name (some (failed codes witnesses r d x)) =
      if is_empty codes || ltb (length witnesses) (length codes)
      then err (invalid_invariant (concat name " failure must have at least one witness per code"))
      else ok tt

  unfoldable pub localization_validate : Option (Localization V) → Result (Unit {0}) Error
  localization_validate none = ok tt
  localization_validate (some l) =
      let present = ltb 0 l.blocker_count in
      if not (not (verdict_is_ok l.verdict) == present)
        || not (present == not (is_empty l.blocker_samples))
        || ltb l.blocker_count (length l.blocker_samples)
      then err (
          invalid_invariant
            "localization blocker count and samples must be present exactly when blocked, and samples cannot exceed the count")
      else ok tt

  abbrev pub has_hard_violation : Facts V → Bool
  has_hard_violation f = any (λ d. is_hard d.classification) f.violation_relevance

module _ {V : Type 0} ⦃json : Json V⦄ where
  -- `Facts::source_obligations`.
  unfoldable pub source_obligations : Facts V → Result (Option (SourceObligations V)) Error
  source_obligations f = elim (lookup "source_obligations" f.extra) [
    | none ↦ ok none
    | some value ↦ do
      source ←
          map_err (λ e. invalid_invariant (concat "invalid source obligations: " e))
            (json.decode_obligations value)
      ensure (source.emitter == source_emitter) (invalid_invariant "unsupported source emitter")
      ok (some source)
  ]

  -- `Facts::validate`.
  unfoldable pub facts_validate : Facts V → Result (Unit {0}) Error
  facts_validate f = do
    source ← source_obligations f
    evidence_validate f.written "written" true
    evidence_validate f.omega_escaped_address "omega_escaped_address" true
    evidence_validate f.violation_taint "violation_taint" true
    ensure (f.violation_taint.value == has_hard_violation f) (
        invalid_invariant
          "violation_taint must equal the presence of a hard violation_relevance diagnostic")
    evidence_validate f.thread_visible "thread_visible" true
    evidence_validate f.signal_context_access "signal_context_access" true
    evidence_validate f.access_set_complete "access_set_complete" false
    evidence_validate f.atomic_declaration "atomic_declaration" true
    certificate_validate "phase_stationarity" f.phase_stationarity
    certificate_validate "mutex_eligibility" f.mutex_eligibility
    localization_validate f.localization
