-- ===== src/Dispose/Overrides/Witnesses.antt =====
-- crates/pangs-dispose/src/lib.rs: the failures of a guard, each with a witness.
use Prim.Native.String.{◌++◌ as concat, compare}
use text.Mathlib.Text.{starts_with}
use tenjin_pangs.Base.{
  String, Bool, false, Option, none, some, List, [], ◌∷◌, ◌==◌, string_eq, ok, err, map,
  if◌then◌else◌, find, first, sort_by, Ordering, then_with,
}
use tenjin_pangs.Manifest.Key.{Key, key_cmp}
use tenjin_pangs.Manifest.Facts.{
  Facts, Certificate, Json, source_obligations, SourceObservation, SourceObligations, Witness,
}
use tenjin_pangs.Manifest.Records.{GuardFailure}
use tenjin_pangs.Dispose.Guards.{is_update}

-- `[String]::join`.
abbrev pub join : String → List String → String
join sep [] = ""
join sep (s ∷ []) = s
join sep (s ∷ (t ∷ rest)) = concat s (concat sep (join sep (t ∷ rest)))

module _ {V : Type 0} where
  abbrev pub plain_witness : String → Option String → Witness V
  plain_witness kind note = record {
    kind = kind;
    site = none;
    symbol = none;
    note = note;
    extra = [];
  }

  -- The observation that a source guard is about.
  abbrev pub relevant_observation : String → SourceObservation V → Bool
  relevant_observation guard o =
      if guard == "source-retained-assignment"
      then is_update o
      else if guard == "source-unclassified-use"
      then o.kind == "unclassified-use"
      else false

  abbrev pub source_note : String → SourceObligations V → String
  source_note guard source =
      if guard == "source-retained-assignment"
      then "Retained source assigns to this storage; LLVM runtime written is unchanged"
      else if guard == "source-default-type-not-sync"
      then "C2Rust's default Rust type contains an object raw pointer and cannot be an immutable static"
      else if guard == "source-section-initializer"
      then concat "C2Rust emits initializer assignments for: "
          (join ", " source.initializer_features)
      else "Source representation obligation is not discharged by this emitter"

  pub source_witness : String → SourceObligations V → Witness V
  source_witness guard source = record {
    kind = guard;
    site = elim (find (relevant_observation guard) source.observations) [
      | some o ↦ some o.site
      | none ↦ source.declaration_site
    ];
    symbol = source.declaration;
    note = some (source_note guard source);
    extra = [];
  }

  -- The witness that the evidence of a fact carries.
  pub evidenced_witness : Facts V → String → Option (Witness V)
  evidenced_witness f guard =
      if guard == "written"
      then f.written.witness
      else if guard == "omega_escaped_address"
      then f.omega_escaped_address.witness
      else if guard == "violation_taint"
      then f.violation_taint.witness
      else if guard == "atomic_declaration"
      then f.atomic_declaration.witness
      else none

  -- The first witness of a failed certificate.
  abbrev pub failed_witness : Option (Certificate V) → Option (Witness V)
  failed_witness none = none
  failed_witness (some (Certificate.certified c x)) = none
  failed_witness (some (Certificate.failed codes witnesses r d x)) = first witnesses

  pub certificate_witness : Facts V → String → Option (Witness V)
  certificate_witness f guard =
      if guard == "phase_stationarity"
      then failed_witness f.phase_stationarity
      else if guard == "mutex_eligibility"
      then failed_witness f.mutex_eligibility
      else none

  pub localization_witness : Facts V → String → Option (Witness V)
  localization_witness f guard =
      if guard == "localization"
      then elim f.localization [
        | none ↦ none
        | some l ↦ elim (first l.blocker_samples) [ none ↦ none | some b ↦ some b.witness ]
      ]
      else none

  abbrev pub or_else : Option (Witness V) → Option (Witness V) → Option (Witness V)
  or_else (some w) other = some w
  or_else none other = other

  -- The first of three witnesses, or the one that names the guard alone.
  pub fact_witness : Facts V → String → Witness V
  unfolding evidenced_witness certificate_witness localization_witness
  fact_witness f guard =
      elim (or_else (evidenced_witness f guard)
        (or_else (certificate_witness f guard) (localization_witness f guard))) [
          | some w ↦ w
          | none ↦
              plain_witness "guard-failed"
                (some (concat guard " failed without a more specific witness"))
        ]

module _ {V : Type 0} ⦃json : Json V⦄ where
  unfoldable pub witness_for_guard : Facts V → String → Witness V
  unfolding source_witness fact_witness
  witness_for_guard f guard =
      if starts_with guard "source-"
      then elim (source_obligations f) [
        | ok (some source) ↦ source_witness guard source
        | ok none ↦ fact_witness f guard
        | err _ ↦ fact_witness f guard
      ]
      else fact_witness f guard

  -- The comparison of the sort: the member first, then the guard.
  abbrev pub member_guard_cmp : GuardFailure V → GuardFailure V → Ordering
  member_guard_cmp a b = then_with (key_cmp a.member b.member) (compare a.guard b.guard)

  unfoldable pub guard_failures : Key → Facts V → List String → List (GuardFailure V)
  unfolding witness_for_guard sort_by
  guard_failures key f guards = sort_by member_guard_cmp (
      map
        (λ guard. record {
          member = key;
          guard = guard;
          witness = witness_for_guard f guard;
          extra = [];
        })
        guards)
