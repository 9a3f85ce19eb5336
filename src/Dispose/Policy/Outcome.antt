-- ===== src/Dispose/Policy/Outcome.antt =====
-- The outcome of `apply_policy` of crates/pangs-dispose/src/lib.rs, up to its projection.
use tenjin_pangs.Base.{
  String, ◌≡◌, refl, Bool, Option, some, List, [], ok, All, any, length, sort_by, keep, not,
}
use tenjin_pangs.Manifest.Facts.{Json}
use tenjin_pangs.Manifest.Records.{AuditRecord, from_override}
use tenjin_pangs.Manifest.Document.{Manifest, OverrideReport}
use tenjin_pangs.Manifest.Canonical.{entry_cmp}
use tenjin_pangs.Dispose.Config.{CascadeConfig, Overrides}
use tenjin_pangs.Dispose.Config.Validity.{IsAdmissible}
use tenjin_pangs.Dispose.Overrides.{Log, count_outcomes, has_problems}
use tenjin_pangs.Dispose.Overrides.Counts.{is_problem, total, count_outcomes_complete}
use tenjin_pangs.Dispose.Groups.Members.{IsFinal}
use tenjin_pangs.Dispose.Policy.{decide_policy}
use tenjin_pangs.Dispose.Policy.Independent.{apply_independent_cascade-IsFinal}
use tenjin_pangs.Dispose.Policy.History.{PinsParse, apply_overrides_history}

module _ {V : Type 0} ⦃json : Json V⦄ (config : CascadeConfig) where
  -- A manifest whose choices are final and whose report accounts for every override entry.
  pub record IsDecided (m : Manifest V) (problems : Bool) : Type 0 where
    pub final : All IsFinal m.globals
    pub report : OverrideReport V
    pub reported : m.override_report ≡ some report
    pub counted : total report.counts ≡ length report.entries
    pub signalled : problems ≡ any (λ e. is_problem e.outcome) report.entries

  -- Under an admissible configuration, and with keys of the right form in the overrides, the
  -- policy decides and never panics. Every global has a disposition, the counters of the report
  -- add up to its entries, and a problem is signalled exactly when an entry has one.
  pub decide_policy_decides :
      (m : Manifest V) (ledger : List (AuditRecord V)) (overrides : Option Overrides)
      (file sha256 : Option String)
      → IsAdmissible config
      → PinsParse overrides
      → (m' : Manifest V) × (ledger' : List (AuditRecord V)) × (problems : Bool) × (decide_policy
            config m ledger overrides file sha256
          ≡ ok (m', ledger', problems))
        × IsDecided m' problems
  unfolding decide_policy
  decide_policy_decides m ledger overrides file sha256 a k =
      let (m₁, runs₁, final₁, _, _, _) = apply_independent_cascade-IsFinal config m file sha256 a in
      let start : Log V = record {
        entries = [];
        ledger = keep (λ r. not (from_override r.source)) ledger;
      } in
      let (groups, gs, log, runs₂, _, _, final₂) =
        apply_overrides_history config overrides m₁.coupling_groups m₁.globals start final₁ k in
      let entries = sort_by entry_cmp log.entries in
      let (sum, signal) = count_outcomes_complete entries in
      (
        record m₁ {
          coupling_groups = groups;
          globals = gs;
          override_report =
              some (record { entries = entries; counts = count_outcomes entries; extra = [] });
        },
        log.ledger,
        has_problems (count_outcomes entries),
        rw (runs₁, runs₂, decide_policy),
        record {
          final = final₂;
          report = record { entries = entries; counts = count_outcomes entries; extra = [] };
          reported = refl;
          counted = sum;
          signalled = signal;
        },
      )
