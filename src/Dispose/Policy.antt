-- ===== src/Dispose/Policy.antt =====
-- crates/pangs-dispose/src/lib.rs: `apply_independent_cascade`, and `apply_policy` up to the
-- projection of the context rewrite.
pub mod Independent
pub mod History
pub mod Outcome
mod Tests
use tenjin_pangs.Base.{
  String, Bool, true, false, not, Option, none, some, List, [], ◌∷◌, ◌++◌, ◌==◌, Result, ok, err,
  Fault, raised, panicked, ◌>>=◌, ◌>>◌, map_err, find, keep, contains, sort_by, if◌then◌else◌,
}
use tenjin_pangs.Manifest.Strategy.{Strategy}
use tenjin_pangs.Manifest.Key.{Key, key_eq, parse}
use tenjin_pangs.Manifest.Facts.{Json}
use tenjin_pangs.Manifest.Records.{
  GlobalRecord, CascadeSkip, Disposition, DispositionProvenance, CouplingGroup, OverrideReportEntry,
  OverrideRequested, OverrideScope, honored, unmatched_key, AuditRecord, from_override,
}
use tenjin_pangs.Manifest.Document.{Manifest, OverrideReport}
use tenjin_pangs.Manifest.Canonical.{entry_cmp, canonicalize}
use tenjin_pangs.Dispose.Config.{
  CascadeConfig, ConfigError, OverrideSpec, Overrides, DisposeError, config_error, manifest_error,
  validate,
}
use tenjin_pangs.Dispose.Cascade.{cascade}
use tenjin_pangs.Dispose.Overrides.{
  Log, push_entry, report_entry, apply_global_override, no_counts, count_outcomes, has_problems,
}
use tenjin_pangs.Dispose.Groups.Resolve.{resolve_groups}

-- The conversion that `?` makes of an error of the configuration.
abbrev pub from_config : Fault ConfigError → Fault DisposeError
from_config (raised e) = raised (config_error e)
from_config (panicked m) = panicked m

abbrev pub no_overrides : Overrides
no_overrides = record { globals = []; groups = []; cascade = none }

module _ {V : Type 0} where
  -- The disposition that the independent cascade builds.
  abbrev pub cascaded : Strategy → List (CascadeSkip V) → Disposition V
  cascaded chosen trace = record {
    chosen = chosen;
    cascade_chosen = chosen;
    provenance = DispositionProvenance.cascade;
    cascade_trace = trace;
    override = none;
    demotion = none;
    extra = [];
  }

  abbrev pub global_group_disposition : List (CouplingGroup V) → Key → Option Strategy
  global_group_disposition groups key = elim (find (λ g. contains g.members key) groups) [
    | none ↦ none
    | some g ↦ g.group_disposition
  ]

  abbrev pub order_entry : List Strategy → OverrideReportEntry V
  order_entry order = record {
    scope = OverrideScope.cascade;
    key = none;
    requested = OverrideRequested.order order;
    accept_risk = false;
    outcome = honored;
    reason = none;
    witness = none;
    failures = none;
    extra = [];
  }

  abbrev pub push_order : Option (List Strategy) → Log V → Log V
  push_order none log = log
  push_order (some order) log = push_entry log (order_entry order)

module _ {V : Type 0} ⦃json : Json V⦄ (config : CascadeConfig) where
  -- One iteration of the loop of `apply_independent_cascade`.
  unfoldable pub dispose_global : GlobalRecord V → Result (GlobalRecord V) (Fault DisposeError)
  dispose_global g = do
    (chosen, trace) ← map_err from_config (cascade g.facts config)
    ok (record g { disposition = some (cascaded chosen trace) })

  unfoldable pub dispose_globals :
      List (GlobalRecord V) → Result (List (GlobalRecord V)) (Fault DisposeError)
  dispose_globals [] = ok []
  dispose_globals (g ∷ gs) = do g' ← dispose_global g; gs' ← dispose_globals gs; ok (g' ∷ gs')

  -- The assignments of `apply_independent_cascade`, with the globals of its loop.
  abbrev pub disposed_manifest :
      Manifest V → Option String → Option String → List (GlobalRecord V) → Manifest V
  disposed_manifest m file sha256 globals = record m {
    materialization = none;
    context_rewrite = record (m.context_rewrite) { selected = none };
    globals = globals;
    run = record (m.run) {
      dispose = some (record {
        mode = config.mode;
        cascade = config.order;
        overrides_file = file;
        overrides_sha256 = sha256;
        extra = [];
      });
    };
    override_report = some (record { entries = []; counts = no_counts; extra = [] });
  }

  unfoldable pub apply_independent_cascade :
      Manifest V → Option String → Option String → Result (Manifest V) (Fault DisposeError)
  apply_independent_cascade m file sha256 = do
    map_err (λ e. raised (config_error e)) (validate config)
    globals ← dispose_globals m.globals
    ok (canonicalize (disposed_manifest m file sha256 globals))

  -- The pin of the first global with the key, or the entry for a key that matches none.
  unfoldable pub pin_at :
      String
      → OverrideSpec
      → Key
      → Option Strategy
      → List (GlobalRecord V)
      → Log V
      → Result (List (GlobalRecord V) × Log V) (Fault DisposeError)
  pin_at raw spec key group [] log = ok (
    [],
    push_entry log (
        report_entry OverrideScope.global (some raw) spec unmatched_key
          (some "no manifest global has this key") none),
  )
  pin_at raw spec key group (g ∷ gs) log =
      let others = pin_at raw spec key group gs log in
      if g.key == key
      then (apply_global_override g spec config group log >>= λ (g', log'). ok (g' ∷ gs, log'))
      else (others >>= λ (gs', log'). ok (g ∷ gs', log'))

  -- The loop over the overrides of globals.
  unfoldable pub pin_globals :
      List (CouplingGroup V)
      → List (String × OverrideSpec)
      → List (GlobalRecord V)
      → Log V
      → Result (List (GlobalRecord V) × Log V) (Fault DisposeError)
  pin_globals groups [] globals log = ok (globals, log)
  pin_globals groups ((raw, spec) ∷ rest) globals log = do
    key ← map_err (λ e. raised (manifest_error e)) (parse raw)
    (globals', log') ← pin_at raw spec key (global_group_disposition groups key) globals log
    pin_globals groups rest globals' log'

  -- The `if let Some(overrides)` of `apply_policy`.
  unfoldable pub apply_overrides :
      Option Overrides
      → List (CouplingGroup V)
      → List (GlobalRecord V)
      → Log V
      → Result (List (CouplingGroup V) × List (GlobalRecord V) × Log V) (Fault DisposeError)
  apply_overrides none groups globals log = resolve_groups no_overrides config groups globals log
  apply_overrides (some overrides) groups globals log = do
    (groups', globals', log') ← resolve_groups overrides config groups globals log
    (globals'', log'') ← pin_globals groups' overrides.globals globals' log'
    ok (groups', globals'', push_order overrides.cascade log'')

  -- `apply_policy` up to `select_context_rewrite`: the manifest with its report, the ledger, and
  -- `override_problems`.
  unfoldable pub decide_policy :
      Manifest V
      → List (AuditRecord V)
      → Option Overrides
      → Option String
      → Option String
      → Result (Manifest V × List (AuditRecord V) × Bool) (Fault DisposeError)
  decide_policy m ledger overrides file sha256 = do
    m' ← apply_independent_cascade m file sha256
    (groups, globals, log) ←
        apply_overrides overrides m'.coupling_groups m'.globals
          (record { entries = []; ledger = keep (λ r. not (from_override r.source)) ledger })
    let entries = sort_by entry_cmp log.entries
    let counts = count_outcomes entries
    ok (
      record m' {
        coupling_groups = groups;
        globals = globals;
        override_report = some (record { entries = entries; counts = counts; extra = [] });
      },
      log.ledger,
      has_problems counts,
    )
