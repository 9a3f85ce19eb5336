-- ===== src/Dispose/Policy/Tests.antt =====
-- The theorems on the policy of crates/pangs-dispose/src/lib.rs at a manifest of two globals.
use tenjin_pangs.Base.{
  String, ◌≡◌, refl, Bool, false, none, some, List, [], ◌∷◌, ◌+◌, ok, All, length, is_err,
}
use tenjin_pangs.Manifest.Strategy.{unhandled, mutex}
use tenjin_pangs.Manifest.Key.{parse}
use tenjin_pangs.Manifest.Records.{GlobalRecord, CouplingGroup, AuditRecord}
use tenjin_pangs.Manifest.Document.{Manifest}
use tenjin_pangs.Dispose.Config.{Overrides}
use tenjin_pangs.Dispose.Config.Validity.{IsAdmissible}
use tenjin_pangs.Dispose.Overrides.{Log}
use tenjin_pangs.Dispose.Groups.Members.{SameHistories, IsFinal}
use tenjin_pangs.Dispose.Groups.Agreement.{SameGroups}
use tenjin_pangs.Dispose.Policy.{
  dispose_globals, apply_independent_cascade, pin_globals, apply_overrides, decide_policy,
}
use tenjin_pangs.Dispose.Policy.Independent.{
  AreDisposed, dispose_globals_disposes, apply_independent_cascade-IsFinal,
}
use tenjin_pangs.Dispose.Policy.History.{pin_globals_pinned, apply_overrides_history}
use tenjin_pangs.Dispose.Policy.Outcome.{IsDecided, decide_policy_decides}
use tenjin_pangs.Dispose.Samples.{text_json, two_globals, pair, asking, locking_config, empty_log}

abbrev pins : Overrides
pins = record {
  globals = ("a.c::counter", asking mutex false) ∷ ("nowhere", asking unhandled false) ∷ [];
  groups = [];
  cascade = none;
}

abbrev sample : Manifest String
sample = record {
  schema_version = 1;
  run = record {
    analysis = record {
      pangs_git = "";
      llvm_version = "";
      input_path = "a.bc";
      input_sha256 = "";
      opts = "";
      repo_root = ".";
      target_triple = "";
      data_layout = "";
      supported_atomic_widths = [];
      entry_spine = none;
      extra = [];
    };
    dispose = none;
    extra = [];
  };
  globals = two_globals;
  synthetic_globals = [];
  unkeyed_globals = [];
  coupling_groups = pair ∷ [];
  context_rewrite = record { id = "c"; fields = []; selected = none; extra = [] };
  coupling_candidates = [];
  override_report = none;
  materialization = none;
  extra = [];
}

locking_config-IsAdmissible : IsAdmissible locking_config
locking_config-IsAdmissible = record {
  handled = (λ e. cc, (λ e. cc, tt));
  distinct = ((λ e. cc, tt), (tt, tt));
  local_ok = λ m. (λ e. cc, (λ e. cc, tt));
}

counter_parses : is_err (parse "a.c::counter") ≡ false
unfolding parse
counter_parses = refl

nowhere_parses : is_err (parse "nowhere") ≡ false
unfolding parse
nowhere_parses = refl

dispose_globals_disposes_example :
    (gs : List (GlobalRecord String)) × (dispose_globals locking_config two_globals ≡ ok gs)
    × AreDisposed locking_config two_globals gs
dispose_globals_disposes_example =
    dispose_globals_disposes locking_config two_globals locking_config-IsAdmissible

apply_independent_cascade-IsFinal_example :
    (m : Manifest String) × (apply_independent_cascade locking_config sample none none ≡ ok m)
    × All IsFinal m.globals
    × (length m.globals ≡ length sample.globals)
    × (m.materialization ≡ none)
    × (m.context_rewrite.selected ≡ none)
apply_independent_cascade-IsFinal_example =
    apply_independent_cascade-IsFinal locking_config sample none none locking_config-IsAdmissible

pin_globals_pinned_example :
    (gs : List (GlobalRecord String)) × (log : Log String) × (pin_globals locking_config
        (pair ∷ [])
        pins.globals
        two_globals
        empty_log
      ≡ ok (gs, log))
    × SameHistories two_globals gs
    × All IsFinal gs
    × (length log.entries ≡ length empty_log.entries + length pins.globals)
pin_globals_pinned_example =
    pin_globals_pinned locking_config (pair ∷ []) pins.globals two_globals empty_log
      (refl, (refl, tt)) (counter_parses, (nowhere_parses, tt))

apply_overrides_history_example :
    (groups : List (CouplingGroup String)) × (gs : List (GlobalRecord String)) × (log : Log String)
    × (apply_overrides locking_config (some pins) (pair ∷ []) two_globals empty_log
        ≡ ok (groups, gs, log))
    × SameGroups (pair ∷ []) groups
    × SameHistories two_globals gs
    × All IsFinal gs
apply_overrides_history_example =
    apply_overrides_history locking_config (some pins) (pair ∷ []) two_globals empty_log
      (refl, (refl, tt)) (counter_parses, (nowhere_parses, tt))

decide_policy_decides_example :
    (m : Manifest String) × (ledger : List (AuditRecord String)) × (problems : Bool)
    × (decide_policy locking_config sample [] (some pins) none none ≡ ok (m, ledger, problems))
    × IsDecided locking_config m problems
decide_policy_decides_example =
    decide_policy_decides locking_config sample [] (some pins) none none locking_config-IsAdmissible
      (counter_parses, (nowhere_parses, tt))
