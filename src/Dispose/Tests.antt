-- ===== src/Dispose/Tests.antt =====
-- The theorems on the policy of crates/pangs-dispose/src/lib.rs at concrete inputs, and tests.
use tenjin_pangs.Base.{
  All, ◌++◌, String, ◌≡◌, ◌≢◌, ◌↔◌, refl, true, false, none, some, List, [], ◌∷◌, Result, ok, err,
  raised, contains, string_eq, length, any, sort_by, Fault,
}
use tenjin_pangs.Manifest.Strategy.{
  Strategy, immutable, atomic, mutex, localize, unhandled, library,
}
use tenjin_pangs.Manifest.Key.{key_eq, key_beq}
use tenjin_pangs.Manifest.Facts.{
  Certificate, facts_validate, source_obligations, evidence_validate, certificate_validate,
  localization_validate,
}
use tenjin_pangs.Manifest.Records.{OverrideReportEntry, CascadeSkip, GlobalRecord, CouplingGroup}
use tenjin_pangs.Dispose.Config.{
  CascadeConfig, ConfigError, DisposeError, default_for, validate, config_with_overrides,
}
use tenjin_pangs.Dispose.Config.Validity.{
  IsAdmissible, validate-IsAdmissible, config_with_overrides-IsAdmissible, requested,
}
use tenjin_pangs.Dispose.Guards.{GuardResult, applicable, failed, evaluate, evaluate_facts}
use tenjin_pangs.Dispose.Guards.Eligible.{Eligible, evaluate-Eligible, evaluate_total}
use tenjin_pangs.Dispose.Cascade.{cascade}
use tenjin_pangs.Dispose.Cascade.First.{
  IsFirst, cascade_first, cascade_refuses, Allowed, cascade_safe,
}
use tenjin_pangs.Dispose.Overrides.{
  Log, apply_evaluated, apply_global_override, honor_override, unavailable_outcome, count_outcomes,
  has_problems,
}
use tenjin_pangs.Dispose.Overrides.Available.{Eligible-available, IsAvailable, available}
use tenjin_pangs.Dispose.Overrides.Pin.{Done, apply_global_override_pins}
use tenjin_pangs.Dispose.Overrides.Honored.{
  Keeps, apply_global_override_history, accepted_risk_limits, apply_global_override-Eligible,
}
use tenjin_pangs.Dispose.Overrides.Provenance.{Marks, apply_global_override-Marks}
use tenjin_pangs.Dispose.Overrides.Counts.{is_problem, total, count_outcomes_complete}
use tenjin_pangs.Dispose.Groups.{independent_joint_group_strategy, group_failures}
use tenjin_pangs.Dispose.Groups.Resolve.{decide_group, set_members, resolve_groups}
use tenjin_pangs.Dispose.Groups.Members.{SameHistories, Changed, set_members_changes}
use tenjin_pangs.Dispose.Groups.Joint.{IsSharedChoice, independent_joint-IsSharedChoice}
use tenjin_pangs.Dispose.Groups.Totality.{Decides, decide_group-Decides}
use tenjin_pangs.Dispose.Groups.Agreement.{
  AreDisjoint, Agrees, Untouched, SameGroups, resolve_groups-Agrees,
}
use tenjin_pangs.Dispose.Policy.{no_overrides}
use tenjin_pangs.Dispose.Samples.{
  text_json, local_facts, app_config, locking_config, repeated_config, disposed, counter_global,
  two_globals, pair, asking, empty_log, two_entries,
}

abbrev log_of : Result (GlobalRecord String × Log String) (Fault DisposeError) → Log String
log_of (ok (g, log)) = log
log_of (err e) = empty_log

abbrev trace_of :
    Result (Strategy × List (CascadeSkip String)) (Fault ConfigError) → List (CascadeSkip String)
trace_of (ok (s, trace)) = trace
trace_of (err e) = []

abbrev risky : Result (GlobalRecord String × Log String) (Fault DisposeError)
risky = apply_global_override counter_global (asking immutable true) app_config none empty_log

abbrev pinned_counter : GlobalRecord String
pinned_counter = record counter_global {
  disposition = some (honor_override (disposed unhandled) (asking immutable true) true);
}

app_config-validate : validate app_config ≡ ok tt
unfolding validate
app_config-validate = refl

app_config-IsAdmissible : IsAdmissible app_config
app_config-IsAdmissible = (validate-IsAdmissible app_config).0 app_config-validate

validate-IsAdmissible_example : (validate app_config ≡ ok tt) ↔ IsAdmissible app_config
validate-IsAdmissible_example = validate-IsAdmissible app_config

config_with_overrides_runs :
    config_with_overrides library none
    ≡ ok (record { mode = library; order = immutable ∷ atomic ∷ [] })
unfolding config_with_overrides default_for validate
config_with_overrides_runs = refl

config_with_overrides-IsAdmissible_example :
    let config : CascadeConfig = record { mode = library; order = immutable ∷ atomic ∷ [] } in
    IsAdmissible config × (config.mode ≡ library) × (config.order ≡ requested library none)
config_with_overrides-IsAdmissible_example =
    config_with_overrides-IsAdmissible library none
      (record { mode = library; order = immutable ∷ atomic ∷ [] }) config_with_overrides_runs

local_not_constant :
    evaluate {E = DisposeError} immutable local_facts ≡ ok (failed ("written" ∷ []))
unfolding evaluate evaluate_facts source_obligations
local_not_constant = refl

evaluate-Eligible_example :
    (evaluate {E = DisposeError} localize local_facts ≡ ok applicable)
    ↔ Eligible localize local_facts
evaluate-Eligible_example = evaluate-Eligible DisposeError localize local_facts

evaluate_total_example :
    (r : GuardResult) × (evaluate {E = DisposeError} immutable local_facts ≡ ok r) × (r ≢ failed [])
evaluate_total_example = evaluate_total DisposeError immutable local_facts (λ e. cc)

cascade_first_example :
    (s : Strategy) × (trace : List (CascadeSkip String)) × (cascade local_facts app_config
      ≡ ok (s, trace))
    × IsFirst local_facts app_config.order s trace
cascade_first_example = cascade_first local_facts app_config app_config-IsAdmissible

cascade_localizes :
    cascade local_facts app_config ≡ ok (localize, trace_of (cascade local_facts app_config))
unfolding cascade evaluate evaluate_facts validate
cascade_localizes = refl

repeated_refused : ¬ IsAdmissible repeated_config
repeated_refused a = a.distinct.0.0 refl

cascade_refuses_example :
    (e : ConfigError) × (validate repeated_config ≡ err e)
    × (cascade local_facts repeated_config ≡ err (raised e))
cascade_refuses_example = cascade_refuses local_facts repeated_config repeated_refused

cascade_safe_example : Allowed app_config.mode local_facts localize
cascade_safe_example =
    cascade_safe local_facts app_config localize (trace_of (cascade local_facts app_config))
      cascade_localizes

local_facts_valid : facts_validate local_facts ≡ ok tt
unfolding facts_validate source_obligations evidence_validate certificate_validate
    localization_validate
local_facts_valid = refl

mutex_applies : evaluate {E = DisposeError} mutex local_facts ≡ ok applicable
unfolding evaluate evaluate_facts
mutex_applies = refl

mutex-Eligible : Eligible mutex local_facts
mutex-Eligible = (evaluate-Eligible DisposeError mutex local_facts).0 mutex_applies

Eligible-available_example : unavailable_outcome mutex local_facts ≡ none
Eligible-available_example = Eligible-available mutex local_facts local_facts_valid mutex-Eligible

mutex_available : unavailable_outcome mutex local_facts ≡ none
unfolding unavailable_outcome source_obligations
mutex_available = refl

available_example : IsAvailable mutex local_facts
available_example = available mutex local_facts (λ e. cc) mutex_available

apply_global_override_pins_example :
    Done counter_global (disposed unhandled) (asking mutex false) locking_config none empty_log
apply_global_override_pins_example =
    apply_global_override_pins counter_global (disposed unhandled) (asking mutex false)
      locking_config none empty_log refl

risk_runs : risky ≡ ok (pinned_counter, log_of risky)
unfolding apply_global_override apply_evaluated evaluate evaluate_facts unavailable_outcome
    honor_override source_obligations
risk_runs = refl

risk_recorded : (log_of risky).ledger ≢ []
unfolding apply_global_override apply_evaluated evaluate evaluate_facts unavailable_outcome
    honor_override source_obligations
risk_recorded e = cc

apply_global_override_history_example :
    Keeps counter_global
      (disposed unhandled)
      (asking immutable true)
      app_config
      none
      empty_log
      pinned_counter
apply_global_override_history_example =
    apply_global_override_history counter_global (disposed unhandled) (asking immutable true)
      app_config none empty_log pinned_counter (log_of risky) refl risk_runs

apply_global_override-Marks_example :
    (entry : OverrideReportEntry String) × ((log_of risky).entries ≡ [] ++ entry ∷ [])
    × Marks counter_global
        (disposed unhandled)
        (asking immutable true)
        app_config
        none
        empty_log
        entry.outcome
        pinned_counter
apply_global_override-Marks_example =
    apply_global_override-Marks counter_global (disposed unhandled) (asking immutable true)
      app_config none empty_log pinned_counter (log_of risky) refl risk_runs

accepted_risk_limits_example :
    (true ≡ true) × (immutable ≢ atomic) × (false ≡ false) × IsAvailable immutable local_facts
accepted_risk_limits_example =
    accepted_risk_limits counter_global (disposed unhandled) (asking immutable true) app_config none
      empty_log pinned_counter (log_of risky) refl risk_runs risk_recorded

apply_global_override-Eligible_example :
    (log : Log String) × (apply_global_override counter_global
        (asking mutex false)
        locking_config
        none
        empty_log
      ≡ ok (
        record counter_global {
          disposition = some (honor_override (disposed unhandled) (asking mutex false) false);
        },
        log,
      ))
    × (log.ledger ≡ [])
apply_global_override-Eligible_example =
    apply_global_override-Eligible counter_global (disposed unhandled) (asking mutex false)
      locking_config none empty_log refl local_facts_valid mutex-Eligible refl refl

count_outcomes_complete_example :
    (total (count_outcomes two_entries) ≡ length two_entries)
    × (has_problems (count_outcomes two_entries) ≡ any (λ e. is_problem e.outcome) two_entries)
count_outcomes_complete_example = count_outcomes_complete two_entries

set_members_changes_example :
    (gs : List (GlobalRecord String)) × (set_members mutex pair.members two_globals ≡ ok gs)
    × Changed mutex (contains pair.members) two_globals gs
set_members_changes_example = set_members_changes mutex pair.members two_globals (refl, (refl, tt))

pair_locked : independent_joint_group_strategy two_globals pair locking_config ≡ ok (some mutex)
unfolding independent_joint_group_strategy evaluate evaluate_facts key_beq group_failures sort_by
pair_locked = refl

independent_joint-IsSharedChoice_example :
    IsSharedChoice two_globals pair locking_config.order mutex
independent_joint-IsSharedChoice_example =
    independent_joint-IsSharedChoice two_globals pair locking_config mutex (λ e. cc) tt pair_locked

-- A failed certificate without a witness reports no failure, and the lock is chosen all the same.
silent_pair_locked :
    independent_joint_group_strategy two_globals
      (record pair {
        strategy_support = record pair.strategy_support {
          mutex = some (Certificate.failed [] [] none none []);
        };
      })
      locking_config
    ≡ ok (some mutex)
unfolding independent_joint_group_strategy evaluate evaluate_facts key_beq group_failures sort_by
silent_pair_locked = refl

decide_group-Decides_example :
    Decides pair (decide_group two_globals locking_config (some (asking mutex true)) pair empty_log)
decide_group-Decides_example =
    decide_group-Decides two_globals locking_config (some (asking mutex true)) pair empty_log

alone : AreDisjoint (pair ∷ [])
alone = (λ j m. tt, tt)

resolve_groups-Agrees_example :
    (groups : List (CouplingGroup String)) × (globals : List (GlobalRecord String)) × (log : Log
      String)
    × (resolve_groups no_overrides locking_config (pair ∷ []) two_globals empty_log
        ≡ ok (groups, globals, log))
    × All (Agrees globals) groups
    × Untouched (pair ∷ []) two_globals globals
    × SameGroups (pair ∷ []) groups
    × SameHistories two_globals globals
resolve_groups-Agrees_example =
    resolve_groups-Agrees no_overrides locking_config (pair ∷ []) two_globals empty_log
      (refl, (refl, tt)) alone
