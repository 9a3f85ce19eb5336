-- ===== src/Dispose/Groups/Resolve.antt =====
-- crates/pangs-dispose/src/lib.rs: `resolve_groups`, group by group.
use Prim.Native.String.{◌++◌ as concat}
use tenjin_pangs.Base.{
  String, Bool, true, false, Option, none, some, List, [], ◌∷◌, ◌++◌, ◌==◌, string_eq, Result, ok,
  Fault, expect, ◌>>=◌, lookup, contains, if◌then◌else◌, is_some,
}
use tenjin_pangs.Manifest.Strategy.{Strategy, unhandled, strategy_eq, as_str}
use tenjin_pangs.Manifest.Key.{Key, key_eq}
use tenjin_pangs.Manifest.Facts.{Json}
use tenjin_pangs.Manifest.Records.{
  GlobalRecord, Disposition, CouplingGroup, GuardFailure, GroupProvenance, DispositionProvenance,
  OverrideOutcome, honored, honored_accepted_risk, rejected, rejected_strategy_disabled,
  rejected_no_recipe, unmatched_key, OverrideScope, AuditScope,
}
use tenjin_pangs.Dispose.Config.{CascadeConfig, OverrideSpec, Overrides, DisposeError}
use tenjin_pangs.Dispose.Overrides.{
  Log, push_entry, report_entry, echo, is_disabled, risk_record, strategy_omitted,
}
use tenjin_pangs.Dispose.Groups.{
  is_per_global, group_failures, group_availability, independent_joint_group_strategy,
}

abbrev pub group_text : OverrideSpec → String → String
group_text spec id = elim spec.reason [
  | some reason ↦ reason
  | none ↦ concat "accepted risk for " (concat (as_str spec.disposition) (concat " on group " id))
]

abbrev pub group_reason : OverrideOutcome → String
group_reason rejected_no_recipe = "group strategy has no joint materialization recipe"
group_reason _ = "group strategy inputs were not computed"

module _ {V : Type 0} where
  -- The first two assignments of an iteration.
  abbrev pub reset_group : CouplingGroup V → CouplingGroup V
  reset_group group = record group {
    group_provenance = some GroupProvenance.cascade;
    override = none;
  }

  unfoldable pub record_honored_group : CouplingGroup V → OverrideSpec → Bool → CouplingGroup V
  record_honored_group group spec accepted_risk = record group {
    group_provenance = some (
        if accepted_risk then GroupProvenance.override_accepted_risk else GroupProvenance.override);
    override = some (echo spec);
  }

  abbrev pub group_entry :
      String
      → OverrideSpec
      → OverrideOutcome
      → Option String
      → Option (List (GuardFailure V))
      → Log V
      → Log V
  group_entry id spec outcome reason failures log =
      push_entry log (report_entry OverrideScope.group (some id) spec outcome reason failures)

  -- The representation of its group, in a member's disposition.
  unfoldable pub constrain : Strategy → Disposition V → Disposition V
  constrain s d = record d {
    chosen = s;
    override = none;
    provenance =
        if s == d.cascade_chosen
        then DispositionProvenance.cascade
        else DispositionProvenance.group_constraint;
  }

  -- One member: the first global with the key, if there is one.
  unfoldable pub set_member :
      Strategy → Key → List (GlobalRecord V) → Result (List (GlobalRecord V)) (Fault DisposeError)
  set_member s k [] = ok []
  set_member s k (g ∷ gs) =
      let others = set_member s k gs in
      if g.key == k
      then (expect "independent cascade populated disposition" g.disposition >>= λ d.
          ok ((record g { disposition = some (constrain s d) }) ∷ gs))
      else (others >>= λ rest. ok (g ∷ rest))

  unfoldable pub set_members :
      Strategy
      → List Key
      → List (GlobalRecord V)
      → Result (List (GlobalRecord V)) (Fault DisposeError)
  unfolding set_member
  set_members s [] globals = ok globals
  set_members s (k ∷ ks) globals = do next ← set_member s k globals; set_members s ks next

-- What one iteration of the loop decides: the strategy, the group and the two lists.
pub record Decision (V : Type 0) : Type 0 where
  pub chosen : Option Strategy
  pub group : CouplingGroup V
  pub log : Log V

module _ {V : Type 0} ⦃json : Json V⦄ (globals : List (GlobalRecord V))
    (config : CascadeConfig) where
  -- A branch that falls back on the automatic choice.
  unfoldable pub fall_back : CouplingGroup V → Log V → Result (Decision V) (Fault DisposeError)
  fall_back group log = do
    chosen ← independent_joint_group_strategy globals group config
    ok (record { chosen = chosen; group = group; log = log })

  -- The innermost branch of a group's override, where the strategy is available.
  unfoldable pub pin_available :
      CouplingGroup V → OverrideSpec → Log V → Result (Decision V) (Fault DisposeError)
  unfolding fall_back record_honored_group report_entry
  pin_available group spec log = do
    failures ← group_failures globals group spec.disposition
    elim failures [
      | [] ↦ ok (record {
        chosen = some spec.disposition;
        group = record_honored_group group spec false;
        log = group_entry group.id spec honored none none log;
      })
      | f ∷ fs ↦
          let log' = group_entry group.id spec honored_accepted_risk none (some (f ∷ fs)) log in
          if spec.accept_risk
          then ok (record {
            chosen = some spec.disposition;
            group = record_honored_group group spec true;
            log = record log' {
              ledger =
                  log'.ledger
                  ++ risk_record spec (AuditScope.group group.id []) (group_text spec group.id)
                      (f ∷ fs)
                    ∷ [];
            };
          })
          else fall_back group (
              group_entry group.id spec rejected
                (some "group strategy guard failed and accept_risk was not set") (some (f ∷ fs))
                log)
    ]

  -- The branches of a group's override.
  unfoldable pub pin_group :
      CouplingGroup V → OverrideSpec → Log V → Result (Decision V) (Fault DisposeError)
  unfolding pin_available
  pin_group group spec log =
      if is_per_global spec.disposition
      then fall_back group (
          group_entry group.id spec rejected
            (some "per-global strategy cannot be pinned at group scope; use member overrides") none
            log)
      else if is_disabled config spec.disposition
      then fall_back group
          (group_entry group.id spec rejected_strategy_disabled (some strategy_omitted) none log)
      else if spec.disposition == unhandled
      then ok (record {
        chosen = some unhandled;
        group = record_honored_group group spec false;
        log = group_entry group.id spec honored none none log;
      })
      else elim (group_availability globals group spec.disposition) [
        | some o ↦ fall_back group (group_entry group.id spec o (some (group_reason o)) none log)
        | none ↦ pin_available group spec log
      ]

  unfoldable pub decide_group :
      Option OverrideSpec → CouplingGroup V → Log V → Result (Decision V) (Fault DisposeError)
  unfolding pin_group
  decide_group none group log = fall_back (reset_group group) log
  decide_group (some spec) group log = pin_group (reset_group group) spec log

module _ {V : Type 0} ⦃json : Json V⦄ (overrides : Overrides) (config : CascadeConfig) where
  -- The end of an iteration: the group and its members take the strategy that was chosen.
  abbrev pub settle :
      List (GlobalRecord V)
      → Decision V
      → Result (List (GlobalRecord V) × CouplingGroup V) (Fault DisposeError)
  settle globals d = elim d.chosen [
    | none ↦ ok (
      globals,
      record (d.group) { group_disposition = none; group_provenance = none; override = none },
    )
    | some s ↦ do
      next ← set_members s d.group.members globals
      ok (next, record (d.group) { group_disposition = some s })
  ]

  -- The loop over the groups, with the ids that an override names.
  unfoldable pub resolve_from :
      List String
      → List (CouplingGroup V)
      → List (GlobalRecord V)
      → Log V
      → Result
          (List String × List (CouplingGroup V) × List (GlobalRecord V) × Log V)
          (Fault DisposeError)
  resolve_from matched [] globals log = ok (matched, [], globals, log)
  resolve_from matched (group ∷ groups) globals log = do
    let spec = lookup group.id overrides.groups
    d ← decide_group globals config spec group log
    (globals', group') ← settle globals d
    (matched', groups', globals'', log') ←
        resolve_from (if is_some spec then matched ++ group.id ∷ [] else matched) groups globals'
          d.log
    ok (matched', group' ∷ groups', globals'', log')

  -- The last loop: the overrides that name no group.
  unfoldable pub unmatched_groups : List String → List (String × OverrideSpec) → Log V → Log V
  unmatched_groups matched [] log = log
  unmatched_groups matched ((id, spec) ∷ rest) log = unmatched_groups matched rest (
      if contains matched id
      then log
      else group_entry id spec unmatched_key (some "no coupling group has this id") none log)

  unfoldable pub resolve_groups :
      List (CouplingGroup V)
      → List (GlobalRecord V)
      → Log V
      → Result (List (CouplingGroup V) × List (GlobalRecord V) × Log V) (Fault DisposeError)
  unfolding resolve_from unmatched_groups
  resolve_groups groups globals log = do
    (matched, groups', globals', log') ← resolve_from [] groups globals log
    ok (groups', globals', unmatched_groups matched overrides.groups log')
