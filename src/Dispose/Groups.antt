-- ===== src/Dispose/Groups.antt =====
-- crates/pangs-dispose/src/lib.rs: the joint representation of a coupling group. The functions of
-- the source take the manifest and an index; they read the globals and the group of that index,
-- which are the arguments here.
pub mod Resolve
pub mod Members
pub mod Support
pub mod Joint
pub mod Totality
pub mod Agreement
use tenjin_pangs.Base.{
  String, Bool, true, false, not, ◌&&◌, ◌||◌, Option, none, some, List, [], ◌∷◌, ◌++◌, ◌==◌, map,
  Result, ok, err, Fault, ◌>>=◌, find, first, sort_by, if◌then◌else◌,
}
use tenjin_pangs.Manifest.Strategy.{
  Strategy, immutable, once_lock, atomic, mutex, localize, unhandled, strategy_eq,
}
use tenjin_pangs.Manifest.Key.{Key, key_eq}
use tenjin_pangs.Manifest.Facts.{Json, Certificate, is_certified, Witness}
use tenjin_pangs.Manifest.Records.{
  GlobalRecord, CouplingGroup, GuardFailure, OnceLockGroupSupport, OverrideOutcome,
  rejected_strategy_unavailable, rejected_no_recipe, GroupStrategySupport,
}
use tenjin_pangs.Dispose.Config.{CascadeConfig, DisposeError}
use tenjin_pangs.Dispose.Guards.{is_joint, applicable, failed, not_computed, evaluate}
use tenjin_pangs.Dispose.Overrides.{unavailable_outcome}
use tenjin_pangs.Dispose.Overrides.Witnesses.{guard_failures, member_guard_cmp, plain_witness}

-- `matches!(strategy, Immutable | Atomic | Localize)`: the strategies of one global each.
abbrev pub is_per_global : Strategy → Bool
is_per_global s = s == immutable || s == atomic || s == localize

module _ {V : Type 0} where
  abbrev pub find_global : List (GlobalRecord V) → Key → Option (GlobalRecord V)
  find_global globals key = find (λ g. g.key == key) globals

  abbrev pub missing_group_failure : Key → String → GuardFailure V
  missing_group_failure member guard = record {
    member = member;
    guard = guard;
    witness = plain_witness "fact-not-computed" (some guard);
    extra = [];
  }

  -- A failure of the group as a whole is reported for its first member.
  abbrev pub for_first : List Key → (Key → List (GuardFailure V)) → List (GuardFailure V)
  for_first [] f = []
  for_first (k ∷ ks) f = f k

  abbrev pub once_lock_failures : Option (OnceLockGroupSupport V) → Key → List (GuardFailure V)
  once_lock_failures none k = missing_group_failure k "group_once_lock_common_p" ∷ []
  once_lock_failures (some (OnceLockGroupSupport.supported p i c x)) k = []
  once_lock_failures (some (OnceLockGroupSupport.unsupported w x)) k =
      (record { member = k; guard = "group_once_lock_common_p"; witness = w; extra = [] }) ∷ []

  abbrev pub mutex_failures : Option (Certificate V) → Key → List (GuardFailure V)
  mutex_failures none k = missing_group_failure k "group_mutex_reentrancy" ∷ []
  mutex_failures (some (Certificate.certified c x)) k = []
  mutex_failures (some (Certificate.failed codes witnesses r d x)) k =
      map {A = Witness V}
        (λ w. record { member = k; guard = "group_mutex_reentrancy"; witness = w; extra = [] })
        witnesses

  -- The second `match` of `group_failures`.
  abbrev pub support_failures : CouplingGroup V → Strategy → List (GuardFailure V)
  support_failures group once_lock =
      for_first group.members (once_lock_failures group.strategy_support.once_lock)
  support_failures group mutex =
      for_first group.members (mutex_failures group.strategy_support.mutex)
  support_failures group _ = []

  -- The `match` of `group_availability`.
  abbrev pub once_lock_availability : Option (OnceLockGroupSupport V) → Option OverrideOutcome
  once_lock_availability none = some rejected_strategy_unavailable
  once_lock_availability (some (OnceLockGroupSupport.supported p i c x)) = none
  once_lock_availability (some (OnceLockGroupSupport.unsupported w x)) = some rejected_no_recipe

  abbrev pub mutex_availability : Option (Certificate V) → Option OverrideOutcome
  mutex_availability none = some rejected_strategy_unavailable
  mutex_availability (some c) = if is_certified c then none else some rejected_no_recipe

  abbrev pub support_availability : CouplingGroup V → Strategy → Option OverrideOutcome
  support_availability group once_lock = once_lock_availability group.strategy_support.once_lock
  support_availability group mutex = mutex_availability group.strategy_support.mutex
  support_availability group _ = none

  -- The first loop of `independent_joint_group_strategy`: every member is a global with a
  -- disposition that the cascade did not give a strategy of its own.
  abbrev pub member_allows : Option (GlobalRecord V) → Bool
  member_allows none = false
  member_allows (some g) = elim g.disposition [
    | none ↦ false
    | some d ↦ not (is_per_global d.cascade_chosen)
  ]

  unfoldable pub members_allow : List (GlobalRecord V) → List Key → Bool
  members_allow globals [] = true
  members_allow globals (k ∷ ks) = member_allows (find_global globals k) && members_allow globals ks

module _ {V : Type 0} ⦃json : Json V⦄ where
  -- What one member adds to `group_failures`.
  abbrev pub failures_of :
      Strategy → Key → GlobalRecord V → Result (List (GuardFailure V)) (Fault DisposeError)
  failures_of s k g = elim (evaluate s g.facts) [
    | ok applicable ↦ ok []
    | ok (failed guards) ↦ ok (guard_failures k g.facts guards)
    | ok (not_computed fact) ↦ ok (missing_group_failure k fact ∷ [])
    | err e ↦ err e
  ]

  -- A member that is no global is passed over.
  unfoldable pub failures_at :
      List (GlobalRecord V) → Strategy → Key → Result (List (GuardFailure V)) (Fault DisposeError)
  failures_at globals s k = elim (find_global globals k) [
    | none ↦ ok []
    | some g ↦ failures_of s k g
  ]

  -- The loop of `group_failures` over the members.
  unfoldable pub member_failures :
      List (GlobalRecord V)
      → Strategy
      → List Key
      → Result (List (GuardFailure V)) (Fault DisposeError)
  member_failures globals s [] = ok []
  member_failures globals s (k ∷ ks) = do
    here ← failures_at globals s k
    rest ← member_failures globals s ks
    ok (here ++ rest)

  unfoldable pub group_failures :
      List (GlobalRecord V)
      → CouplingGroup V
      → Strategy
      → Result (List (GuardFailure V)) (Fault DisposeError)
  unfolding member_failures failures_at
  group_failures globals group s = do
    members ← member_failures globals s group.members
    ok (sort_by member_guard_cmp (members ++ support_failures group s))

  -- The loop of `group_availability` over the members.
  unfoldable pub members_availability :
      List (GlobalRecord V) → Strategy → List Key → Option OverrideOutcome
  members_availability globals s [] = none
  members_availability globals s (k ∷ ks) =
      let rest = members_availability globals s ks in
      elim (find_global globals k) [
        | none ↦ some rejected_strategy_unavailable
        | some g ↦ elim (unavailable_outcome s g.facts) [ some o ↦ some o | none ↦ rest ]
      ]

  unfoldable pub group_availability :
      List (GlobalRecord V) → CouplingGroup V → Strategy → Option OverrideOutcome
  unfolding members_availability
  group_availability globals group s = elim (members_availability globals s group.members) [
    | some o ↦ some o
    | none ↦ support_availability group s
  ]

  -- The search of the order for a joint strategy without failures.
  unfoldable pub first_joint :
      List (GlobalRecord V)
      → CouplingGroup V
      → List Strategy
      → Result (Option Strategy) (Fault DisposeError)
  first_joint globals group [] = ok none
  first_joint globals group (s ∷ rest) =
      let next = first_joint globals group rest in
      if is_joint s
      then elim (group_failures globals group s) [
        | ok [] ↦ ok (some s)
        | ok (f ∷ fs) ↦ next
        | err e ↦ err e
      ]
      else next

  unfoldable pub independent_joint_group_strategy :
      List (GlobalRecord V)
      → CouplingGroup V
      → CascadeConfig
      → Result (Option Strategy) (Fault DisposeError)
  unfolding members_allow first_joint
  independent_joint_group_strategy globals group config =
      if members_allow globals group.members
      then first_joint globals group config.order
      else ok none
