-- ===== src/Dispose/Groups/Agreement.antt =====
-- What `resolve_groups` of crates/pangs-dispose/src/lib.rs establishes for all groups together.
use tenjin_pangs.Base.{
  String, ◌≡◌, refl, sym, ◌∙◌, ap, true, false, none, some, List, [], ◌∷◌, ◌++◌, ok, All, arith,
  Option-cases, inl, inr, is_some, contains, if◌then◌else◌, lookup, string_eq,
}
use tenjin_pangs.Manifest.Strategy.{Strategy}
use tenjin_pangs.Manifest.Key.{Key, key_eq}
use tenjin_pangs.Manifest.Facts.{Json}
use tenjin_pangs.Manifest.Records.{GlobalRecord, CouplingGroup}
use tenjin_pangs.Dispose.Config.{CascadeConfig, Overrides}
use tenjin_pangs.Dispose.Overrides.{Log}
use tenjin_pangs.Dispose.Groups.{find_global}
use tenjin_pangs.Dispose.Groups.Resolve.{
  Decision, decide_group, settle, resolve_from, resolve_groups, unmatched_groups,
}
use tenjin_pangs.Dispose.Groups.Totality.{SameGroup, decide_group-Decides, decision_of}
use tenjin_pangs.Dispose.Groups.Members.{
  SameHistories, SameHistories-refl, SameHistories-trans, IsFinal, chosen_at, set_members_changes,
}

module _ {V : Type 0} where
  -- No global is a member of two groups of the list.
  abbrev pub AreDisjoint : List (CouplingGroup V) → Type 0
  AreDisjoint [] = Unit
  AreDisjoint (g ∷ gs) =
      ((j : Key) → contains g.members j ≡ true → All (λ h. contains h.members j ≡ false) gs)
      × AreDisjoint gs

  abbrev pub SameGroups : List (CouplingGroup V) → List (CouplingGroup V) → Type 0
  SameGroups [] [] = Unit
  SameGroups (g ∷ gs) (g' ∷ gs') = SameGroup g g' × SameGroups gs gs'
  SameGroups [] (g' ∷ gs') = ⊥
  SameGroups (g ∷ gs) [] = ⊥

  -- Every member that is a global has the strategy of its group, if the group has one.
  abbrev pub Agrees : List (GlobalRecord V) → CouplingGroup V → Type 0
  Agrees globals g =
      (s : Strategy)
      → g.group_disposition ≡ some s
      → (j : Key) → contains g.members j ≡ true
      → is_some (find_global globals j) ≡ true
      → chosen_at globals j ≡ some s

  -- A global that is in no group keeps its choice.
  abbrev pub Untouched :
      List (CouplingGroup V) → List (GlobalRecord V) → List (GlobalRecord V) → Type 0
  Untouched groups globals globals' =
      (j : Key)
      → All (λ g. contains g.members j ≡ false) groups
      → chosen_at globals' j ≡ chosen_at globals j

  -- The groups and the globals after the loop.
  pub record IsResolved (groups groups' : List (CouplingGroup V))
      (globals globals' : List (GlobalRecord V)) : Type 0 where
    pub groups_same : SameGroups groups groups'
    pub same : SameHistories globals globals'
    pub final : All IsFinal globals'
    pub found : (j : Key) → is_some (find_global globals' j) ≡ is_some (find_global globals j)
    pub untouched : Untouched groups globals globals'
    pub agrees : AreDisjoint groups → All (Agrees globals') groups'

  -- The globals after one iteration, with what the group chose.
  record Settled (g g' : CouplingGroup V) (globals globals' : List (GlobalRecord V)) : Type 0 where
    group_same : SameGroup g g'
    same : SameHistories globals globals'
    final : All IsFinal globals'
    found : (j : Key) → is_some (find_global globals' j) ≡ is_some (find_global globals j)
    untouched :
        (j : Key) → contains g.members j ≡ false → chosen_at globals' j ≡ chosen_at globals j
    agrees : Agrees globals' g'

module _ {V : Type 0} ⦃json : Json V⦄ (overrides : Overrides) (config : CascadeConfig) where
  settle_settles :
      (g : CouplingGroup V) (d : Decision V) (globals : List (GlobalRecord V))
      → SameGroup g d.group
      → All IsFinal globals
      → (globals' : List (GlobalRecord V)) × (g' : CouplingGroup V) × (settle overrides config
            globals d
          ≡ ok (globals', g'))
        × Settled g g' globals globals'
  settle_settles g d globals s final = elim (Option-cases d.chosen) [
    | inl e ↦ (
      globals,
      record (d.group) { group_disposition = none; group_provenance = none; override = none },
      rw (e, settle),
      record {
        group_same = record {
          id = s.id;
          members = s.members;
          evidence = s.evidence;
          support = s.support;
        };
        same = SameHistories-refl globals;
        final = final;
        found = λ j. refl;
        untouched = λ j n. refl;
        agrees = λ t e' j m f. cc;
      },
    )
    | inr (t, e) ↦
        let (globals', runs, c) = set_members_changes t d.group.members globals final in
        (
          globals',
          record (d.group) { group_disposition = some t },
          rw (e, runs, settle),
          record {
            group_same = record {
              id = s.id;
              members = s.members;
              evidence = s.evidence;
              support = s.support;
            };
            same = c.same;
            final = c.final;
            found = c.found;
            untouched = λ j n. ground (arith, c.choice j, ap (λ ks. contains ks j) s.members);
            agrees = λ u e' j m f. ground (arith, c.choice j, c.found j);
          },
        )
  ]

  IsResolved-nil :
      (globals : List (GlobalRecord V))
      → All IsFinal globals
      → IsResolved {V = V} [] [] globals globals
  IsResolved-nil globals final = record {
    groups_same = tt;
    same = SameHistories-refl globals;
    final = final;
    found = λ j. refl;
    untouched = λ j n. refl;
    agrees = λ n. tt;
  }

  -- A later iteration leaves an earlier group's members alone.
  still-Agrees :
      (g g' : CouplingGroup V) (rest rest' : List (CouplingGroup V))
      (gs gs' : List (GlobalRecord V))
      → SameGroup g g'
      → Agrees gs g'
      → IsResolved rest rest' gs gs'
      → ((j : Key) → contains g.members j ≡ true → All (λ h. contains h.members j ≡ false) rest)
      → Agrees gs' g'
  still-Agrees g g' rest rest' gs gs' s a r apart t e j m f =
      let here : contains g.members j ≡ true = rw s.members at m in
      r.untouched j (apart j here) ∙ a t e j m (sym (r.found j) ∙ f)

  IsResolved-cons :
      (g g' : CouplingGroup V) (rest rest' : List (CouplingGroup V))
      (gs gs' gs'' : List (GlobalRecord V))
      → Settled g g' gs gs'
      → IsResolved rest rest' gs' gs''
      → IsResolved (g ∷ rest) (g' ∷ rest') gs gs''
  IsResolved-cons g g' rest rest' gs gs' gs'' s r = record {
    groups_same = (s.group_same, r.groups_same);
    same = SameHistories-trans gs gs' gs'' s.same r.same;
    final = r.final;
    found = λ j. r.found j ∙ s.found j;
    untouched = λ j n. r.untouched j n.1 ∙ s.untouched j n.0;
    agrees = λ apart.
        (still-Agrees g g' rest rest' gs' gs'' s.group_same s.agrees r apart.0, r.agrees apart.1);
  }

  resolve_from_resolves :
      (matched : List String) (groups : List (CouplingGroup V)) (globals : List (GlobalRecord V))
      (log : Log V)
      → All IsFinal globals
      → (matched' : List String) × (groups' : List (CouplingGroup V)) × (globals' : List
          (GlobalRecord V))
        × (log' : Log V) × (resolve_from overrides config matched groups globals log
            ≡ ok (matched', groups', globals', log'))
        × IsResolved groups groups' globals globals'
  unfolding resolve_from
  resolve_from_resolves matched [] globals log final =
      (matched, [], globals, log, refl, IsResolved-nil globals final)
  resolve_from_resolves matched (g ∷ rest) globals log final =
      let spec = lookup g.id overrides.groups in
      let (d, decides, s) =
        decision_of g (decide_group globals config spec g log)
          (decide_group-Decides globals config spec g log) in
      let (globals', g', settles, one) = settle_settles g d globals s final in
      let (matched', rest', globals'', log', runs, more) =
        resolve_from_resolves (if is_some spec then matched ++ g.id ∷ [] else matched) rest globals'
          d.log one.final in
      (
        matched',
        g' ∷ rest',
        globals'',
        log',
        rw (decides, settles, runs, resolve_from),
        IsResolved-cons g g' rest rest' globals globals' globals'' one more,
      )

  -- What `resolve_groups` does to any groups.
  pub resolve_groups_resolves :
      (groups : List (CouplingGroup V)) (globals : List (GlobalRecord V)) (log : Log V)
      → All IsFinal globals
      → (groups' : List (CouplingGroup V)) × (globals' : List (GlobalRecord V)) × (log' : Log V)
        × (resolve_groups overrides config groups globals log ≡ ok (groups', globals', log'))
        × IsResolved groups groups' globals globals'
  unfolding resolve_groups
  resolve_groups_resolves groups globals log final =
      let (matched, groups', globals', log', runs, r) =
        resolve_from_resolves [] groups globals log final in
      (
        groups',
        globals',
        unmatched_groups overrides config matched overrides.groups log',
        rw (runs, resolve_groups),
        r,
      )

  -- On globals that all have a disposition, and none in two groups, `resolve_groups` returns and
  -- never panics. All members of a group that has a joint strategy end with that strategy, and
  -- globals in no group keep theirs. The groups keep their ids, members and analysis; the globals
  -- keep their keys, their facts and the history of the cascade.
  pub resolve_groups-Agrees :
      (groups : List (CouplingGroup V)) (globals : List (GlobalRecord V)) (log : Log V)
      → All IsFinal globals
      → AreDisjoint groups
      → (groups' : List (CouplingGroup V)) × (globals' : List (GlobalRecord V)) × (log' : Log V)
        × (resolve_groups overrides config groups globals log ≡ ok (groups', globals', log'))
        × All (Agrees globals') groups'
        × Untouched groups globals globals'
        × SameGroups groups groups'
        × SameHistories globals globals'
  resolve_groups-Agrees groups globals log final apart =
      let (groups', globals', log', runs, r) = resolve_groups_resolves groups globals log final in
      (groups', globals', log', runs, r.agrees apart, r.untouched, r.groups_same, r.same)
