-- ===== src/Dispose/Demotion.antt =====
-- crates/pangs-dispose/src/lib.rs: `demote_and_reproject` up to the new projection. A map of
-- failures is the list of its entries; an entry that is inserted replaces the one of its key.
pub mod Choices
pub mod Holder
pub mod Expansion
mod Tests
use Prim.Native.String.{◌++◌ as concat}
use tenjin_pangs.Base.{
  String, Bool, true, false, ◌&&◌, Option, none, some, List, [], ◌∷◌, ◌++◌, ◌==◌, string_eq,
  option_eq, Result, ok, err, Fault, raised, expect, ◌>>=◌, find, any, all, lookup, insert, map,
  if◌then◌else◌,
}
use tenjin_pangs.Manifest.Strategy.{Strategy, unhandled, strategy_eq}
use tenjin_pangs.Manifest.Key.{Key, key_eq, display, invalid_invariant}
use tenjin_pangs.Manifest.Facts.{Witness}
use tenjin_pangs.Manifest.Records.{GlobalRecord, Disposition, DispositionProvenance, CouplingGroup}
use tenjin_pangs.Manifest.Document.{Manifest, Materialization, MaterializationDemotion}
use tenjin_pangs.Dispose.Config.{DisposeError, manifest_error}
use tenjin_pangs.Dispose.Guards.{is_joint}
use tenjin_pangs.Dispose.Groups.{find_global}

abbrev pub invariant_error : String → Fault DisposeError
invariant_error text = raised (manifest_error (invalid_invariant text))

module _ {V : Type 0} where
  -- The insertions for the members of one group.
  unfoldable pub insert_members :
      List Key → Witness V → List (Key × Witness V) → List (Key × Witness V)
  insert_members [] w expanded = expanded
  insert_members (k ∷ ks) w expanded = insert_members ks w (insert k w expanded)

  -- The group of a global that holds the given joint strategy.
  abbrev pub joint_group :
      List (CouplingGroup V) → GlobalRecord V → Strategy → Option (CouplingGroup V)
  joint_group groups g choice =
      find
        (λ group. g.facts.coupling_group == some group.id && group.group_disposition == some choice)
        groups

  -- What one failure adds, given the strategy of its global.
  unfoldable pub expand_choice :
      List (CouplingGroup V)
      → GlobalRecord V
      → Strategy
      → Witness V
      → List (Key × Witness V)
      → List (Key × Witness V)
  unfolding insert_members
  expand_choice groups g choice w expanded =
      if is_joint choice
      then elim (joint_group groups g choice) [
        | none ↦ expanded
        | some group ↦ insert_members group.members w expanded
      ]
      else expanded

  -- The first loop: the failures, with those of the members of their joint groups.
  unfoldable pub expand_failures :
      List (CouplingGroup V)
      → List (GlobalRecord V)
      → List (Key × Witness V)
      → List (Key × Witness V)
      → Result (List (Key × Witness V)) (Fault DisposeError)
  unfolding expand_choice
  expand_failures groups globals [] expanded = ok expanded
  expand_failures groups globals ((key, w) ∷ rest) expanded = elim (find_global globals key) [
    | none ↦ err (invariant_error (concat "unknown demotion subject " (display key)))
    | some g ↦ elim g.disposition [
      | none ↦ err (invariant_error "demotion requires finalized choices")
      | some d ↦ expand_failures groups globals rest (expand_choice groups g d.chosen w expanded)
    ]
  ]

  abbrev pub demoted : Disposition V → Witness V → Disposition V
  demoted d w = record d {
    chosen = unhandled;
    provenance = DispositionProvenance.demoted;
    demotion = some (record { from = d.chosen; witness = w; extra = [] });
  }

  -- One iteration of the second loop, with the demotions that it pushes.
  unfoldable pub demote_global :
      List (Key × Witness V)
      → GlobalRecord V
      → Result (GlobalRecord V × List (MaterializationDemotion V)) (Fault DisposeError)
  demote_global expanded g = elim (lookup g.key expanded) [
    | none ↦ ok (g, [])
    | some w ↦
        (expect "finalized choices" g.disposition >>= λ d.
        if d.chosen == unhandled
        then ok (g, [])
        else ok (
          record g { disposition = some (demoted d w) },
          (record { key = g.key; from = d.chosen; witness = w; extra = [] }) ∷ [],
        ))
  ]

  unfoldable pub demote_globals :
      List (Key × Witness V)
      → List (GlobalRecord V)
      → Result (List (GlobalRecord V) × List (MaterializationDemotion V)) (Fault DisposeError)
  demote_globals expanded [] = ok ([], [])
  demote_globals expanded (g ∷ gs) = do
    (g', here) ← demote_global expanded g
    (gs', rest) ← demote_globals expanded gs
    ok (g' ∷ gs', here ++ rest)

  abbrev pub is_unhandled : List (GlobalRecord V) → Key → Bool
  is_unhandled globals key =
      any
        (λ g. g.key == key && elim g.disposition [ none ↦ false | some d ↦ d.chosen == unhandled ])
        globals

  -- One iteration of the last loop.
  unfoldable pub demote_group : List (GlobalRecord V) → CouplingGroup V → CouplingGroup V
  demote_group globals group =
      if all (is_unhandled globals) group.members
      then record group { group_disposition = some unhandled }
      else group

  -- The materialization that the demotions are pushed to.
  abbrev pub fresh_materialization : Option (Materialization V) → Materialization V
  fresh_materialization none = record {
    tool = record { name = "tenjin"; version = "source-plan-1"; extra = [] };
    marker_inventory = [];
    demotions = [];
    extra = [];
  }
  fresh_materialization (some t) = record t { marker_inventory = []; extra = [] }

  -- The function up to `select_context_rewrite`.
  unfoldable pub demote_choices :
      Manifest V → List (Key × Witness V) → Result (Manifest V) (Fault DisposeError)
  demote_choices m failures = do
    expanded ← expand_failures m.coupling_groups m.globals failures failures
    (globals, demotions) ← demote_globals expanded m.globals
    let start = fresh_materialization m.materialization
    ok (record m {
      globals = globals;
      coupling_groups = map (demote_group globals) m.coupling_groups;
      materialization = some (record start { demotions = start.demotions ++ demotions });
    })
