-- ===== src/Dispose/Demotion/Choices.antt =====
-- What a demotion of crates/pangs-dispose/src/lib.rs does to the choices.
use tenjin_pangs.Base.{
  ◌≡◌, ◌≢◌, refl, none, some, List, [], ◌∷◌, ◌++◌, ◌==◌, ok, All, arith, Bool-cases, Option-cases,
  inl, inr, ◌⊎◌, lookup, eq_of_beq,
}
use tenjin_pangs.Manifest.Strategy.{unhandled, strategy_eq}
use tenjin_pangs.Manifest.Key.{Key, key_eq}
use tenjin_pangs.Manifest.Facts.{Witness}
use tenjin_pangs.Manifest.Records.{GlobalRecord, Disposition, DispositionProvenance}
use tenjin_pangs.Manifest.Document.{MaterializationDemotion}
use tenjin_pangs.Dispose.Demotion.{demoted, demote_global, demote_globals}
use tenjin_pangs.Dispose.Groups.Members.{IsFinal}

module _ {V : Type 0} (expanded : List (Key × Witness V)) where
  -- A global before and after, and the demotions recorded for it: it stays as it is where no
  -- failure names it or it is unhandled. Otherwise its choice becomes `unhandled`, by a demotion from
  -- its former choice with the witness, and the rest of it stays.
  abbrev pub Demotes : GlobalRecord V → GlobalRecord V → List (MaterializationDemotion V) → Type 0
  Demotes g g' recorded =
      (d : Disposition V) × (g.disposition ≡ some d)
      × (((lookup g.key expanded ≡ none) ⊎ (d.chosen ≡ unhandled)) × (g' ≡ g) × (recorded ≡ [])
          ⊎ (w : Witness V) × (lookup g.key expanded ≡ some w)
            × (d.chosen ≢ unhandled)
            × (g' ≡ record g {
              disposition = some (record d {
                chosen = unhandled;
                provenance = DispositionProvenance.demoted;
                demotion = some (record { from = d.chosen; witness = w; extra = [] });
              });
            })
            × (recorded ≡ (record { key = g.key; from = d.chosen; witness = w; extra = [] }) ∷ []))

  -- No failure names the global, or nothing is chosen for it.
  abbrev pub IsSettled : GlobalRecord V → Type 0
  IsSettled g =
      (d : Disposition V) × (g.disposition ≡ some d)
      × ((lookup g.key expanded ≡ none) ⊎ (d.chosen ≡ unhandled))

  -- The globals before and after, and the demotions in their order.
  abbrev pub AreDemoted :
      List (GlobalRecord V) → List (GlobalRecord V) → List (MaterializationDemotion V) → Type 0
  AreDemoted [] [] recorded = recorded ≡ []
  AreDemoted (g ∷ gs) (g' ∷ gs') recorded =
      (here : List (MaterializationDemotion V)) × (rest : List (MaterializationDemotion V))
      × (recorded ≡ here ++ rest)
      × Demotes g g' here
      × AreDemoted gs gs' rest
  AreDemoted [] (g' ∷ gs') recorded = ⊥
  AreDemoted (g ∷ gs) [] recorded = ⊥

  demote_global-Demotes :
      (g : GlobalRecord V)
      → IsFinal g
      → (g' : GlobalRecord V) × (recorded : List (MaterializationDemotion V)) × (demote_global
            expanded g
          ≡ ok (g', recorded))
        × Demotes g g' recorded
  unfolding demote_global
  demote_global-Demotes g final = elim (Option-cases g.disposition) [
    | inl missing ↦ absurd (ground arith)
    | inr (d, has) ↦ elim (Option-cases (lookup g.key expanded)) [
      | inl e ↦ (g, [], rw (e, demote_global), (d, has, inl (inl e, refl, refl)))
      | inr (w, e) ↦ elim (Bool-cases (d.chosen == unhandled)) [
        | inl same ↦ (
          g,
          [],
          rw (e, has, same, demote_global),
          (d, has, inl (inr (eq_of_beq d.chosen unhandled same), refl, refl)),
        )
        | inr other ↦
            let n : d.chosen ≢ unhandled =
              λ k. ground (arith, other, strategy_eq.beq_iff d.chosen unhandled) in
            (
              record g { disposition = some (demoted d w) },
              (record { key = g.key; from = d.chosen; witness = w; extra = [] }) ∷ [],
              rw (e, has, other, demote_global),
              (d, has, inr (w, e, n, refl, refl)),
            )
      ]
    ]
  ]

  Demotes-IsSettled :
      (g g' : GlobalRecord V) (recorded : List (MaterializationDemotion V))
      → Demotes g g' recorded
      → IsSettled g'
  Demotes-IsSettled g g' recorded (d, has, inl (why, same, none_there)) = rw same (d, has, why)
  Demotes-IsSettled g g' recorded (d, has, inr (w, e, n, changed, one)) =
      rw changed (_, refl, inr refl)

  AreDemoted-IsSettled :
      (gs gs' : List (GlobalRecord V)) (recorded : List (MaterializationDemotion V))
      → AreDemoted gs gs' recorded
      → All IsSettled gs'
  AreDemoted-IsSettled [] [] recorded h = tt
  AreDemoted-IsSettled (g ∷ gs) (g' ∷ gs') recorded (here, rest, q, one, more) =
      (Demotes-IsSettled g g' here one, AreDemoted-IsSettled gs gs' rest more)
  AreDemoted-IsSettled [] (g' ∷ gs') recorded h = absurd h
  AreDemoted-IsSettled (g ∷ gs) [] recorded h = absurd h

  demote_global_settled : (g : GlobalRecord V) → IsSettled g → demote_global expanded g ≡ ok (g, [])
  unfolding demote_global
  demote_global_settled g (d, has, inl e) = rw (e, demote_global)
  demote_global_settled g (d, has, inr e) = elim (Option-cases (lookup g.key expanded)) [
    | inl n ↦ rw (n, demote_global)
    | inr (w, n) ↦ rw (n, has, e, demote_global)
  ]

  demote_globals_settled :
      (gs : List (GlobalRecord V)) → All IsSettled gs → demote_globals expanded gs ≡ ok (gs, [])
  unfolding demote_globals
  demote_globals_settled [] h = refl
  demote_globals_settled (g ∷ gs) (h, hs) =
      rw (demote_global_settled g h, demote_globals_settled gs hs, demote_globals)

  demote_globals_runs :
      (gs : List (GlobalRecord V))
      → All IsFinal gs
      → (gs' : List (GlobalRecord V)) × (recorded : List (MaterializationDemotion V))
        × (demote_globals expanded gs ≡ ok (gs', recorded))
        × AreDemoted gs gs' recorded
  unfolding demote_globals
  demote_globals_runs [] final = ([], [], refl, refl)
  demote_globals_runs (g ∷ gs) (f, fs) =
      let (g', here, runs, one) = demote_global-Demotes g f in
      let (gs', rest, runs', more) = demote_globals_runs gs fs in
      (g' ∷ gs', here ++ rest, rw (runs, runs', demote_globals), (here, rest, refl, one, more))

  -- On globals that all have a disposition the demotion returns and never panics. A global changes
  -- exactly when a failure names it and it has an explicit strategy: its choice becomes `unhandled`,
  -- marked as demoted from its former strategy with the witness, everything else is kept, and one
  -- such demotion is recorded. Afterwards no global that a failure names has an explicit strategy,
  -- and the same demotion again changes and records nothing.
  pub demote_globals-AreDemoted :
      (gs : List (GlobalRecord V))
      → All IsFinal gs
      → (gs' : List (GlobalRecord V)) × (recorded : List (MaterializationDemotion V))
        × (demote_globals expanded gs ≡ ok (gs', recorded))
        × AreDemoted gs gs' recorded
        × All IsSettled gs'
        × (demote_globals expanded gs' ≡ ok (gs', []))
  demote_globals-AreDemoted gs final =
      let (gs', recorded, runs, all_demoted) = demote_globals_runs gs final in
      let settled = AreDemoted-IsSettled gs gs' recorded all_demoted in
      (gs', recorded, runs, all_demoted, settled, demote_globals_settled gs' settled)
