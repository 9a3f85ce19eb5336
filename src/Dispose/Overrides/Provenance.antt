-- ===== src/Dispose/Overrides/Provenance.antt =====
-- How a pin in crates/pangs-dispose/src/lib.rs marks the disposition of its global.
use tenjin_pangs.Base.{◌≡◌, true, false, Option, some, [], ◌∷◌, ◌++◌, ok}
use tenjin_pangs.Manifest.Strategy.{Strategy}
use tenjin_pangs.Manifest.Facts.{Json}
use tenjin_pangs.Manifest.Records.{
  Disposition, DispositionProvenance, GlobalRecord, OverrideOutcome, honored, honored_accepted_risk,
  OverrideReportEntry,
}
use tenjin_pangs.Dispose.Config.{OverrideSpec, CascadeConfig}
use tenjin_pangs.Dispose.Overrides.Pin.{Effect, Pins-of_result}
use tenjin_pangs.Dispose.Overrides.{Log, honor_override, apply_global_override}

module _ {V : Type 0} ⦃json : Json V⦄ (g : GlobalRecord V) (d : Disposition V) (spec : OverrideSpec)
    (config : CascadeConfig) (group : Option Strategy) (log : Log V) where
  -- The global takes the strategy asked for, with the request and where it comes from; the choice
  -- and trace of the cascade, and all else, stay.
  abbrev pub Takes : DispositionProvenance → GlobalRecord V → Type 0
  Takes provenance g' = g' ≡ record g {
    disposition = some (record d {
      chosen = spec.disposition;
      provenance = provenance;
      override = some (record {
        disposition = spec.disposition;
        accept_risk = spec.accept_risk;
        reason = spec.reason;
        extra = [];
      });
    });
  }

  -- The global after a pin whose entry has the outcome.
  abbrev pub Marks : OverrideOutcome → GlobalRecord V → Type 0
  Marks honored g' = Takes DispositionProvenance.override g'
  Marks honored_accepted_risk g' = Takes DispositionProvenance.override_accepted_risk g'
  Marks _ g' = g' ≡ g

  honor_override-Takes :
      (g' : GlobalRecord V)
      → g' ≡ record g { disposition = some (honor_override d spec false) }
      → Takes DispositionProvenance.override g'
  unfolding honor_override
  honor_override-Takes g' e = e

  honor_override_risk-Takes :
      (g' : GlobalRecord V)
      → g' ≡ record g { disposition = some (honor_override d spec true) }
      → Takes DispositionProvenance.override_accepted_risk g'
  unfolding honor_override
  honor_override_risk-Takes g' e = e

  Effect-Marks :
      (entry : OverrideReportEntry V) (o : OverrideOutcome) (g' : GlobalRecord V) (log' : Log V)
      → Effect g d spec config group log entry o g' log'
      → Marks o g'
  Effect-Marks entry honored g' log' e = honor_override-Takes g' e.0
  Effect-Marks entry honored_accepted_risk g' log' e = honor_override_risk-Takes g' e.0
  Effect-Marks entry _ g' log' e = e.0

  -- A pin of a global with a disposition that returns reports one entry. If the outcome of the entry
  -- is that the request was honored, the global takes the strategy asked for and carries the request,
  -- with the provenance of an override, or of an override with an accepted risk if the outcome says
  -- so; with any other outcome the global stays as it is.
  pub apply_global_override-Marks :
      (g' : GlobalRecord V) (log' : Log V)
      → g.disposition ≡ some d
      → apply_global_override g spec config group log ≡ ok (g', log')
      → (entry : OverrideReportEntry V) × (log'.entries ≡ log.entries ++ entry ∷ [])
        × Marks entry.outcome g'
  apply_global_override-Marks g' log' has runs =
      let p = Pins-of_result g d spec config group log g' log' has runs in
      (p.entry, p.logged, Effect-Marks p.entry p.entry.outcome g' log' p.effect)
