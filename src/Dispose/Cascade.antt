-- ===== src/Dispose/Cascade.antt =====
-- crates/pangs-dispose/src/lib.rs: the cascade takes the first applicable strategy.
pub mod First
use tenjin_pangs.Base.{
  String, List, [], ◌∷◌, ◌++◌, Result, ok, err, Fault, raised, ◌>>=◌, ◌>>◌, map_err,
}
use tenjin_pangs.Manifest.Strategy.{Strategy, unhandled}
use tenjin_pangs.Manifest.Facts.{Facts, Json}
use tenjin_pangs.Manifest.Records.{CascadeSkip, SkipReason, guard_failed, fact_not_computed}
use tenjin_pangs.Dispose.Config.{CascadeConfig, ConfigError, validate}
use tenjin_pangs.Dispose.Guards.{GuardResult, applicable, failed, not_computed, evaluate}

abbrev pub skip_of : {V : Type 0} → Strategy → SkipReason V → CascadeSkip V
skip_of s reason = record { strategy = s; reason = reason; extra = [] }

module _ {V : Type 0} ⦃json : Json V⦄ where
  -- The loop over the order, with the trace so far.
  pub cascade_from :
      Facts V
      → List (CascadeSkip V)
      → List Strategy
      → Result (Strategy × List (CascadeSkip V)) (Fault ConfigError)
  cascade_from facts trace [] = ok (unhandled, trace)
  cascade_from facts trace (s ∷ rest) = elim (evaluate s facts) [
    | ok applicable ↦ ok (s, trace)
    | ok (failed names) ↦
        cascade_from facts (trace ++ (skip_of s (guard_failed names [])) ∷ []) rest
    | ok (not_computed fact) ↦
        cascade_from facts (trace ++ (skip_of s (fact_not_computed fact [])) ∷ []) rest
    | err e ↦ err e
  ]

  unfoldable pub cascade :
      Facts V → CascadeConfig → Result (Strategy × List (CascadeSkip V)) (Fault ConfigError)
  unfolding cascade_from
  cascade facts config = do map_err raised (validate config); cascade_from facts [] config.order
