-- ===== src/Dispose/Policy/History.antt =====
-- What the overrides of crates/pangs-dispose/src/lib.rs keep of the cascade.
use tenjin_pangs.Base.{
  ℕ, String, ◌≡◌, refl, ◌∙◌, ap, false, Option, none, some, List, [], ◌∷◌, ◌+◌, ◌==◌, ok, All,
  arith, Bool-cases, Option-cases, Result-cases, inl, inr, is_some, is_err, length, length-append,
}
use tenjin_pangs.Manifest.Strategy.{Strategy}
use tenjin_pangs.Manifest.Key.{Key, key_eq, parse}
use tenjin_pangs.Manifest.Facts.{Json}
use tenjin_pangs.Manifest.Records.{GlobalRecord, Disposition, CouplingGroup}
use tenjin_pangs.Dispose.Config.{CascadeConfig, OverrideSpec, Overrides}
use tenjin_pangs.Dispose.Overrides.{Log}
use tenjin_pangs.Dispose.Overrides.Pin.{apply_global_override_pins}
use tenjin_pangs.Dispose.Overrides.Honored.{Keeps, apply_global_override_history}
use tenjin_pangs.Dispose.Groups.Agreement.{SameGroups, resolve_groups_resolves}
use tenjin_pangs.Dispose.Groups.Members.{
  SameHistory, SameHistory-refl, SameHistories, SameHistories-refl, SameHistories-trans, IsFinal,
}
use tenjin_pangs.Dispose.Policy.{
  global_group_disposition, no_overrides, push_order, pin_at, pin_globals, apply_overrides,
}

-- Every override of a global names a key of the right form.
abbrev pub KeysParse : List (String × OverrideSpec) → Type 0
KeysParse = All (λ o. is_err (parse o.0) ≡ false)

abbrev pub PinsParse : Option Overrides → Type 0
PinsParse none = Unit
PinsParse (some o) = KeysParse o.globals

module _ {V : Type 0} where
  -- The globals and the log after some pins: nothing of the cascade is lost, and each pin has one
  -- more entry.
  record Pinned (count : ℕ) (gs gs' : List (GlobalRecord V)) (log log' : Log V) : Type 0 where
    same : SameHistories gs gs'
    final : All IsFinal gs'
    counted : length log'.entries ≡ length log.entries + count

module _ {V : Type 0} ⦃json : Json V⦄ (config : CascadeConfig) where
  history_of_Keeps :
      {g g' : GlobalRecord V} (d : Disposition V) (spec : OverrideSpec) (group : Option Strategy)
      (log : Log V)
      → g.disposition ≡ some d
      → Keeps g d spec config group log g'
      → SameHistory g g' × IsFinal g'
  history_of_Keeps d spec group log has (d', has', key, facts, chosen, trace, _) = (
    record {
      key = key;
      facts = facts;
      history = λ d₀ e.
          let p : d ≡ d₀ = cc in
          (d', has', chosen ∙ ap (λ x. x.cascade_chosen) p, trace ∙ ap (λ x. x.cascade_trace) p);
    },
    ap is_some has',
  )

  pin_at-Pinned :
      (raw : String) (spec : OverrideSpec) (key : Key) (group : Option Strategy)
      (gs : List (GlobalRecord V)) (log : Log V)
      → All IsFinal gs
      → (gs' : List (GlobalRecord V)) × (log' : Log V) × (pin_at config raw spec key group gs log
          ≡ ok (gs', log'))
        × Pinned 1 gs gs' log log'
  unfolding pin_at
  pin_at-Pinned raw spec key group [] log h =
      ([], _, refl, record { same = tt; final = tt; counted = length-append log.entries _ })
  pin_at-Pinned raw spec key group (g ∷ gs) log (f, fs) = elim (Bool-cases (g.key == key)) [
    | inl hit ↦ elim (Option-cases g.disposition) [
      | inl missing ↦ absurd (ground arith)
      | inr (d, has) ↦
          let (g', log', runs, pins) = apply_global_override_pins g d spec config group log has in
          let (one, final) =
            history_of_Keeps d spec group log has
              (apply_global_override_history g d spec config group log g' log' has runs) in
          (
            g' ∷ gs,
            log',
            rw (hit, runs, pin_at),
            record {
              same = (one, SameHistories-refl gs);
              final = (final, fs);
              counted = ap length pins.logged ∙ length-append log.entries (pins.entry ∷ []);
            },
          )
    ]
    | inr miss ↦
        let (gs', log', runs, p) = pin_at-Pinned raw spec key group gs log fs in
        (
          g ∷ gs',
          log',
          rw (miss, runs, pin_at),
          record { same = (SameHistory-refl g, p.same); final = (f, p.final); counted = p.counted },
        )
  ]

  -- With keys of the right form and a disposition on every global, the pins return and never
  -- panic: each override has one entry of the report, whether its key matches or not, and the
  -- globals keep their keys, their facts and the history of the cascade.
  pub pin_globals_pinned :
      (groups : List (CouplingGroup V)) (os : List (String × OverrideSpec))
      (gs : List (GlobalRecord V)) (log : Log V)
      → All IsFinal gs
      → KeysParse os
      → (gs' : List (GlobalRecord V)) × (log' : Log V) × (pin_globals config groups os gs log
          ≡ ok (gs', log'))
        × SameHistories gs gs'
        × All IsFinal gs'
        × (length log'.entries ≡ length log.entries + length os)
  unfolding pin_globals
  pin_globals_pinned groups [] gs log h k = (gs, log, refl, SameHistories-refl gs, h, omega arith)
  pin_globals_pinned groups ((raw, spec) ∷ os) gs log h (k, ks) = elim (Result-cases (parse raw)) [
    | inl (key, e) ↦
        let (gs₁, log₁, runs₁, p) =
          pin_at-Pinned raw spec key (global_group_disposition groups key) gs log h in
        let (gs₂, log₂, runs₂, same, final, counted) =
          pin_globals_pinned groups os gs₁ log₁ p.final ks in
        (
          gs₂,
          log₂,
          rw (e, runs₁, pin_globals) runs₂,
          SameHistories-trans gs gs₁ gs₂ p.same same,
          final,
          omega (arith, counted, p.counted),
        )
    | inr (x, e) ↦ absurd (ground arith)
  ]

  -- The overrides of `apply_policy` never panic: with keys of the right form and a disposition on
  -- every global they return. No override, of a global or of a group, changes what the cascade
  -- chose and why, the facts of a global, or the members and the analysis of a group.
  pub apply_overrides_history :
      (overrides : Option Overrides) (groups : List (CouplingGroup V)) (gs : List (GlobalRecord V))
      (log : Log V)
      → All IsFinal gs
      → PinsParse overrides
      → (groups' : List (CouplingGroup V)) × (gs' : List (GlobalRecord V)) × (log' : Log V)
        × (apply_overrides config overrides groups gs log ≡ ok (groups', gs', log'))
        × SameGroups groups groups'
        × SameHistories gs gs'
        × All IsFinal gs'
  unfolding apply_overrides
  apply_overrides_history none groups gs log h k =
      let (groups', gs', log', runs, r) =
        resolve_groups_resolves no_overrides config groups gs log h in
      (groups', gs', log', runs, r.groups_same, r.same, r.final)
  apply_overrides_history (some o) groups gs log h k =
      let (groups', gs₁, log₁, runs₁, r) = resolve_groups_resolves o config groups gs log h in
      let (gs₂, log₂, runs₂, same, final, _) =
        pin_globals_pinned groups' o.globals gs₁ log₁ r.final k in
      (
        groups',
        gs₂,
        push_order o.cascade log₂,
        rw (runs₁, runs₂, apply_overrides),
        r.groups_same,
        SameHistories-trans gs gs₁ gs₂ r.same same,
        final,
      )
