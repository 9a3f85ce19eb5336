-- ===== src/Dispose/Cascade/First.antt =====
-- The choice of the cascade in crates/pangs-dispose/src/lib.rs: the first eligible strategy.
use mathlib.Core.List.{append-nil, append_assoc}
use tenjin_pangs.Base.{
  ◌≡◌, ◌≢◌, refl, sym, ◌∙◌, ap, true, false, List, [], ◌∷◌, ◌++◌, map, Result, ok, err, Fault,
  raised, ◌⊎◌, inl, inr, All, All-middle, Result-cases,
}
use tenjin_pangs.Manifest.Strategy.{
  Strategy, immutable, once_lock, atomic, mutex, localize, unhandled, library, application,
  DisposeMode,
}
use tenjin_pangs.Manifest.Facts.{Facts, Json}
use tenjin_pangs.Manifest.Records.{CascadeSkip, guard_failed, fact_not_computed}
use tenjin_pangs.Dispose.Config.{CascadeConfig, ConfigError, validate}
use tenjin_pangs.Dispose.Config.Validity.{IsAdmissible, validate-IsAdmissible}
use tenjin_pangs.Dispose.Guards.{applicable, failed, not_computed, evaluate}
use tenjin_pangs.Dispose.Guards.Eligible.{Eligible, evaluate-Eligible, evaluate_total}
use tenjin_pangs.Dispose.Cascade.{skip_of, cascade_from, cascade}

in_application : (mode : DisposeMode) → (mode ≡ library → localize ≢ localize) → mode ≡ application
in_application application h = refl
in_application library h = absurd (h refl refl)

module _ {V : Type 0} ⦃json : Json V⦄ where
  -- The reason of a skip is the answer of the strategy's guard.
  abbrev pub Explains : Facts V → CascadeSkip V → Type 0
  Explains f k = elim k.reason [
    | guard_failed names _ ↦ evaluate {E = ConfigError} k.strategy f ≡ ok (failed names)
    | fact_not_computed fact _ ↦ evaluate {E = ConfigError} k.strategy f ≡ ok (not_computed fact)
  ]

  -- `s` is the first eligible strategy of the order, or `unhandled` if there is none, and the
  -- trace lists the strategies before it with their reasons.
  pub record IsFirst (f : Facts V) (order : List Strategy) (s : Strategy)
      (trace : List (CascadeSkip V)) : Type 0 where
    pub before : List Strategy
    pub after : List Strategy
    pub split : order ≡ before ++ after
    pub traced : map (λ (k : CascadeSkip V). k.strategy) trace ≡ before
    pub refused : All (λ t. ¬ Eligible t f) before
    pub explained : All (Explains f) trace
    pub stop :
        (after ≡ []) × (s ≡ unhandled)
        ⊎ ((rest : List Strategy) × (after ≡ s ∷ rest) × Eligible s f)

  module _ (f : Facts V) where
    abbrev Outcome : List Strategy → List (CascadeSkip V) → Type 0
    Outcome order trace =
        (s : Strategy) × (more : List (CascadeSkip V)) × (cascade_from f trace order
          ≡ ok (s, trace ++ more))
        × IsFirst f order s more

    IsFirst-skip :
        (k : CascadeSkip V) {order : List Strategy} {s : Strategy} {more : List (CascadeSkip V)}
        → ¬ Eligible k.strategy f
        → Explains f k
        → IsFirst f order s more
        → IsFirst f (k.strategy ∷ order) s (k ∷ more)
    IsFirst-skip k n e first = record {
      before = k.strategy ∷ first.before;
      after = first.after;
      split = ap (λ l. k.strategy ∷ l) first.split;
      traced = ap (λ l. k.strategy ∷ l) first.traced;
      refused = (n, first.refused);
      explained = (e, first.explained);
      stop = first.stop;
    }

    -- One skipped strategy, in front of the rest of the loop.
    skipped :
        (k : CascadeSkip V) (order : List Strategy) (trace : List (CascadeSkip V))
        → ¬ Eligible k.strategy f
        → Explains f k
        → cascade_from f trace (k.strategy ∷ order) ≡ cascade_from f (trace ++ k ∷ []) order
        → Outcome order (trace ++ k ∷ [])
        → Outcome (k.strategy ∷ order) trace
    skipped k order trace n e step (s, more, runs, first) = (
      s,
      k ∷ more,
      step ∙ runs ∙ ap (λ l. ok (s, l)) (append_assoc trace (k ∷ []) more),
      IsFirst-skip k n e first,
    )

    cascade_from_first :
        (order : List Strategy) (trace : List (CascadeSkip V))
        → All (λ s. s ≢ unhandled) order
        → Outcome order trace
    unfolding cascade_from
    cascade_from_first [] trace h = (
      unhandled,
      [],
      ap (λ l. ok (unhandled, l)) (sym (append-nil trace)),
      record {
        before = [];
        after = [];
        split = refl;
        traced = refl;
        refused = tt;
        explained = tt;
        stop = inl (refl, refl);
      },
    )
    cascade_from_first (s ∷ order) trace h =
        let later = λ (t : List (CascadeSkip V)). cascade_from_first order t h.1 in
        let (r, answer, named) = evaluate_total ConfigError s f h.0 in
        elim r as (λ r. evaluate {E = ConfigError} s f ≡ ok r → Outcome (s ∷ order) trace) [
          | applicable ↦ λ e. (
            s,
            [],
            rw (e, cascade_from) (ap (λ l. ok (s, l)) (sym (append-nil trace))),
            record {
              before = [];
              after = s ∷ order;
              split = refl;
              traced = refl;
              refused = tt;
              explained = tt;
              stop = inr (order, refl, (evaluate-Eligible ConfigError s f).0 e);
            },
          )
          | failed names ↦ λ e.
              skipped (skip_of s (guard_failed names [])) order trace
                (λ el. cc ((evaluate-Eligible ConfigError s f).1 el)) e (rw (e, cascade_from))
                (later _)
          | not_computed fact ↦ λ e.
              skipped (skip_of s (fact_not_computed fact [])) order trace
                (λ el. cc ((evaluate-Eligible ConfigError s f).1 el)) e (rw (e, cascade_from))
                (later _)
        ]
          answer

  -- Under an admissible configuration the cascade returns, never panics, and its result is the
  -- first eligible strategy of the order, with every strategy before it skipped for the reason
  -- that its guard gives, or `unhandled` where no strategy of the order is eligible.
  pub cascade_first :
      (f : Facts V) (config : CascadeConfig)
      → IsAdmissible config
      → (s : Strategy) × (trace : List (CascadeSkip V)) × (cascade f config ≡ ok (s, trace))
        × IsFirst f config.order s trace
  unfolding cascade
  cascade_first f config a =
      let valid = (validate-IsAdmissible config).1 a in
      let (s, trace, runs, first) = cascade_from_first f config.order [] a.handled in
      (s, trace, rw (valid, cascade) runs, first)

  -- The cascade refuses every other configuration with an error of its validation.
  pub cascade_refuses :
      (f : Facts V) (config : CascadeConfig)
      → ¬ IsAdmissible config
      → (e : ConfigError) × (validate config ≡ err e) × (cascade f config ≡ err (raised e))
  unfolding cascade
  cascade_refuses f config n = elim (Result-cases (validate config)) [
    | inl (u, e) ↦ absurd (n ((validate-IsAdmissible config).0 e))
    | inr (x, e) ↦ (x, e, rw (e, cascade))
  ]

  -- A result of the cascade comes from an admissible configuration and is the first eligible one.
  pub cascade_inv :
      (f : Facts V) (config : CascadeConfig) (s : Strategy) (trace : List (CascadeSkip V))
      → cascade f config ≡ ok (s, trace)
      → IsAdmissible config × IsFirst f config.order s trace
  unfolding cascade
  cascade_inv f config s trace h = elim (Result-cases (validate config)) [
    | inl (u, e) ↦
        let a = (validate-IsAdmissible config).0 e in
        let (s', trace', runs, first) = cascade_first f config a in
        let same : ◌≡◌ {A = Result (Strategy × List (CascadeSkip V)) (Fault ConfigError)}
            (ok (s', trace')) (ok (s, trace)) =
          sym runs ∙ h in
        let p : s' ≡ s = cc in let q : trace' ≡ trace = cc in (a, rw (p, q) at first)
    | inr (x, e) ↦ cc (rw (e, cascade) at h)
  ]

  -- Where the cascade picks an explicit strategy, that strategy is eligible and of the order.
  pub cascade-Eligible :
      (f : Facts V) (config : CascadeConfig) (s : Strategy) (trace : List (CascadeSkip V))
      → cascade f config ≡ ok (s, trace)
      → s ≢ unhandled
      → Eligible s f × (config.mode ≡ library → s ≢ localize)
  cascade-Eligible f config s trace h n =
      let (a, first) = cascade_inv f config s trace h in
      elim first.stop [
        | inl (_, e) ↦ absurd (n e)
        | inr (rest, e, el) ↦ (
          el,
          λ m.
              All-middle (λ t. t ≢ localize) first.before rest
                (rw (first.split, e) at (a.local_ok m)),
        )
      ]

  -- What a strategy asks of the flags of its global and of the mode.
  abbrev pub Allowed : DisposeMode → Facts V → Strategy → Type 0
  Allowed mode f immutable =
      (f.atomic_declaration.value ≡ false)
      × (f.violation_taint.value ≡ false)
      × (f.written.value ≡ false)
      × (f.omega_escaped_address.value ≡ false)
  Allowed mode f once_lock =
      (f.atomic_declaration.value ≡ false) × (f.violation_taint.value ≡ false)
  Allowed mode f atomic = f.atomic_declaration.value ≡ true
  Allowed mode f mutex = (f.atomic_declaration.value ≡ false) × (f.violation_taint.value ≡ false)
  Allowed mode f localize = (mode ≡ application) × (f.atomic_declaration.value ≡ false)
  Allowed mode f unhandled = Unit

  -- What the cascade chooses respects the flags. Only a declared atomic becomes `atomic`, and it
  -- becomes nothing else but `unhandled`; a tainted global never becomes `immutable`, `once_lock`
  -- or `mutex`; a written or escaped one never becomes `immutable`; a library gets no `localize`.
  pub cascade_safe :
      (f : Facts V) (config : CascadeConfig) (s : Strategy) (trace : List (CascadeSkip V))
      → cascade f config ≡ ok (s, trace)
      → Allowed config.mode f s
  cascade_safe f config immutable trace h =
      let ((c, a, t, w, o, src), m) = cascade-Eligible f config immutable trace h (λ e. cc) in
      (a, t, w, o)
  cascade_safe f config once_lock trace h =
      let ((k, a, t, cert), m) = cascade-Eligible f config once_lock trace h (λ e. cc) in (a, t)
  cascade_safe f config atomic trace h =
      let ((c, a), m) = cascade-Eligible f config atomic trace h (λ e. cc) in a
  cascade_safe f config mutex trace h =
      let ((k, a, t, cert), m) = cascade-Eligible f config mutex trace h (λ e. cc) in (a, t)
  cascade_safe f config localize trace h =
      let ((c, a, exempt, seen, l), m) = cascade-Eligible f config localize trace h (λ e. cc) in
      (in_application config.mode m, a)
  cascade_safe f config unhandled trace h = tt
