-- ===== src/Dispose/Config/Validity.antt =====
-- What a validated order of the cascade guarantees.
use tenjin_pangs.Base.{
  ◌≡◌, ◌≢◌, ◌↔◌, refl, false, List, [], ◌∷◌, ok, All, All-imp, All-imp₂, ◌>>=◌, Option-cases, ap,
  sym, >>=-eq-ok, Option, none, some, contains, arith, beq_refl, beq_ne, Bool-cases, inl, inr,
}
use tenjin_pangs.Manifest.Strategy.{
  Strategy, unhandled, localize, DisposeMode, application, library, strategy_eq,
}
use tenjin_pangs.Dispose.Config.{
  CascadeConfig, config_with_overrides, Overrides, default_for, validate_order, validate,
}

-- No strategy of the list stands twice in it.
abbrev pub Distinct : List Strategy → Type 0
Distinct [] = Unit
Distinct (s ∷ rest) = All (λ t. t ≢ s) rest × Distinct rest

-- An order that names only explicit strategies, each once, and no localization in a library.
pub record IsAdmissible (config : CascadeConfig) : Type 0 where
  pub handled : All (λ s. s ≢ unhandled) config.order
  pub distinct : Distinct config.order
  pub local_ok : config.mode ≡ library → All (λ s. s ≢ localize) config.order

All-premise {ℓ} :
    (P : Type ℓ) (order : List Strategy)
    → (P → All (λ s. s ≢ localize) order)
    → All (λ s. P → s ≢ localize) order
All-premise P [] h = tt
All-premise P (s ∷ rest) h = (λ p. (h p).0, All-premise P rest (λ p. (h p).1))

module _ (mode : DisposeMode) where
  -- What the loop asks of one strategy behind those that it has seen.
  abbrev Passes : List Strategy → Strategy → Type 0
  Passes seen s = (s ≢ unhandled) × (contains seen s ≡ false) × (mode ≡ library → s ≢ localize)

  validate_order-step :
      (seen : List Strategy) (s : Strategy) (rest : List Strategy)
      → validate_order mode seen (s ∷ rest) ≡ ok tt
      → Passes seen s × (validate_order mode (s ∷ seen) rest ≡ ok tt)
  unfolding validate_order
  validate_order-step seen s rest h = (
    (
      λ e. ground (arith, beq_refl s),
      elim (Bool-cases (contains seen s)) [ inl t ↦ ground arith | inr f ↦ f ],
      λ e e'. ground arith,
    ),
    ground arith,
  )

  validate_order-intro :
      (seen : List Strategy) (s : Strategy) (rest : List Strategy)
      → Passes seen s
      → validate_order mode (s ∷ seen) rest ≡ ok tt
      → validate_order mode seen (s ∷ rest) ≡ ok tt
  unfolding validate_order
  validate_order-intro seen s rest h next = ground arith

  -- The invariant of the loop: the rest is admissible, and avoids what was seen.
  validate_order_sound :
      (seen order : List Strategy)
      → validate_order mode seen order ≡ ok tt
      → All (Passes seen) order × Distinct order
  unfolding validate_order
  validate_order_sound seen [] h = (tt, tt)
  validate_order_sound seen (s ∷ rest) h =
      let (passes, next) = validate_order-step seen s rest h in
      let (later, distinct) = validate_order_sound (s ∷ seen) rest next in
      (
        (passes, All-imp (λ t p. (p.0, ground arith, p.2)) rest later),
        (All-imp (λ t p e. ground (arith, beq_refl t)) rest later, distinct),
      )

  validate_order_complete :
      (seen order : List Strategy)
      → All (Passes seen) order
      → Distinct order
      → validate_order mode seen order ≡ ok tt
  unfolding validate_order
  validate_order_complete seen [] h d = refl
  validate_order_complete seen (s ∷ rest) h d = validate_order-intro seen s rest h.0 (
      validate_order_complete (s ∷ seen) rest
        (All-imp₂ (λ t p n. (p.0, rw (beq_ne t s n) p.1, p.2)) rest h.1 d.0) d.1)

-- `validate` accepts a configuration exactly when its order is admissible.
pub validate-IsAdmissible :
    (config : CascadeConfig) → (validate config ≡ ok tt) ↔ IsAdmissible config
unfolding validate
validate-IsAdmissible config = (
  λ h.
      let (passes, distinct) = validate_order_sound config.mode [] config.order h in
      record {
        handled = All-imp (λ s p. p.0) config.order passes;
        distinct = distinct;
        local_ok = λ e. All-imp (λ s p. p.2 e) config.order passes;
      },
  λ a.
      validate_order_complete config.mode [] config.order
        (All-imp₂ (λ s n l. (n, refl, l)) config.order a.handled
          (All-premise (config.mode ≡ library) config.order a.local_ok))
        a.distinct,
)

pub validate-default_for : (mode : DisposeMode) → validate (default_for mode) ≡ ok tt
unfolding validate default_for
validate-default_for application = refl
validate-default_for library = refl

-- The order that the overrides ask for, or the default one of the mode.
abbrev pub requested : DisposeMode → Option Overrides → List Strategy
requested mode none = (default_for mode).order
requested mode (some o) = elim o.cascade [ none ↦ (default_for mode).order | some order ↦ order ]

returned :
    (mode : DisposeMode) (order : List Strategy) (config : CascadeConfig)
    → let asked : CascadeConfig = record { mode = mode; order = order } in
      (validate asked >>= λ _. ok asked) ≡ ok config
      → IsAdmissible config × (config.mode ≡ mode) × (config.order ≡ order)
returned mode order config h =
    let asked : CascadeConfig = record { mode = mode; order = order } in
    let (u, valid, same) = >>=-eq-ok (validate asked) (λ _. ok asked) h in
    let e : asked ≡ config = cc in
    (
      rw e at ((validate-IsAdmissible asked).0 valid),
      ap (λ c. c.mode) (sym e),
      ap (λ c. c.order) (sym e),
    )

-- A configuration that is returned has the mode given, the order requested, and is admissible.
pub config_with_overrides-IsAdmissible :
    (mode : DisposeMode) (overrides : Option Overrides) (config : CascadeConfig)
    → config_with_overrides mode overrides ≡ ok config
    → IsAdmissible config × (config.mode ≡ mode) × (config.order ≡ requested mode overrides)
unfolding config_with_overrides default_for
config_with_overrides-IsAdmissible application none config h = returned application _ config h
config_with_overrides-IsAdmissible library none config h = returned library _ config h
config_with_overrides-IsAdmissible application (some o) config h = elim (Option-cases o.cascade) [
  | inl e ↦ rw e (returned application _ config (rw (e, config_with_overrides) at h))
  | inr (order, e) ↦ rw e (returned application _ config (rw (e, config_with_overrides) at h))
]
config_with_overrides-IsAdmissible library (some o) config h = elim (Option-cases o.cascade) [
  | inl e ↦ rw e (returned library _ config (rw (e, config_with_overrides) at h))
  | inr (order, e) ↦ rw e (returned library _ config (rw (e, config_with_overrides) at h))
]
