-- ===== src/Manifest/Strategy.antt =====
-- crates/pangs-manifest/src/lib.rs: strategies, modes and the relevance of violations.
use tenjin_pangs.Base.{String, ◌≡◌, ◌↔◌, Bool, true, false, List, [], ◌∷◌, Eq, arith}

-- `enum Strategy`, in the order of its declaration.
pub data Strategy : Type 0 where
  immutable once_lock atomic mutex localize unhandled : Strategy

-- The derived `PartialEq`.
abbrev pub strategy_beq : Strategy → Strategy → Bool
strategy_beq immutable immutable = true
strategy_beq once_lock once_lock = true
strategy_beq atomic atomic = true
strategy_beq mutex mutex = true
strategy_beq localize localize = true
strategy_beq unhandled unhandled = true
strategy_beq _ _ = false

pub strategy_beq_iff : (a b : Strategy) → (strategy_beq a b ≡ true) ↔ (a ≡ b)
strategy_beq_iff a b = ground arith

instance abbrev pub strategy_eq : Eq Strategy
strategy_eq = record { beq = strategy_beq; beq_iff = strategy_beq_iff }

pub strategy_discrete : Discrete Strategy
strategy_discrete = hlevel

unfoldable pub as_str : Strategy → String
as_str immutable = "immutable"
as_str once_lock = "once-lock"
as_str atomic = "atomic"
as_str mutex = "mutex"
as_str localize = "localize"
as_str unhandled = "unhandled"

abbrev pub default_application : List Strategy
default_application = immutable ∷ atomic ∷ localize ∷ []

abbrev pub default_library : List Strategy
default_library = immutable ∷ atomic ∷ []

pub data DisposeMode : Type 0 where
  application library : DisposeMode

abbrev pub mode_beq : DisposeMode → DisposeMode → Bool
mode_beq application application = true
mode_beq library library = true
mode_beq _ _ = false

pub mode_beq_iff : (a b : DisposeMode) → (mode_beq a b ≡ true) ↔ (a ≡ b)
mode_beq_iff a b = ground arith

instance abbrev pub mode_eq : Eq DisposeMode
mode_eq = record { beq = mode_beq; beq_iff = mode_beq_iff }

pub data ViolationRelevance : Type 0 where
  address_relevant access_shape_relevant value_only unrelated unresolved : ViolationRelevance

abbrev pub is_hard : ViolationRelevance → Bool
is_hard address_relevant = true
is_hard access_shape_relevant = true
is_hard unresolved = true
is_hard _ = false
