-- ===== src/Dispose/Config.antt =====
-- crates/pangs-dispose/src/lib.rs: the configured order of the cascade and its validation.
pub mod Validity
use tenjin_pangs.Base.{
  String, Bool, true, false, ◌&&◌, Option, none, some, List, [], ◌∷◌, ◌==◌, Result, ok, err, ◌>>=◌,
  if◌then◌else◌, contains, ◌>>◌,
}
use tenjin_pangs.Manifest.Key.{Error}
use tenjin_pangs.Manifest.Strategy.{
  Strategy, unhandled, localize, as_str, default_application, default_library, DisposeMode,
  application, library, strategy_eq, mode_eq,
}

pub data ConfigError : Type 0 where
  duplicate : String → ConfigError
  explicit_unhandled localize_in_library : ConfigError

-- `enum DisposeError`, less the two constructors that wrap errors of the file system and of serde.
pub data DisposeError : Type 0 where
  config_error : ConfigError → DisposeError
  manifest_error : Error → DisposeError
  missing_ledger : String → DisposeError
  invalid_overrides : String → DisposeError
  override_problems : DisposeError

pub record CascadeConfig : Type 0 where
  pub mode : DisposeMode
  pub order : List Strategy

-- `CascadeConfig::default_for`.
unfoldable pub default_for : DisposeMode → CascadeConfig
default_for application = record { mode = application; order = default_application }
default_for library = record { mode = library; order = default_library }

-- The loop of `CascadeConfig::validate`, with the strategies seen so far.
pub validate_order : DisposeMode → List Strategy → List Strategy → Result (Unit {0}) ConfigError
validate_order mode seen [] = ok tt
validate_order mode seen (s ∷ rest) =
    let next = validate_order mode (s ∷ seen) rest in
    if s == unhandled
    then err explicit_unhandled
    else if contains seen s
    then err (duplicate (as_str s))
    else if mode == library && s == localize
    then err localize_in_library
    else next

unfoldable pub validate : CascadeConfig → Result (Unit {0}) ConfigError
unfolding validate_order
validate config = validate_order config.mode [] config.order

pub record OverrideSpec : Type 0 where
  pub disposition : Strategy
  pub accept_risk : Bool
  pub reason : Option String

-- `Overrides`: the two maps by their entries, and the order of a `CascadeOverride`.
pub record Overrides : Type 0 where
  pub globals : List (String × OverrideSpec)
  pub groups : List (String × OverrideSpec)
  pub cascade : Option (List Strategy)

unfoldable pub config_with_overrides :
    DisposeMode → Option Overrides → Result CascadeConfig ConfigError
unfolding default_for validate
config_with_overrides mode overrides = do
  let base = default_for mode
  let order : Option (List Strategy) = elim overrides [ none ↦ none | some o ↦ o.cascade ]
  let config : CascadeConfig = elim order [
    | none ↦ base
    | some chosen ↦ record base { order = chosen }
  ]
  validate config
  ok config
