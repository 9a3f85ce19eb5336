-- ===== src/Manifest/Records.antt =====
-- crates/pangs-manifest/src/lib.rs: globals, their dispositions, coupling groups and the report.
use tenjin_pangs.Base.{ℕ, String, Bool, true, false, Option, List}
use tenjin_pangs.Manifest.Strategy.{Strategy}
use tenjin_pangs.Manifest.Key.{Key}
use tenjin_pangs.Manifest.Facts.{Extra, Site, Witness, Certificate, Facts}

pub data Linkage : Type 0 where
  internal external : Linkage

pub record Meta (V : Type 0) : Type 0 where
  pub linkage : Linkage
  pub type_spelling : Option String
  pub size_bits : Option ℕ
  pub align_bits : Option ℕ
  pub llvm_name : String
  pub file : Option String
  pub line : Option ℕ
  pub extra : Extra V

pub data SkipReason (V : Type 0) : Type 0 where
  guard_failed : (failed : List String) (extra : Extra V) → SkipReason V
  fact_not_computed : (fact : String) (extra : Extra V) → SkipReason V

pub record CascadeSkip (V : Type 0) : Type 0 where
  pub strategy : Strategy
  pub reason : SkipReason V
  pub extra : Extra V

pub data DispositionProvenance : Type 0 where
  cascade override override_accepted_risk group_constraint demoted : DispositionProvenance

pub record OverrideEcho (V : Type 0) : Type 0 where
  pub disposition : Strategy
  pub accept_risk : Bool
  pub reason : Option String
  pub extra : Extra V

pub record Demotion (V : Type 0) : Type 0 where
  pub from : Strategy
  pub witness : Witness V
  pub extra : Extra V

pub record Disposition (V : Type 0) : Type 0 where
  pub chosen : Strategy
  pub cascade_chosen : Strategy
  pub provenance : DispositionProvenance
  pub cascade_trace : List (CascadeSkip V)
  pub override : Option (OverrideEcho V)
  pub demotion : Option (Demotion V)
  pub extra : Extra V

pub record StorageMember (V : Type 0) : Type 0 where
  pub llvm_name : String
  pub kind : String
  pub extra : Extra V

pub record GlobalRecord (V : Type 0) : Type 0 where
  pub key : Key
  pub meta : Meta V
  pub storage_members : List (StorageMember V)
  pub facts : Facts V
  pub disposition : Option (Disposition V)
  pub extra : Extra V

pub data EvidenceKind : Type 0 where
  co_write oncelock_interval : EvidenceKind

pub data EvidenceStrength : Type 0 where
  hard suspected : EvidenceStrength

pub record EvidenceEdge (V : Type 0) : Type 0 where
  pub kind : EvidenceKind
  pub strength : EvidenceStrength
  pub members : List Key
  pub sites : List (Site V)
  pub extra : Extra V

pub record CommonInterval (V : Type 0) : Type 0 where
  pub earliest : Site V
  pub latest : Site V
  pub extra : Extra V

-- The field `supported` has one value in each case, and is left to the constructor.
pub data OnceLockGroupSupport (V : Type 0) : Type 0 where
  supported :
      (publication_function : Key) (common_interval : CommonInterval V) (common_p : Site V)
      (extra : Extra V)
      → OnceLockGroupSupport V
  unsupported : (witness : Witness V) (extra : Extra V) → OnceLockGroupSupport V

pub record GroupStrategySupport (V : Type 0) : Type 0 where
  pub once_lock : Option (OnceLockGroupSupport V)
  pub mutex : Option (Certificate V)
  pub extra : Extra V

pub data GroupProvenance : Type 0 where
  cascade override override_accepted_risk : GroupProvenance

pub record CouplingGroup (V : Type 0) : Type 0 where
  pub id : String
  pub members : List Key
  pub evidence : List (EvidenceEdge V)
  pub strategy_support : GroupStrategySupport V
  pub group_disposition : Option Strategy
  pub group_provenance : Option GroupProvenance
  pub override : Option (OverrideEcho V)
  pub extra : Extra V

pub record GuardFailure (V : Type 0) : Type 0 where
  pub member : Key
  pub guard : String
  pub witness : Witness V
  pub extra : Extra V

pub data OverrideOutcome : Type 0 where
  honored honored_accepted_risk rejected rejected_strategy_disabled rejected_strategy_unavailable
        rejected_no_recipe unmatched_key :
      OverrideOutcome

pub data OverrideRequested : Type 0 where
  strategy : Strategy → OverrideRequested
  order : List Strategy → OverrideRequested

pub data OverrideScope : Type 0 where
  global group cascade : OverrideScope

pub record OverrideReportEntry (V : Type 0) : Type 0 where
  pub scope : OverrideScope
  pub key : Option String
  pub requested : OverrideRequested
  pub accept_risk : Bool
  pub outcome : OverrideOutcome
  pub reason : Option String
  pub witness : Option (Witness V)
  pub failures : Option (List (GuardFailure V))
  pub extra : Extra V

-- The counters are `u64`; each is at most the number of entries.
pub record OverrideCounts (V : Type 0) : Type 0 where
  pub honored : ℕ
  pub honored_accepted_risk : ℕ
  pub rejected : ℕ
  pub rejected_strategy_disabled : ℕ
  pub rejected_strategy_unavailable : ℕ
  pub rejected_no_recipe : ℕ
  pub unmatched_key : ℕ
  pub extra : Extra V

pub data AuditScope (V : Type 0) : Type 0 where
  run : (extra : Extra V) → AuditScope V
  global : (key : Key) (extra : Extra V) → AuditScope V
  group : (key : String) (extra : Extra V) → AuditScope V

pub data AuditSource : Type 0 where
  analysis override entry_spine : AuditSource

abbrev pub from_override : AuditSource → Bool
from_override override = true
from_override analysis = false
from_override entry_spine = false

pub record AuditRecord (V : Type 0) : Type 0 where
  pub id : String
  pub kind : String
  pub scope : AuditScope V
  pub source : AuditSource
  pub text : String
  pub witness : Option (Witness V)
  pub failures : Option (List (GuardFailure V))
  pub extra : Extra V
