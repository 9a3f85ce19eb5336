-- ===== src/Manifest/Document.antt =====
-- crates/pangs-manifest/src/lib.rs: the manifest itself, its context rewrite and its report.
use tenjin_pangs.Base.{ℕ, String, Bool, Option, List}
use tenjin_pangs.Manifest.Strategy.{Strategy, DisposeMode}
use tenjin_pangs.Manifest.Key.{Key}
use tenjin_pangs.Manifest.Facts.{Extra, Site, Witness}
use tenjin_pangs.Manifest.Records.{
  GlobalRecord, CouplingGroup, EvidenceEdge, OverrideReportEntry, OverrideCounts,
}

pub record SyntheticGlobal (V : Type 0) : Type 0 where
  pub llvm_name : String
  pub kind : String
  pub owner : Option Key
  pub witness : Witness V
  pub extra : Extra V

pub record UnkeyedGlobal (V : Type 0) : Type 0 where
  pub llvm_name : String
  pub witness : Witness V
  pub extra : Extra V

pub record CouplingCandidate (V : Type 0) : Type 0 where
  pub id : String
  pub members : List Key
  pub evidence : List (EvidenceEdge V)
  pub extra : Extra V

pub record AnalysisRun (V : Type 0) : Type 0 where
  pub pangs_git : String
  pub llvm_version : String
  pub input_path : String
  pub input_sha256 : String
  pub opts : V
  pub repo_root : String
  pub target_triple : String
  pub data_layout : String
  pub supported_atomic_widths : List ℕ
  pub entry_spine : Option V
  pub extra : Extra V

pub record DisposeRun (V : Type 0) : Type 0 where
  pub mode : DisposeMode
  pub cascade : List Strategy
  pub overrides_file : Option String
  pub overrides_sha256 : Option String
  pub extra : Extra V

pub record RunHeader (V : Type 0) : Type 0 where
  pub analysis : AnalysisRun V
  pub dispose : Option (DisposeRun V)
  pub extra : Extra V

pub record OverrideReport (V : Type 0) : Type 0 where
  pub entries : List (OverrideReportEntry V)
  pub counts : OverrideCounts V
  pub extra : Extra V

pub record ToolInfo (V : Type 0) : Type 0 where
  pub name : String
  pub version : String
  pub extra : Extra V

pub record MarkerInventoryEntry (V : Type 0) : Type 0 where
  pub key : Key
  pub kind : String
  pub marker : String
  pub group : Option String
  pub insertion : Site V
  pub extra : Extra V

pub record MaterializationDemotion (V : Type 0) : Type 0 where
  pub key : Key
  pub from : Strategy
  pub witness : Witness V
  pub extra : Extra V

pub record Materialization (V : Type 0) : Type 0 where
  pub tool : ToolInfo V
  pub marker_inventory : List (MarkerInventoryEntry V)
  pub demotions : List (MaterializationDemotion V)
  pub extra : Extra V

pub record ContextRewriteCallsite (V : Type 0) : Type 0 where
  pub key : String
  pub caller : String
  pub callees : List String
  pub unresolved : Bool
  pub site : Option (Site V)
  pub extra : Extra V

pub record ContextRewriteBlocker (V : Type 0) : Type 0 where
  pub kind : String
  pub function : Option String
  pub callsite : Option String
  pub initializer : Option String
  pub extra : Extra V

pub record ContextRewriteField (V : Type 0) : Type 0 where
  pub global : Key
  pub llvm_name : String
  pub accessors : List String
  pub functions : List String
  pub rewrite_callsites : List (ContextRewriteCallsite V)
  pub blockers : List (ContextRewriteBlocker V)
  pub extra : Extra V

pub record SelectedContextRewrite (V : Type 0) : Type 0 where
  pub fields : List (ContextRewriteField V)
  pub accessors : List String
  pub functions : List String
  pub rewrite_callsites : List (ContextRewriteCallsite V)
  pub extra : Extra V

pub record ContextRewritePlan (V : Type 0) : Type 0 where
  pub id : String
  pub fields : List (ContextRewriteField V)
  pub selected : Option (SelectedContextRewrite V)
  pub extra : Extra V

pub record Manifest (V : Type 0) : Type 0 where
  pub schema_version : ℕ
  pub run : RunHeader V
  pub globals : List (GlobalRecord V)
  pub synthetic_globals : List (SyntheticGlobal V)
  pub unkeyed_globals : List (UnkeyedGlobal V)
  pub coupling_groups : List (CouplingGroup V)
  pub context_rewrite : ContextRewritePlan V
  pub coupling_candidates : List (CouplingCandidate V)
  pub override_report : Option (OverrideReport V)
  pub materialization : Option (Materialization V)
  pub extra : Extra V
