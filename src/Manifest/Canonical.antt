-- ===== src/Manifest/Canonical.antt =====
-- crates/pangs-manifest/src/lib.rs: the canonical order of a manifest's lists.
use Prim.Native.String.{compare, ◌++◌ as concat}
use Prim.Native.Nat.{compare as nat_compare}
use tenjin_pangs.Base.{
  ℕ, String, Bool, true, false, ◌&&◌, Option, none, some, List, [], ◌∷◌, map, ◌==◌, string_eq,
  option_eq, Ordering, then_with, option_cmp, list_cmp, sort_by, dedup_by, if◌then◌else◌, lookup,
}
use tenjin_pangs.Manifest.Strategy.{
  Strategy, immutable, once_lock, atomic, mutex, localize, unhandled,
}
use tenjin_pangs.Manifest.Key.{key_cmp}
use tenjin_pangs.Manifest.Facts.{Site, Witness, Facts, Certificate, Json}
use tenjin_pangs.Manifest.Records.{
  GlobalRecord, CouplingGroup, EvidenceEdge, EvidenceKind, co_write, oncelock_interval,
  GuardFailure, OverrideReportEntry, OverrideScope, OverrideRequested,
}
use tenjin_pangs.Manifest.Document.{
  Manifest, ContextRewritePlan, ContextRewriteField, ContextRewriteCallsite, ContextRewriteBlocker,
  CouplingCandidate,
}

abbrev pub str_cmp : Option String → Option String → Ordering
str_cmp = option_cmp compare

-- The texts that the derived `Debug` prints.
abbrev pub kind_debug : EvidenceKind → String
kind_debug co_write = "CoWrite"
kind_debug oncelock_interval = "OncelockInterval"

abbrev pub strategy_debug : Strategy → String
strategy_debug immutable = "Immutable"
strategy_debug once_lock = "OnceLock"
strategy_debug atomic = "Atomic"
strategy_debug mutex = "Mutex"
strategy_debug localize = "Localize"
strategy_debug unhandled = "Unhandled"

abbrev pub scope_debug : OverrideScope → String
scope_debug OverrideScope.global = "Global"
scope_debug OverrideScope.group = "Group"
scope_debug OverrideScope.cascade = "Cascade"

abbrev list_debug : List Strategy → String
list_debug [] = ""
list_debug (s ∷ []) = strategy_debug s
list_debug (s ∷ (t ∷ rest)) = concat (strategy_debug s) (concat ", " (list_debug (t ∷ rest)))

abbrev pub requested_debug : OverrideRequested → String
requested_debug (OverrideRequested.strategy s) = concat "Strategy(" (concat (strategy_debug s) ")")
requested_debug (OverrideRequested.order ss) = concat "Order([" (concat (list_debug ss) "])")

module _ {V : Type 0} where
  abbrev pub site_cmp : Site V → Site V → Ordering
  site_cmp a b = then_with (compare a.file b.file) (
      then_with (nat_compare a.line b.line)
        (then_with (option_cmp nat_compare a.col b.col) (str_cmp a.function b.function)))

  abbrev site_file : Option (Site V) → Option String
  site_file none = none
  site_file (some s) = some s.file

  abbrev site_line : Option (Site V) → Option ℕ
  site_line none = none
  site_line (some s) = some s.line

  abbrev site_col : Option (Site V) → Option ℕ
  site_col none = none
  site_col (some s) = s.col

  unfoldable pub witness_cmp : Witness V → Witness V → Ordering
  witness_cmp a b = then_with (compare a.kind b.kind) (
      then_with (str_cmp (site_file a.site) (site_file b.site)) (
        then_with (option_cmp nat_compare (site_line a.site) (site_line b.site)) (
          then_with (option_cmp nat_compare (site_col a.site) (site_col b.site))
            (then_with (str_cmp a.symbol b.symbol) (str_cmp a.note b.note)))))

  unfoldable pub guard_failure_cmp : GuardFailure V → GuardFailure V → Ordering
  guard_failure_cmp a b =
      then_with (key_cmp a.member b.member)
        (then_with (compare a.guard b.guard) (witness_cmp a.witness b.witness))

  -- Whether each pair of neighbours is in order.
  pub in_order : List (GuardFailure V) → Bool
  in_order [] = true
  in_order (a ∷ []) = true
  in_order (a ∷ (b ∷ rest)) =
      elim (guard_failure_cmp a b) [ Ordering.gt ↦ false | _ ↦ true ] && in_order (b ∷ rest)

  -- `SharedGuardFailures::canonicalize`.
  unfoldable pub canonicalize_failures : List (GuardFailure V) → List (GuardFailure V)
  unfolding in_order
  canonicalize_failures fs = if in_order fs then fs else sort_by guard_failure_cmp fs

  abbrev pub canonicalize_certificate : Option (Certificate V) → Option (Certificate V)
  canonicalize_certificate none = none
  canonicalize_certificate (some (Certificate.certified c x)) = some (Certificate.certified c x)
  canonicalize_certificate (some (Certificate.failed codes witnesses r d x)) =
      some (Certificate.failed (sort_by compare codes) (sort_by witness_cmp witnesses) r d x)

  unfoldable pub canonicalize_facts : Facts V → Facts V
  canonicalize_facts f = record f {
    phase_stationarity = canonicalize_certificate f.phase_stationarity;
    mutex_eligibility = canonicalize_certificate f.mutex_eligibility;
    localization = elim f.localization [
      | none ↦ none
      | some l ↦ some (record l {
        blocker_samples =
            sort_by (λ a b. then_with (witness_cmp a.witness b.witness) (compare a.code b.code))
              l.blocker_samples;
      })
    ];
  }

  unfoldable pub canonicalize_global : GlobalRecord V → GlobalRecord V
  canonicalize_global g = record g {
    storage_members = sort_by (λ a b. compare a.llvm_name b.llvm_name) g.storage_members;
    facts = canonicalize_facts g.facts;
  }

  unfoldable pub canonicalize_evidence : List (EvidenceEdge V) → List (EvidenceEdge V)
  canonicalize_evidence es =
      sort_by
        (λ a b.
          then_with (compare (kind_debug a.kind) (kind_debug b.kind))
            (list_cmp key_cmp a.members b.members))
        (map {A = EvidenceEdge V}
          (λ e. record e { members = sort_by key_cmp e.members; sites = sort_by site_cmp e.sites })
          es)

  unfoldable pub canonicalize_group : CouplingGroup V → CouplingGroup V
  canonicalize_group g = record g {
    members = sort_by key_cmp g.members;
    evidence = canonicalize_evidence g.evidence;
  }

  unfoldable pub canonicalize_context_callsites :
      List (ContextRewriteCallsite V) → List (ContextRewriteCallsite V)
  canonicalize_context_callsites cs =
      dedup_by (λ a b. a.key == b.key)
        (sort_by (λ a b. compare a.key b.key)
          (map {A = ContextRewriteCallsite V}
            (λ c. record c { callees = dedup_by (λ a b. a == b) (sort_by compare c.callees) }) cs))

  -- The comparison of report entries, in the policy and in `canonicalize`.
  abbrev pub entry_cmp : OverrideReportEntry V → OverrideReportEntry V → Ordering
  entry_cmp a b = then_with (compare (scope_debug a.scope) (scope_debug b.scope)) (
      then_with (str_cmp a.key b.key)
        (compare (requested_debug a.requested) (requested_debug b.requested)))

  abbrev pub canonicalize_entry : OverrideReportEntry V → OverrideReportEntry V
  canonicalize_entry e = record e {
    failures = elim e.failures [ none ↦ none | some fs ↦ some (canonicalize_failures fs) ];
  }

module _ {V : Type 0} ⦃json : Json V⦄ where
  abbrev source_node : ContextRewriteBlocker V → Option String
  source_node b = elim (lookup "source_node" b.extra) [ none ↦ none | some v ↦ json.value_as_str v ]

  abbrev blocker_cmp : ContextRewriteBlocker V → ContextRewriteBlocker V → Ordering
  blocker_cmp a b = then_with (compare a.kind b.kind) (
      then_with (str_cmp a.function b.function) (
        then_with (str_cmp a.callsite b.callsite) (
          then_with (str_cmp a.initializer b.initializer)
            (str_cmp (source_node a) (source_node b)))))

  abbrev same_blocker : ContextRewriteBlocker V → ContextRewriteBlocker V → Bool
  same_blocker a b =
      a.kind == b.kind
      && a.function == b.function
      && a.callsite == b.callsite
      && a.initializer == b.initializer
      && source_node a == source_node b

  unfoldable pub canonicalize_context_fields :
      List (ContextRewriteField V) → List (ContextRewriteField V)
  canonicalize_context_fields fields =
      sort_by (λ a b. key_cmp a.global b.global)
        (map {A = ContextRewriteField V}
          (λ f. record f {
            accessors = dedup_by (λ a b. a == b) (sort_by compare f.accessors);
            functions = dedup_by (λ a b. a == b) (sort_by compare f.functions);
            rewrite_callsites = canonicalize_context_callsites f.rewrite_callsites;
            blockers = dedup_by same_blocker (sort_by blocker_cmp f.blockers);
          })
          fields)

  unfoldable pub canonicalize_context_rewrite : ContextRewritePlan V → ContextRewritePlan V
  canonicalize_context_rewrite plan = record plan {
    fields = canonicalize_context_fields plan.fields;
    selected = elim plan.selected [
      | none ↦ none
      | some s ↦ some (record s {
        fields = canonicalize_context_fields s.fields;
        accessors = dedup_by (λ a b. a == b) (sort_by compare s.accessors);
        functions = dedup_by (λ a b. a == b) (sort_by compare s.functions);
        rewrite_callsites = canonicalize_context_callsites s.rewrite_callsites;
      })
    ];
  }

  -- `Manifest::canonicalize`.
  unfoldable pub canonicalize : Manifest V → Manifest V
  canonicalize m = record m {
    globals = map canonicalize_global (sort_by (λ a b. key_cmp a.key b.key) m.globals);
    synthetic_globals = sort_by (λ a b. compare a.llvm_name b.llvm_name) m.synthetic_globals;
    unkeyed_globals =
        sort_by
          (λ a b. then_with (compare a.llvm_name b.llvm_name) (witness_cmp a.witness b.witness))
          m.unkeyed_globals;
    coupling_groups = map canonicalize_group (sort_by (λ a b. compare a.id b.id) m.coupling_groups);
    context_rewrite = canonicalize_context_rewrite m.context_rewrite;
    coupling_candidates =
        map {A = CouplingCandidate V}
          (λ c. record c {
            members = sort_by key_cmp c.members;
            evidence = canonicalize_evidence c.evidence;
          })
          (sort_by (λ a b. compare a.id b.id) m.coupling_candidates);
    override_report = elim m.override_report [
      | none ↦ none
      | some r ↦ some (record r { entries = sort_by entry_cmp (map canonicalize_entry r.entries) })
    ];
    materialization = elim m.materialization [
      | none ↦ none
      | some t ↦ some (record t {
        marker_inventory =
            sort_by (λ a b. then_with (key_cmp a.key b.key) (compare a.kind b.kind))
              t.marker_inventory;
        demotions = sort_by (λ a b. key_cmp a.key b.key) t.demotions;
      })
    ];
  }
