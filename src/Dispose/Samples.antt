-- ===== src/Dispose/Samples.antt =====
-- Inputs for the tests of the policy in crates/pangs-dispose/src/lib.rs.
use tenjin_pangs.Base.{String, Bool, true, false, none, some, List, [], ◌∷◌, ok}
use tenjin_pangs.Manifest.Strategy.{
  Strategy, immutable, atomic, mutex, unhandled, default_application, application, library,
}
use tenjin_pangs.Manifest.Key.{Key}
use tenjin_pangs.Manifest.Facts.{Witness, EvidencedBool, Certificate, verdict_ok, Facts, Json}
use tenjin_pangs.Manifest.Records.{
  Linkage, Disposition, DispositionProvenance, GlobalRecord, CouplingGroup, OverrideReportEntry,
  OverrideScope, OverrideOutcome, OverrideRequested, honored, rejected,
}
use tenjin_pangs.Dispose.Config.{CascadeConfig, OverrideSpec}
use tenjin_pangs.Dispose.Overrides.{Log}

-- Values that are texts: a text decodes to obligations that name it as their emitter.
instance abbrev pub text_json : Json String
text_json = record {
  value_as_str = λ v. some v;
  decode_obligations = λ v. ok (record {
    emitter = v;
    declaration = some "static int a;";
    declaration_site = none;
    contains_object_pointer = false;
    initializer_features = [];
    observations = [];
  });
}

abbrev pub note : Witness String
note = record { kind = "write"; site = none; symbol = some "f"; note = none; extra = [] }

abbrev pub absent : EvidencedBool String
absent = record { value = false; witness = none; extra = [] }

abbrev pub present : EvidencedBool String
present = record { value = true; witness = some note; extra = [] }

-- A global that nothing writes.
abbrev pub constant_facts : Facts String
constant_facts = record {
  written = absent;
  omega_escaped_address = absent;
  violation_taint = absent;
  thread_visible = absent;
  signal_context_access = absent;
  access_set_complete = record { value = true; witness = none; extra = [] };
  atomic_declaration = absent;
  phase_stationarity = none;
  mutex_eligibility = none;
  coupling_group = none;
  localization = none;
  violation_relevance = [];
  extra = [];
}

-- A global that is written in one component, and that a lock can guard.
abbrev pub local_facts : Facts String
local_facts = record constant_facts {
  written = present;
  mutex_eligibility = some (Certificate.certified "recipe" []);
  localization = some (record {
    component = "main";
    verdict = verdict_ok;
    blocker_count = 0;
    blocker_samples = [];
    extra = [];
  });
}

abbrev pub counter : Key
counter = record { tu_path = some "a.c"; symbol = "counter" }

abbrev pub limit : Key
limit = record { tu_path = none; symbol = "limit" }

abbrev pub app_config : CascadeConfig
app_config = record { mode = application; order = default_application }

abbrev pub locking_config : CascadeConfig
locking_config = record { mode = library; order = immutable ∷ mutex ∷ [] }

abbrev pub repeated_config : CascadeConfig
repeated_config = record { mode = application; order = atomic ∷ atomic ∷ [] }

abbrev pub disposed : Strategy → Disposition String
disposed s = record {
  chosen = s;
  cascade_chosen = s;
  provenance = DispositionProvenance.cascade;
  cascade_trace = [];
  override = none;
  demotion = none;
  extra = [];
}

abbrev pub global_of : Key → Facts String → Strategy → GlobalRecord String
global_of k f s = record {
  key = k;
  meta = record {
    linkage = Linkage.internal;
    type_spelling = none;
    size_bits = none;
    align_bits = none;
    llvm_name = k.symbol;
    file = none;
    line = none;
    extra = [];
  };
  storage_members = [];
  facts = f;
  disposition = some (disposed s);
  extra = [];
}

abbrev pub counter_global : GlobalRecord String
counter_global = global_of counter local_facts unhandled

abbrev pub limit_global : GlobalRecord String
limit_global = global_of limit local_facts unhandled

abbrev pub two_globals : List (GlobalRecord String)
two_globals = counter_global ∷ limit_global ∷ []

abbrev pub pair : CouplingGroup String
pair = record {
  id = "g1";
  members = counter ∷ limit ∷ [];
  evidence = [];
  strategy_support = record {
    once_lock = none;
    mutex = some (Certificate.certified "lock" []);
    extra = [];
  };
  group_disposition = none;
  group_provenance = none;
  override = none;
  extra = [];
}

abbrev pub asking : Strategy → Bool → OverrideSpec
asking s risk = record { disposition = s; accept_risk = risk; reason = some "reviewed" }

abbrev pub empty_log : Log String
empty_log = record { entries = []; ledger = [] }

abbrev pub two_entries : List (OverrideReportEntry String)
two_entries = entry honored ∷ entry rejected ∷ []
  where
    entry : OverrideOutcome → OverrideReportEntry String
    entry o = record {
      scope = OverrideScope.global;
      key = none;
      requested = OverrideRequested.strategy mutex;
      accept_risk = false;
      outcome = o;
      reason = none;
      witness = none;
      failures = none;
      extra = [];
    }
