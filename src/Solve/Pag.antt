-- ===== src/Solve/Pag.antt =====
-- The program assignment graph of crates/pangs-pag/src/lib.rs and the signatures of
-- crates/pangs-pir/src/lib.rs, with the fields that the queries over the graph read. Labels, owners,
-- source locations and metrics are left out. A `NodeId`, `CallsiteId` or `u32` is a number.
pub mod Compatible
use tenjin_pangs.Base.{
  ℕ, String, Bool, true, false, Option, none, some, List, [], ◌∷◌, Eq, ◌==◌, nat_eq, string_eq, not,
  ◌&&◌, ◌||◌, length, ltb, ◌↔◌, ◌≡◌, IsTest, arith, if◌then◌else◌,
}
use tenjin_pangs.Base.Int.{ℤ}
use tenjin_pangs.Solve.Lane.{GepLane}

-- A byte offset (`i64`) and a lane of a GEP, and the bytes of a memcpy.
pub data EdgeKind : Type 0 where
  addr_of : EdgeKind
  assign : EdgeKind
  load : EdgeKind
  store : EdgeKind
  gep : Option ℤ → Option GepLane → EdgeKind
  memcpy : Option ℕ → EdgeKind

pub record Edge : Type 0 where
  pub kind : EdgeKind
  pub src : ℕ
  pub dst : ℕ

pub data ObjectKind : Type 0 where
  alloca : ObjectKind
  global : ObjectKind
  function : ObjectKind
  external_readonly : ObjectKind

pub data Scope : Type 0 where
  module_scope : Scope
  global_init : Scope
  function_scope : String → Scope

-- An object has its key and its owner.
pub data NodeKind : Type 0 where
  value : Scope → NodeKind
  object : ObjectKind → String → Option String → NodeKind
  param : String → ℕ → NodeKind
  return : String → NodeKind

pub data ValueKind : Type 0 where
  unknown : ValueKind
  non_pointer : ValueKind
  pointer : ValueKind
  pointer_aggregate : ValueKind

abbrev pub may_carry_pointer : ValueKind → Bool
may_carry_pointer non_pointer = false
may_carry_pointer unknown = true
may_carry_pointer pointer = true
may_carry_pointer pointer_aggregate = true

pub record Node : Type 0 where
  pub id : ℕ
  pub kind : NodeKind
  pub value_kind : ValueKind

-- `AbiClass`, and `Param`, which has the same variants and is turned into its class by `class`.
pub data AbiClass : Type 0 where
  integer : AbiClass
  sse : AbiClass
  x87 : AbiClass
  fp128 : AbiClass
  void : AbiClass
  byval : ℕ → AbiClass
  sret : ℕ → AbiClass

pub data Param : Type 0 where
  integer : Param
  sse : Param
  x87 : Param
  fp128 : Param
  void : Param
  byval : ℕ → Param
  sret : ℕ → Param

abbrev pub class : Param → AbiClass
class Param.integer = AbiClass.integer
class Param.sse = AbiClass.sse
class Param.x87 = AbiClass.x87
class Param.fp128 = AbiClass.fp128
class Param.void = AbiClass.void
class (Param.byval n) = AbiClass.byval n
class (Param.sret n) = AbiClass.sret n

pub record Signature : Type 0 where
  pub ret : AbiClass
  pub params : List Param
  pub vararg : Bool
  pub cc : String

pub data CallKind : Type 0 where
  direct : CallKind
  indirect : CallKind

pub record Callsite : Type 0 where
  pub id : ℕ
  pub key : String
  pub kind : CallKind
  pub operand : Option ℕ
  pub args : List ℕ
  pub result : Option ℕ
  pub sig : Signature

pub data OmegaSeedKind : Type 0 where
  exported_symbol : OmegaSeedKind
  imported_symbol : OmegaSeedKind
  external_call_boundary : OmegaSeedKind
  vararg_call_boundary : OmegaSeedKind
  vararg_list_payload : OmegaSeedKind
  ptr_to_int : OmegaSeedKind
  int_to_ptr : OmegaSeedKind
  unknown_operand_escape : OmegaSeedKind
  unknown_result_external : OmegaSeedKind

pub data SeedTarget : Type 0 where
  node : ℕ → SeedTarget
  callsite : ℕ → SeedTarget

pub record OmegaSeed : Type 0 where
  pub kind : OmegaSeedKind
  pub target : SeedTarget

pub record Pag : Type 0 where
  pub nodes : List Node
  pub edges : List Edge
  pub callsites : List Callsite
  pub omega_seeds : List OmegaSeed

abbrev pub class_beq : AbiClass → AbiClass → Bool
class_beq AbiClass.integer AbiClass.integer = true
class_beq AbiClass.sse AbiClass.sse = true
class_beq AbiClass.x87 AbiClass.x87 = true
class_beq AbiClass.fp128 AbiClass.fp128 = true
class_beq AbiClass.void AbiClass.void = true
class_beq (AbiClass.byval n) (AbiClass.byval k) = n == k
class_beq (AbiClass.sret n) (AbiClass.sret k) = n == k
class_beq _ _ = false

pub class_beq_iff : (a b : AbiClass) → (class_beq a b ≡ true) ↔ (a ≡ b)
class_beq_iff a b = ground arith

instance abbrev pub class_eq : Eq AbiClass
class_eq = record { beq = class_beq; beq_iff = class_beq_iff }

-- The loop over the zipped parameters.
abbrev pub classes_agree : List Param → List Param → Bool
classes_agree [] right = true
classes_agree (l ∷ left) [] = true
classes_agree (l ∷ left) (r ∷ right) = class l == class r && classes_agree left right

unfoldable pub fsa_compatible : Signature → Signature → Bool
fsa_compatible site callee =
    if not (site.cc == callee.cc)
    then false
    else if (if callee.vararg
        then ltb (length site.params) (length callee.params)
        else ltb (length site.params) (length callee.params))
    then false
    else if not (classes_agree site.params callee.params)
    then false
    else site.ret == callee.ret || site.ret == AbiClass.void || callee.ret == AbiClass.void
