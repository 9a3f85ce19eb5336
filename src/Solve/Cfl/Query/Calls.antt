-- ===== src/Solve/Cfl/Query/Calls.antt =====
-- The call sites at a node, for the callee queries of crates/pangs-solve/src/cfl.rs.
use tenjin_pangs.Base.{
  ℕ, String, Bool, true, false, some, ◌≡◌, refl, sym, ap, ◌∙◌, ◌↔◌, IsIn, IsIn-map, map-IsIn,
  IsIn-keep, keep, none, List, ◌⊎◌, inl, inr, lookup, Option-cases, string_eq, get_elem?, ◌&&◌,
  option_beq, option_beq_iff, nat_eq, arith,
}
use tenjin_pangs.Solve.Pag.{Callsite, CallKind, Signature, fsa_compatible}
use tenjin_pangs.Solve.Pag.Compatible.{Accepts, fsa_compatible_iff}
use tenjin_pangs.Solve.Cfl.Graph.{QueryGraph, indirect_operands, compatible_target, is_indirect}
use tenjin_pangs.Solve.Cfl.Query.Visit.{SinkAmong}
use tenjin_pangs.Solve.Cfl.Query.Calm.{IsIndexed}

-- A compatible indirect call site of the graph has the node as its operand, and the key is its.
abbrev pub CallsAt : QueryGraph → String → ℕ → String → Type 0
CallsAt graph function node key =
    (site : Callsite) × IsIn site graph.pag.callsites
    × (site.kind ≡ CallKind.indirect)
    × (site.operand ≡ some node)
    × (compatible_target graph function site.id ≡ true)
    × (key ≡ site.key)

and_true : (p q : Bool) → (p && q ≡ true) ↔ ((p ≡ true) × (q ≡ true))
and_true true q = (λ e. (refl, e), λ h. h.1)
and_true false q = (λ e. cc, λ h. cc)

is_indirect_iff : (site : Callsite) → (is_indirect site ≡ true) ↔ (site.kind ≡ CallKind.indirect)
is_indirect_iff site = (λ e. ground arith, λ e. ground arith)

module _ (graph : QueryGraph) (function : String) (node : ℕ) (key : String) where
  abbrev wanted : Callsite → Bool
  wanted site = is_indirect site && option_beq site.operand (some node)

  wanted_iff :
      (site : Callsite)
      → (wanted site ≡ true) ↔ ((site.kind ≡ CallKind.indirect) × (site.operand ≡ some node))
  wanted_iff site =
      let both = and_true (is_indirect site) (option_beq site.operand (some node)) in
      let kind = is_indirect_iff site in
      let operand = option_beq_iff site.operand (some node) in
      (λ e. (kind.0 (both.0 e).0, operand.0 (both.0 e).1), λ (k, o). both.1 (kind.1 k, operand.1 o))

  some_eq : {A : Type 0} {a b : A} → some a ≡ some b → a ≡ b
  some_eq e = cc

  -- Over a graph whose call sites stand at their identifiers, what the query records at a node is
  -- what calls there.
  pub SinkAmong-CallsAt :
      IsIndexed graph
      → SinkAmong graph function (indirect_operands graph node) key
        ↔ CallsAt graph function node key
  SinkAmong-CallsAt indexed = (
    λ (n, callsite, among, fit, found, q).
        let (site, m, e) = IsIn-map (λ s. s.id) n (keep wanted graph.pag.callsites) among in
        let (there, t) = (IsIn-keep wanted site graph.pag.callsites).0 m in
        let (k, o) = (wanted_iff site).0 t in
        let same : callsite ≡ site =
          some_eq (sym found ∙ ap (λ i. get_elem? graph.pag.callsites i) e ∙ indexed site there) in
        (site, there, k, o, rw e at fit, q ∙ ap (λ (s : Callsite). s.key) same),
    λ (site, there, k, o, fit, q). (
      site.id,
      site,
      map-IsIn (λ s. s.id) site (keep wanted graph.pag.callsites)
          ((IsIn-keep wanted site graph.pag.callsites).1 (there, (wanted_iff site).1 (k, o))),
      fit,
      indexed site there,
      q,
    ),
  )

-- The signatures do not rule the function out at the site: there are none, or none of the function,
-- or the site's signature accepts the function's.
abbrev pub Permits : QueryGraph → String → Callsite → Type 0
Permits graph function site =
    (graph.function_signatures ≡ none)
    ⊎ (signatures : List (String × Signature)) × (graph.function_signatures ≡ some signatures)
      × ((lookup function signatures ≡ none)
          ⊎ (sig : Signature) × (lookup function signatures ≡ some sig) × Accepts site.sig sig)

-- An indirect call site of the graph that permits the function has the node as its operand, and the
-- key is its.
abbrev pub CallsTo : QueryGraph → String → ℕ → String → Type 0
CallsTo graph function node key =
    (site : Callsite) × IsIn site graph.pag.callsites
    × (site.kind ≡ CallKind.indirect)
    × (site.operand ≡ some node)
    × Permits graph function site
    × (key ≡ site.key)

compatible_target-Permits :
    (graph : QueryGraph) (function : String) (site : Callsite)
    → get_elem? graph.pag.callsites site.id ≡ some site
    → compatible_target graph function site.id ≡ true
    → Permits graph function site
compatible_target-Permits graph function site found h =
    elim (Option-cases graph.function_signatures) [
      | inl e ↦ inl e
      | inr (signatures, e) ↦ elim (Option-cases (lookup function signatures)) [
        | inl q ↦ inr (signatures, e, inl q)
        | inr (sig, q) ↦
            let t : fsa_compatible site.sig sig ≡ true = rw (e, q, found, compatible_target) at h in
            inr (signatures, e, inr (sig, q, (fsa_compatible_iff site.sig sig).0 t))
      ]
    ]

pub CallsAt-CallsTo :
    (graph : QueryGraph) (function : String) (node : ℕ) (key : String)
    → IsIndexed graph
    → CallsAt graph function node key
    → CallsTo graph function node key
CallsAt-CallsTo graph function node key indexed (site, there, k, o, fit, q) =
    (site, there, k, o, compatible_target-Permits graph function site (indexed site there) fit, q)
