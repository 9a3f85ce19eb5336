-- ===== src/Solve/Cfl/Query/Visit.antt =====
-- What a round of the callee queries of crates/pangs-solve/src/cfl.rs records at a node.
use tenjin_pangs.Base.{
  ℕ, String, Bool, true, false, Option, none, some, List, [], ◌∷◌, Result, ok, ◌>>=◌, ◌≡◌, refl,
  sym, ap, ◌∙◌, ◌⊎◌, inl, inr, ◌↔◌, IsIn, IsIn-insert_new, Bool-cases, get_elem?, insert_new,
  string_eq, >>=-eq-ok, ltb, length, lookup, nat_eq,
}
use tenjin_pangs.Solve.Pag.{Callsite}
use tenjin_pangs.Solve.Cfl.Graph.{
  QueryGraph, at, place, compatible_target, indirect_operands, indirect_call_dependencies,
}
use tenjin_pangs.Solve.Cfl.Query.{
  Recorded, record_callsite_sinks, record_keys, record_dependencies, record_sinks, visit_node,
  insert_option, in_table,
}

-- One of the sites is compatible with the function, and the key is its.
abbrev pub SinkAmong : QueryGraph → String → List ℕ → String → Type 0
SinkAmong graph function sites key =
    (site : ℕ) × (callsite : Callsite) × IsIn site sites
    × (compatible_target graph function site ≡ true)
    × (get_elem? graph.pag.callsites site ≡ some callsite)
    × (key ≡ callsite.key)

ok_eq : {A : Type 0} {a b : A} → ◌≡◌ {A = Result A String} (ok a) (ok b) → a ≡ b
ok_eq e = cc

place-eq-ok : {A : Type 0} (o : Option A) (a : A) → place o ≡ ok a → o ≡ some a
place-eq-ok none a e = cc
place-eq-ok (some x) a e = cc

module _ (graph : QueryGraph) (function : String) where
  at-some :
      (site : ℕ) (callsite : Callsite)
      → at graph.pag.callsites site ≡ ok callsite
      → get_elem? graph.pag.callsites site ≡ some callsite
  at-some site callsite e = place-eq-ok (get_elem? graph.pag.callsites site) callsite e

  abbrev Records : List ℕ → List String → List String → String → Type 0
  Records sites keys last c = IsIn c last ↔ (IsIn c keys ⊎ SinkAmong graph function sites c)

  sink_fits :
      (site : ℕ) (sites : List ℕ) (keys last : List String) (c : String) (callsite : Callsite)
      → compatible_target graph function site ≡ true
      → get_elem? graph.pag.callsites site ≡ some callsite
      → Records sites (insert_new callsite.key keys) last c
      → Records (site ∷ sites) keys last c
  sink_fits site sites keys last c callsite t found (front, back) =
      (λ m. wider (front m), λ m. back (narrower m))
    where
      wider :
          IsIn c (insert_new callsite.key keys) ⊎ SinkAmong graph function sites c
          → IsIn c keys ⊎ SinkAmong graph function (site ∷ sites) c
      wider (inl m) = elim ((IsIn-insert_new c callsite.key keys).0 m) [
        | inl q ↦ inr (site, callsite, inl refl, t, found, q)
        | inr m ↦ inl m
      ]
      wider (inr (n, cs, m, fit, place, q)) = inr (n, cs, inr m, fit, place, q)

      narrower :
          IsIn c keys ⊎ SinkAmong graph function (site ∷ sites) c
          → IsIn c (insert_new callsite.key keys) ⊎ SinkAmong graph function sites c
      narrower (inl m) = inl ((IsIn-insert_new c callsite.key keys).1 (inr m))
      narrower (inr (n, cs, inl i, fit, place, q)) =
          inl ((IsIn-insert_new c callsite.key keys).1 (inl (named i place q)))
        where
          named :
              n ≡ site → get_elem? graph.pag.callsites n ≡ some cs → c ≡ cs.key → c ≡ callsite.key
          named i place q = let same : some cs ≡ some callsite = sym place ∙ rw i found in cc
      narrower (inr (n, cs, inr m, fit, place, q)) = inr (n, cs, m, fit, place, q)

  sink_differs :
      (site : ℕ) (sites : List ℕ) (keys last : List String) (c : String)
      → compatible_target graph function site ≡ false
      → Records sites keys last c
      → Records (site ∷ sites) keys last c
  sink_differs site sites keys last c f (front, back) =
      (λ m. wider (front m), λ m. back (narrower m))
    where
      wider :
          IsIn c keys ⊎ SinkAmong graph function sites c
          → IsIn c keys ⊎ SinkAmong graph function (site ∷ sites) c
      wider (inl m) = inl m
      wider (inr (n, cs, m, fit, place, q)) = inr (n, cs, inr m, fit, place, q)

      narrower :
          IsIn c keys ⊎ SinkAmong graph function (site ∷ sites) c
          → IsIn c keys ⊎ SinkAmong graph function sites c
      narrower (inl m) = inl m
      narrower (inr (n, cs, inl i, fit, place, q)) = absurd (clash i fit)
        where
          clash : n ≡ site → compatible_target graph function n ≡ true → ⊥
          clash i fit =
              let other : compatible_target graph function site ≡ true = rw i at fit in
              let both = sym other ∙ f in cc
      narrower (inr (n, cs, inr m, fit, place, q)) = inr (n, cs, m, fit, place, q)

  -- The loop over the sites adds the keys of those that are compatible.
  record_callsite_sinks_lem :
      (sites : List ℕ) (keys last : List String) (c : String)
      → record_callsite_sinks graph function sites keys ≡ ok last
      → Records sites keys last c
  record_callsite_sinks_lem [] keys last c e =
      let same : keys ≡ last = ok_eq e in
      (
        λ m. inl (rw same m),
        λ m. elim m [
          | inl m ↦ rw (sym same) m
          | inr (n, cs, none_in, fit, found, q) ↦ absurd none_in
        ],
      )
  record_callsite_sinks_lem (site ∷ sites) keys last c e =
      elim (Bool-cases (compatible_target graph function site)) [
        | inl t ↦
            let (callsite, found, rest) =
              >>=-eq-ok (at graph.pag.callsites site)
                (λ cs. record_callsite_sinks graph function sites (insert_new cs.key keys))
                (rw (t, record_callsite_sinks) at e) in
            sink_fits site sites keys last c callsite t (at-some site callsite found)
              (record_callsite_sinks_lem sites (insert_new callsite.key keys) last c rest)
        | inr f ↦
            sink_differs site sites keys last c f
              (record_callsite_sinks_lem sites keys last c (rw (f, record_callsite_sinks) at e))
      ]

  record_dependencies-callsites :
      (node : ℕ) (o p : Recorded)
      → record_dependencies graph node o ≡ ok p
      → p.callsites ≡ o.callsites
  unfolding record_dependencies
  record_dependencies-callsites node o p e =
      let (keys, runs, q) =
        >>=-eq-ok (record_keys graph (indirect_call_dependencies graph node) o.dependencies)
          (λ keys. ok (record {
            callsites = o.callsites;
            dependencies = keys;
            return_dependencies =
                insert_option (lookup node graph.return_dependencies) o.return_dependencies;
          }))
          e in
      ap (λ (r : Recorded). r.callsites) (sym (ok_eq q))

  -- A key is recorded at a node that counts as a sink for each compatible site of the node.
  abbrev pub SinksAt : Bool → ℕ → String → Type 0
  SinksAt is_sink node c =
      (is_sink ≡ true) × SinkAmong graph function (indirect_operands graph node) c

  record_sinks_lem :
      (is_sink : Bool) (node : ℕ) (o p : Recorded) (c : String)
      → record_sinks graph function is_sink node o ≡ ok p
      → IsIn c p.callsites ↔ (IsIn c o.callsites ⊎ SinksAt is_sink node c)
  unfolding record_sinks
  record_sinks_lem false node o p c e =
      let same : o ≡ p = ok_eq e in
      (
        λ m. inl (rw same m),
        λ m. elim m [ inl m ↦ rw (sym same) m | inr (f, more) ↦ absurd (let clash = f in cc) ],
      )
  record_sinks_lem true node o p c e =
      let (keys, runs, q) =
        >>=-eq-ok (record_callsite_sinks graph function (indirect_operands graph node) o.callsites)
          (λ keys. ok (record {
            callsites = keys;
            dependencies = o.dependencies;
            return_dependencies = o.return_dependencies;
          }))
          e in
      let (front, back) =
        record_callsite_sinks_lem (indirect_operands graph node) o.callsites keys c runs in
      let same : keys ≡ p.callsites = ap (λ (r : Recorded). r.callsites) (ok_eq q) in
      (
        λ m. elim (front (rw same m)) [ inl m ↦ inl m | inr s ↦ inr (refl, s) ],
        λ m. rw (sym same) (elim m [ inl m ↦ back (inl m) | inr (t, s) ↦ back (inr s) ]),
      )

  last_test : (b : Bool) (done p : Recorded) → in_table b done ≡ ok p → done ≡ p
  last_test true done p e = ok_eq e
  last_test false done p e = cc

  -- A visit adds to the call sites those of the node, if it is a sink.
  pub visit_node_lem :
      (is_sink : Bool) (node : ℕ) (o p : Recorded) (c : String)
      → visit_node graph function is_sink node o ≡ ok p
      → IsIn c p.callsites ↔ (IsIn c o.callsites ⊎ SinksAt is_sink node c)
  unfolding visit_node
  visit_node_lem is_sink node o p c e =
      let (noted, first, q) =
        >>=-eq-ok (record_dependencies graph node o)
          (λ noted. record_sinks graph function is_sink node noted >>= λ done.
            in_table (ltb node (length graph.pag.nodes)) done)
          e in
      let (done, second, r) =
        >>=-eq-ok (record_sinks graph function is_sink node noted)
          (λ done. in_table (ltb node (length graph.pag.nodes)) done) q in
      let same : done ≡ p = last_test (ltb node (length graph.pag.nodes)) done p r in
      let kept = record_dependencies-callsites node o noted first in
      rw (kept, same) at (record_sinks_lem is_sink node noted done c second)
