-- ===== src/Solve/Cfl/Report/Exact.antt =====
-- The reports of crates/pangs-solve/src/cfl.rs list, for each call site, the functions whose query found
-- it.
use tenjin_pangs.Base.{
  String, true, false, Option, List, [], ◌∷◌, Result, ok, ◌>>=◌, ◌≡◌, refl, sym, ap, ◌∙◌, ◌⊎◌, inl,
  inr, ◌↔◌, IsIn, IsIn-insert_new, string_eq, lookup, insert, insert_new, lookup-insert,
  lookup-insert_other, Bool-cases, ◌==◌, eq_of_beq, beq_refl, >>=-eq-ok, ◌≢◌,
}
use tenjin_pangs.Solve.Pag.{Pag, Signature}
use tenjin_pangs.Solve.Cfl.Bindings.{with_signatures}
use tenjin_pangs.Solve.Cfl.Graph.{QueryGraph}
use tenjin_pangs.Solve.Cfl.Search.{Stop}
use tenjin_pangs.Solve.Cfl.Query.{CflCalleeQuery, query_function, query_function_mhs}
use tenjin_pangs.Solve.Cfl.Query.Answers.{IsValid, queries_total}
use tenjin_pangs.Solve.Cfl.Report.Taken.{IsAddressTaken, callee_query_function_keys_iff}
use tenjin_pangs.Solve.Cfl.Report.{
  Targets, CflCalleeReport, add_target, add_targets, run_queries, or_default,
  callee_query_function_keys, query_all_callees_field_insensitive_report_inner,
  query_all_callees_field_sensitive_report_inner,
}

-- The map lists the function as a target of the call site.
abbrev pub Lists : Targets → String → String → Type 0
Lists m callsite key = IsIn key (or_default (lookup callsite m))

add_target_lem :
    (callsite key c k : String) (m : Targets)
    → Lists (add_target callsite key m) c k ↔ (((c ≡ callsite) × (k ≡ key)) ⊎ Lists m c k)
unfolding add_target
add_target_lem callsite key c k m = elim (Bool-cases (c == callsite)) [
  | inl t ↦ here (eq_of_beq c callsite t)
  | inr f ↦ elsewhere (λ q. let clash : true ≡ false = sym (rw q (beq_refl callsite)) ∙ f in cc)
]
  where
    set : List String
    set = insert_new key (or_default (lookup callsite m))

    here :
        c ≡ callsite
        → Lists (insert callsite set m) c k ↔ (((c ≡ callsite) × (k ≡ key)) ⊎ Lists m c k)
    here q =
        rw (q, Lists, lookup-insert callsite set m)
          (
            λ n. elim ((IsIn-insert_new k key (or_default (lookup callsite m))).0 n) [
              | inl e ↦ inl (refl, e)
              | inr n ↦ inr n
            ],
            λ n.
                (IsIn-insert_new k key (or_default (lookup callsite m))).1
                  (elim n [ inl (p, e) ↦ inl e | inr n ↦ inr n ]),
          )

    elsewhere :
        c ≢ callsite
        → Lists (insert callsite set m) c k ↔ (((c ≡ callsite) × (k ≡ key)) ⊎ Lists m c k)
    elsewhere h =
        rw (lookup-insert_other c callsite set m h)
          (λ n. inr n, λ n. elim n [ inl (q, e) ↦ absurd (h q) | inr n ↦ n ])

add_targets_lem :
    (key : String) (sites : List String) (c k : String) (m : Targets)
    → Lists (add_targets key sites m) c k ↔ ((IsIn c sites × (k ≡ key)) ⊎ Lists m c k)
unfolding add_targets
add_targets_lem key [] c k m = (λ n. inr n, λ n. elim n [ inl (a, e) ↦ absurd a | inr n ↦ n ])
add_targets_lem key (site ∷ more) c k m =
    let (front, back) = add_targets_lem key more c k (add_target site key m) in
    let (one, all) = add_target_lem site key c k m in
    (
      λ n. elim (front n) [
        | inl (a, e) ↦ inl (inr a, e)
        | inr n ↦ elim (one n) [ inl (q, e) ↦ inl (inl q, e) | inr n ↦ inr n ]
      ],
      λ n. elim n [
        | inl (inl q, e) ↦ back (inr (all (inl (q, e))))
        | inl (inr a, e) ↦ back (inl (a, e))
        | inr n ↦ back (inr (all (inr n)))
      ],
    )

module _ (query : String → Result CflCalleeQuery Stop) where
  -- The query of the function returns and finds the call site.
  abbrev pub Finds : String → String → Type 0
  Finds callsite key =
      (q : CflCalleeQuery) × (query key ≡ ok q) × IsIn callsite q.recorded.callsites

  abbrev IsReported : List String → Targets → CflCalleeReport → String → String → Type 0
  IsReported keys m report c k =
      Lists report.by_callsite c k ↔ ((IsIn k keys × Finds c k) ⊎ Lists m c k)

  one_more :
      (key : String) (keys : List String) (m : Targets) (answer : CflCalleeQuery)
      (rest : CflCalleeReport) (c k : String)
      → query key ≡ ok answer
      → IsReported keys (add_targets key answer.recorded.callsites m) rest c k
      → Lists rest.by_callsite c k ↔ ((IsIn k (key ∷ keys) × Finds c k) ⊎ Lists m c k)
  one_more key keys m answer rest c k e (front, back) =
      let (one, all) = add_targets_lem key answer.recorded.callsites c k m in
      (
        λ n. elim (front n) [
          | inl (a, found) ↦ inl (inr a, found)
          | inr n ↦ elim (one n) [
            | inl (a, q) ↦ inl (inl q, (answer, ap query q ∙ e, a))
            | inr n ↦ inr n
          ]
        ],
        λ n. elim n [
          | inl (inl q, (p, f, a)) ↦ back (inr (all (inl (same q p f a, q))))
          | inl (inr a, found) ↦ back (inl (a, found))
          | inr n ↦ back (inr (all (inr n)))
        ],
      )
    where
      same :
          k ≡ key
          → (p : CflCalleeQuery) → query k ≡ ok p
          → IsIn c p.recorded.callsites
          → IsIn c answer.recorded.callsites
      same q p f a = rw (ok_eq (sym (ap query q ∙ e) ∙ f)) a
        where
          ok_eq :
              {a b : CflCalleeQuery} → ◌≡◌ {A = Result CflCalleeQuery Stop} (ok a) (ok b) → a ≡ b
          ok_eq e = cc

  run_queries_lem :
      (keys : List String) (m : Targets) (report : CflCalleeReport) (c k : String)
      → run_queries query keys m ≡ ok report
      → IsReported keys m report c k
  unfolding run_queries
  run_queries_lem [] m report c k e =
      rw (sym (report_eq e)) (λ n. inr n, λ n. elim n [ inl (a, found) ↦ absurd a | inr n ↦ n ])
    where
      report_eq :
          ◌≡◌ {A = Result CflCalleeReport Stop}
            (ok (record { by_callsite = m; queries = [] }))
            (ok report)
          → record { by_callsite = m; queries = [] } ≡ report
      report_eq e = cc
  run_queries_lem (key ∷ keys) m report c k e =
      let (answer, f, rest) =
        >>=-eq-ok (query key)
          (λ answer.
            run_queries query keys (add_targets key answer.recorded.callsites m) >>= λ rest.
            ok (record { by_callsite = rest.by_callsite; queries = answer ∷ rest.queries }))
          e in
      let (later, g, q) =
        >>=-eq-ok (run_queries query keys (add_targets key answer.recorded.callsites m))
          (λ later.
            ok (record { by_callsite = later.by_callsite; queries = answer ∷ later.queries }))
          rest in
      let same : later.by_callsite ≡ report.by_callsite = cc in
      rw same at (
        one_more key keys m answer later c k f
          (run_queries_lem keys (add_targets key answer.recorded.callsites m) later c k g))

  run_queries_total :
      ((key : String) → (q : CflCalleeQuery) × (query key ≡ ok q))
      → (keys : List String) (m : Targets)
      → (report : CflCalleeReport) × (run_queries query keys m ≡ ok report)
  unfolding run_queries
  run_queries_total total [] m = (record { by_callsite = m; queries = [] }, refl)
  run_queries_total total (key ∷ keys) m =
      let (answer, e) = total key in
      let (rest, f) = run_queries_total total keys (add_targets key answer.recorded.callsites m) in
      (
        record { by_callsite = rest.by_callsite; queries = answer ∷ rest.queries },
        rw (run_queries, e, f) refl,
      )

-- Over a valid graph that is made without a panic, both reports are returned.
pub reports_total :
    (pag : Pag) (signatures : Option (List (String × Signature))) (graph : QueryGraph)
    → IsValid pag
    → with_signatures pag signatures ≡ ok graph
    → ((r : CflCalleeReport) × (query_all_callees_field_insensitive_report_inner pag signatures
          ≡ ok r))
      × ((r : CflCalleeReport) × (query_all_callees_field_sensitive_report_inner pag signatures
            ≡ ok r))
unfolding query_all_callees_field_insensitive_report_inner
    query_all_callees_field_sensitive_report_inner
reports_total pag signatures graph valid made =
    let keys = callee_query_function_keys pag in
    let (r, e) =
      run_queries_total (query_function graph)
        (λ key. (queries_total pag [] signatures graph key valid made).0) keys [] in
    let (s, f) =
      run_queries_total (query_function_mhs graph)
        (λ key. (queries_total pag [] signatures graph key valid made).1) keys [] in
    ((r, rw (made, e) refl), (s, rw (made, f) refl))

-- The reports list a function as a target of a call site exactly if an edge of the graph takes the
-- address of its object and its query finds the call site.
pub reports_exact :
    (pag : Pag) (signatures : Option (List (String × Signature))) (graph : QueryGraph)
    (r s : CflCalleeReport) (callsite key : String)
    → with_signatures pag signatures ≡ ok graph
    → query_all_callees_field_insensitive_report_inner pag signatures ≡ ok r
    → query_all_callees_field_sensitive_report_inner pag signatures ≡ ok s
    → (Lists r.by_callsite callsite key
        ↔ (IsAddressTaken pag key × Finds (query_function graph) callsite key))
      × (Lists s.by_callsite callsite key
          ↔ (IsAddressTaken pag key × Finds (query_function_mhs graph) callsite key))
unfolding query_all_callees_field_insensitive_report_inner
    query_all_callees_field_sensitive_report_inner
reports_exact pag signatures graph r s callsite key made e f =
    let keys = callee_query_function_keys pag in
    (
      taken (run_queries_lem (query_function graph) keys [] r callsite key (rw made at e)),
      taken (run_queries_lem (query_function_mhs graph) keys [] s callsite key (rw made at f)),
    )
  where
    -- The map starts empty, and the functions are those whose address is taken.
    taken :
        {A F : Type 0}
        → A ↔ ((IsIn key (callee_query_function_keys pag) × F) ⊎ ⊥)
        → A ↔ (IsAddressTaken pag key × F)
    taken (front, back) =
        let (reads, writes) = callee_query_function_keys_iff pag key in
        (
          λ a. elim (front a) [ inl (m, f) ↦ (reads m, f) | inr n ↦ absurd n ],
          λ (m, f). back (inl (writes m, f)),
        )
