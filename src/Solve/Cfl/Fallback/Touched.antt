-- ===== src/Solve/Cfl/Fallback/Touched.antt =====
-- Which entries the fallback report of crates/pangs-solve/src/cfl.rs replaces.
use tenjin_pangs.Base.{
  ℕ, String, Bool, true, false, Option, none, some, List, [], ◌∷◌, ◌++◌, string_eq, lookup, insert,
  keep, ◌≡◌, refl, sym, ap, ◌∙◌, ◌⊎◌, inl, inr, ◌↔◌, ◌≢◌, IsIn, IsIn-insert_new, IsIn-keep,
  IsIn-append, IsIn-left, IsIn-right, Option-cases, lookup-insert, lookup-insert_other, Bool-cases,
  ◌==◌, eq_of_beq, beq_refl, length, ◌+◌, arith, contains, contains_iff,
}
use tenjin_pangs.Solve.Cfl.Graph.{concat_map}
use tenjin_pangs.Solve.Cfl.Query.{CflCalleeQuery}
use tenjin_pangs.Solve.Cfl.Report.{Targets}
use tenjin_pangs.Solve.Cfl.Fallback.{
  replace_touched, fallback_for_truncated_queries, truncated_queries_touched_callsites, collect_set,
  is_truncated, visit_histogram, count_visits, count_visit, CflVisitHistogram,
}

-- A truncated query found the call site or depends on it.
abbrev pub IsTouched : List CflCalleeQuery → String → Type 0
IsTouched queries callsite =
    (q : CflCalleeQuery) × IsIn q queries
    × (q.metrics.truncated ≡ true)
    × (IsIn callsite q.recorded.callsites ⊎ IsIn callsite q.recorded.dependencies)

IsIn-collect_set : (k : String) (keys : List String) → IsIn k (collect_set keys) ↔ IsIn k keys
IsIn-collect_set k [] = (λ m. m, λ m. m)
IsIn-collect_set k (key ∷ more) =
    let (front, back) = IsIn-collect_set k more in
    let (one, all) = IsIn-insert_new k key (collect_set more) in
    (
      λ m. elim (one m) [ inl e ↦ inl e | inr n ↦ inr (front n) ],
      λ m. all (elim m [ inl e ↦ inl e | inr n ↦ inr (back n) ]),
    )

IsIn-concat_map :
    {A B : Type 0} (f : A → List B) (b : B) (xs : List A)
    → IsIn b (concat_map f xs) ↔ ((a : A) × IsIn a xs × IsIn b (f a))
IsIn-concat_map f b [] = (λ m. absurd m, λ m. absurd m.1)
IsIn-concat_map f b (x ∷ xs) =
    let (front, back) = IsIn-concat_map f b xs in
    (
      λ m. elim (IsIn-append b (f x) (concat_map f xs) m) [
        | inl h ↦ (x, inl refl, h)
        | inr h ↦ let (a, p, q) = front h in (a, inr p, q)
      ],
      λ (a, p, q). elim p [
        | inl e ↦ IsIn-left b (f x) (concat_map f xs) (rw e at q)
        | inr n ↦ IsIn-right b (f x) (concat_map f xs) (back (a, n, q))
      ],
    )

IsTouched-iff :
    (queries : List CflCalleeQuery) (callsite : String)
    → IsIn callsite (truncated_queries_touched_callsites queries) ↔ IsTouched queries callsite
unfolding truncated_queries_touched_callsites
IsTouched-iff queries callsite =
    let sites = λ (q : CflCalleeQuery). q.recorded.callsites ++ q.recorded.dependencies in
    let cut = keep is_truncated queries in
    let set = IsIn-collect_set callsite (concat_map sites cut) in
    let each = IsIn-concat_map sites callsite cut in
    (
      λ m.
          let (q, among, n) = each.0 (set.0 m) in
          let (there, t) = (IsIn-keep is_truncated q queries).0 among in
          (q, there, t, IsIn-append callsite q.recorded.callsites q.recorded.dependencies n),
      λ (q, there, t, n). set.1 (
          each.1 (
            q,
            (IsIn-keep is_truncated q queries).1 (there, t),
            elim n [
              | inl n ↦ IsIn-left callsite q.recorded.callsites q.recorded.dependencies n
              | inr n ↦ IsIn-right callsite q.recorded.callsites q.recorded.dependencies n
            ],
          )),
    )

-- The envelope's entry, or else the one before.
abbrev pub chosen : Option (List String) → Option (List String) → Option (List String)
chosen (some targets) before = some targets
chosen none before = before

abbrev after : Bool → Option (List String) → Option (List String) → Option (List String)
after true envelope before = chosen envelope before
after false envelope before = before

module _ (envelope : Targets) (callsite : String) where
  after_none : (b : Bool) (e before : Option (List String)) → e ≡ none → after b e before ≡ before
  after_none true e before h = rw h refl
  after_none false e before h = refl

  after_some :
      (b : Bool) (e : Option (List String)) (targets : List String)
      → e ≡ some targets
      → after b e (some targets) ≡ some targets
  after_some true e targets h = rw h refl
  after_some false e targets h = refl

  replace_touched_lem :
      (sites : List String) (m : Targets)
      → lookup callsite (replace_touched envelope sites m)
        ≡ after (contains sites callsite) (lookup callsite envelope) (lookup callsite m)
  unfolding replace_touched
  replace_touched_lem [] m = refl
  replace_touched_lem (site ∷ more) m = elim (Bool-cases (callsite == site)) [
    | inl t ↦
        let same : callsite ≡ site = eq_of_beq callsite site t in
        elim (Option-cases (lookup site envelope)) [
          | inl n ↦
              let lacks : lookup callsite envelope ≡ none = rw same n in
              rw (replace_touched, n, t)
                (replace_touched_lem more m
                  ∙ after_none (contains more callsite) (lookup callsite envelope)
                      (lookup callsite m) lacks
                  ∙ sym (after_none true (lookup callsite envelope) (lookup callsite m) lacks))
          | inr (targets, n) ↦
              let has : lookup callsite envelope ≡ some targets = rw same n in
              let put : lookup callsite (insert site targets m) ≡ some targets =
                rw same (lookup-insert site targets m) in
              rw (replace_touched, n, t)
                (replace_touched_lem more (insert site targets m)
                  ∙ ap (after (contains more callsite) (lookup callsite envelope)) put
                  ∙ after_some (contains more callsite) (lookup callsite envelope) targets has
                  ∙ sym (ap (λ e. chosen e (lookup callsite m)) has))
        ]
    | inr f ↦
        let differs : callsite ≢ site = λ q. not_same q f in
        elim (Option-cases (lookup site envelope)) [
          | inl n ↦ rw (replace_touched, n, f) (replace_touched_lem more m)
          | inr (targets, n) ↦
              rw (replace_touched, n, f)
                (replace_touched_lem more (insert site targets m)
                  ∙ ap (after (contains more callsite) (lookup callsite envelope))
                      (lookup-insert_other callsite site targets m differs))
        ]
  ]
    where
      not_same : callsite ≡ site → (callsite == site) ≡ false → ⊥
      not_same q f =
          let t : (callsite == site) ≡ true = rw q (beq_refl site) in let clash = sym t ∙ f in cc

-- For a call site that a truncated query found or depends on, the merged report has the envelope's
-- targets if there are any, and lists them as the fallback; for any other it has the targets of the
-- report, and no fallback.
pub fallback_for_truncated_queries_exact :
    (by_callsite : Targets) (queries : List CflCalleeQuery) (envelope : Targets) (callsite : String)
    → (IsTouched queries callsite
        × (lookup callsite (fallback_for_truncated_queries by_callsite queries envelope).by_callsite
            ≡ chosen (lookup callsite envelope) (lookup callsite by_callsite))
        × (lookup callsite
              (fallback_for_truncated_queries by_callsite queries envelope).fallback_by_callsite
            ≡ lookup callsite envelope))
      ⊎ (¬ IsTouched queries callsite
          × (lookup callsite
                (fallback_for_truncated_queries by_callsite queries envelope).by_callsite
              ≡ lookup callsite by_callsite)
          × (lookup callsite
                (fallback_for_truncated_queries by_callsite queries envelope).fallback_by_callsite
              ≡ none))
unfolding fallback_for_truncated_queries
fallback_for_truncated_queries_exact by_callsite queries envelope callsite =
    let sites = truncated_queries_touched_callsites queries in
    let merged = replace_touched_lem envelope callsite sites by_callsite in
    let fresh = replace_touched_lem envelope callsite sites [] in
    let touched = IsTouched-iff queries callsite in
    elim (Bool-cases (contains sites callsite)) [
      | inl t ↦ inl (
        touched.0 ((contains_iff sites callsite).0 t),
        merged ∙ ap (λ b. after b (lookup callsite envelope) (lookup callsite by_callsite)) t,
        fresh
            ∙ ap (λ b. after b (lookup callsite envelope) none) t
            ∙ chosen_none (lookup callsite envelope),
      )
      | inr f ↦ inr (
        λ h. apart ((contains_iff sites callsite).1 (touched.1 h)) f,
        merged ∙ ap (λ b. after b (lookup callsite envelope) (lookup callsite by_callsite)) f,
        fresh ∙ ap (λ b. after b (lookup callsite envelope) none) f,
      )
    ]
  where
    chosen_none : (o : Option (List String)) → chosen o none ≡ o
    chosen_none none = refl
    chosen_none (some targets) = refl

    apart : {b : Bool} → b ≡ true → b ≡ false → ⊥
    apart t f = cc

-- Each query is counted in one bucket.
pub visit_histogram-length :
    (queries : List CflCalleeQuery)
    → (visit_histogram queries).le_10
        + (visit_histogram queries).le_100
        + (visit_histogram queries).le_1000
        + (visit_histogram queries).gt_1000
      ≡ length queries
unfolding visit_histogram
visit_histogram-length queries =
    omega (arith, total queries (record { le_10 = 0; le_100 = 0; le_1000 = 0; gt_1000 = 0 }))
  where
    total :
        (queries : List CflCalleeQuery) (h : CflVisitHistogram)
        → (count_visits queries h).le_10
            + (count_visits queries h).le_100
            + (count_visits queries h).le_1000
            + (count_visits queries h).gt_1000
          ≡ length queries + (h.le_10 + h.le_100 + h.le_1000 + h.gt_1000)
    total [] h = omega arith
    total (q ∷ more) h =
        total more (count_visit q.metrics.visited_states h)
        ∙ ap (λ n. length more + n) (one q.metrics.visited_states h)
        ∙ omega arith
      where
        one :
            (n : ℕ) (h : CflVisitHistogram)
            → (count_visit n h).le_10
                + (count_visit n h).le_100
                + (count_visit n h).le_1000
                + (count_visit n h).gt_1000
              ≡ 1 + (h.le_10 + h.le_100 + h.le_1000 + h.gt_1000)
        one n h = ground arith
