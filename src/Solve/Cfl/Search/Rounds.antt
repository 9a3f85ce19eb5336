-- ===== src/Solve/Cfl/Search/Rounds.antt =====
-- One round of the work-list loop of crates/pangs-solve/src/cfl.rs, and the rule for its invariants.
use tenjin_pangs.Base.{
  ℕ, zero, suc, true, false, List, [], ◌∷◌, Result, ok, err, Eq, contains, String, ◌≡◌, refl, ◌⊎◌,
  inl, inr, Bool-cases, Result-cases, sym, ◌∙◌,
}
use tenjin_pangs.Solve.Cfl.Search.{
  Stop, panicked, Run, push_all, search, visited_run, truncated_run, is_spent,
}

ok_eq : {A E : Type 0} {a b : A} → ◌≡◌ {A = Result A E} (ok a) (ok b) → a ≡ b
ok_eq e = cc

apart : {A E : Type 0} {a : A} {x : E} → ◌≡◌ {A = Result A E} (ok a) (err x) → ⊥
apart e = cc

module _ {State Key Out : Type 0} ⦃e : Eq Key⦄ (key : State → Key)
    (visit : State → Out → Result Out String) (step : State → List State) (budget : ℕ) where
  abbrev loop : ℕ → List State → Run Key Out → Result (Run Key Out) Stop
  loop = search key visit step budget

  abbrev visited : State → List State → Run Key Out → Out → Run Key Out
  visited = visited_run key visit step budget

  abbrev last : State → List State → Run Key Out → Run Key Out
  last = truncated_run key visit step budget

  -- A round with a waiting state: it was visited, or the budget is spent, or it is visited now, or
  -- its visit panics.
  pub round_cases :
      (fuel : ℕ) (s : State) (worklist : List State) (run : Run Key Out)
      → ((contains run.visited (key s) ≡ true)
          × (loop (suc fuel) (s ∷ worklist) run ≡ loop fuel worklist run))
        ⊎ ((contains run.visited (key s) ≡ false)
            × (((is_spent key visit step budget worklist run ≡ true)
                  × (loop (suc fuel) (s ∷ worklist) run ≡ ok (last s worklist run)))
                ⊎ ((is_spent key visit step budget worklist run ≡ false)
                    × (((out : Out) × (visit s run.out ≡ ok out)
                          × (loop (suc fuel) (s ∷ worklist) run
                              ≡ loop fuel
                                  (push_all worklist (step s))
                                  (visited s worklist run out)))
                        ⊎ ((message : String) × (visit s run.out ≡ err message)
                            × (loop (suc fuel) (s ∷ worklist) run ≡ err (panicked message)))))))
  unfolding search
  round_cases fuel s worklist run = elim (Bool-cases (contains run.visited (key s))) [
    | inl t ↦ inl (t, rw (t, search) refl)
    | inr f ↦ inr (
      f,
      elim (Bool-cases (is_spent key visit step budget worklist run)) [
        | inl over ↦ inl (over, rw (f, over, search) refl)
        | inr under ↦ inr (
          under,
          elim (Result-cases (visit s run.out)) [
            | inl (out, v) ↦ inl (out, v, rw (f, under, v, search) refl)
            | inr (message, v) ↦ inr (message, v, rw (f, under, v, search) refl)
          ],
        )
      ],
    )
  ]

  -- An invariant that holds where the search starts holds where it ends: with nothing waiting, or
  -- in the round that spent the budget.
  pub search_rule :
      (Inv : List State → Run Key Out → Type 0)
      → ((s : State) (worklist : List State) (run : Run Key Out)
          → Inv (s ∷ worklist) run
          → contains run.visited (key s) ≡ true
          → Inv worklist run)
      → ((s : State) (worklist : List State) (run : Run Key Out) (out : Out)
          → Inv (s ∷ worklist) run
          → contains run.visited (key s) ≡ false
          → is_spent key visit step budget worklist run ≡ false
          → visit s run.out ≡ ok out
          → Inv (push_all worklist (step s)) (visited s worklist run out))
      → (fuel : ℕ) (worklist : List State) (run final : Run Key Out) → Inv worklist run
      → loop fuel worklist run ≡ ok final
      → Inv [] final
        ⊎ ((s : State) × (rest : List State) × (before : Run Key Out) × Inv (s ∷ rest) before
            × (final ≡ last s rest before))
  unfolding search
  search_rule Inv old new fuel [] run final i r = inl (rw (ok_eq r) at i)
  search_rule Inv old new zero (s ∷ worklist) run final i r = cc
  search_rule Inv old new (suc fuel) (s ∷ worklist) run final i r =
      elim (round_cases fuel s worklist run) [
        | inl (t, e) ↦
            search_rule Inv old new fuel worklist run final (old s worklist run i t) (sym e ∙ r)
        | inr (f, inl (over, e)) ↦ inr (s, worklist, run, i, ok_eq (sym r ∙ e))
        | inr (f, inr (under, inl (out, v, e))) ↦
            search_rule Inv old new fuel (push_all worklist (step s)) (visited s worklist run out)
              final (new s worklist run out i f under v) (sym e ∙ r)
        | inr (f, inr (under, inr (message, v, e))) ↦ absurd (apart (sym r ∙ e))
      ]
