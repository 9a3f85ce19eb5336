-- ===== src/Solve/Cfl/Search/Budget.antt =====
-- The work-list loop of crates/pangs-solve/src/cfl.rs visits no more keys than its budget.
use tenjin_pangs.Base.{
  ℕ, false, List, ◌∷◌, Result, ok, Eq, contains, String, ◌≡◌, inl, inr, length, ◌<◌, ◌≤◌, arith,
}
use tenjin_pangs.Solve.Cfl.Search.{Run, push_all, search, visited_run, is_spent}
use tenjin_pangs.Solve.Cfl.Search.Rounds.{search_rule}

module _ {State Key Out : Type 0} ⦃e : Eq Key⦄ (key : State → Key)
    (visit : State → Out → Result Out String) (step : State → List State) (budget : ℕ) where
  abbrev IsWithin : List State → Run Key Out → Type 0
  IsWithin worklist run = length run.visited < budget

  -- A search that starts below the budget ends with at most as many visited keys as the budget.
  pub search_budget :
      (fuel : ℕ) (worklist : List State) (run final : Run Key Out)
      → length run.visited < budget
      → search key visit step budget fuel worklist run ≡ ok final
      → length final.visited ≤ budget
  search_budget fuel worklist run final h r =
      elim (search_rule key visit step budget IsWithin (λ s w a i t. i) new fuel worklist run final
        h r) [ inl i ↦ omega (arith, i) | inr (s, rest, before, i, q) ↦ rw q i ]
    where
      new :
          (s : State) (worklist : List State) (run : Run Key Out) (out : Out)
          → IsWithin (s ∷ worklist) run
          → contains run.visited (key s) ≡ false
          → is_spent key visit step budget worklist run ≡ false
          → visit s run.out ≡ ok out
          → IsWithin
              (push_all worklist (step s))
              (visited_run key visit step budget s worklist run out)
      new s worklist run out i f under v = ground arith
