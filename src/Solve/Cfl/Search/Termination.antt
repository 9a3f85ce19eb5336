-- ===== src/Solve/Cfl/Search/Termination.antt =====
-- The work-list loop of crates/pangs-solve/src/cfl.rs ends: each round takes a state from the work
-- list, and a round that adds states visits a new key, of which there are fewer than the budget.
use native.Mathlib.Nat.{add-mul}
use tenjin_pangs.Base.{
  ℕ, zero, suc, ◌+◌, ◌*◌, ◌-◌, false, List, [], ◌∷◌, Result, ok, err, Eq, leb, length, ◌||◌, ◌≤◌,
  ◌<◌, String, ◌≡◌, ◌≢◌, refl, arith, Result-cases, inl, inr, ap, ◌∙◌, sym, IsIn,
}
use tenjin_pangs.Solve.Cfl.Search.Sound.{IsIn-push_all}
use tenjin_pangs.Solve.Cfl.Search.Rounds.{round_cases}
use tenjin_pangs.Solve.Cfl.Search.{visited_run, out_of_fuel, panicked, Run, push_all, search}

pub length-push_all :
    {State : Type 0} (worklist more : List State)
    → length (push_all worklist more) ≡ length more + length worklist
length-push_all worklist [] = omega arith
length-push_all worklist (s ∷ more) = omega (arith, length-push_all (s ∷ worklist) more)

-- Rounds that a search still needs, for at most `degree` new states in each.
abbrev pub rounds : ℕ → ℕ → ℕ → ℕ → ℕ
rounds budget degree seen waiting = waiting + (budget - seen) * degree

less_one : (budget seen : ℕ) → suc seen < budget → budget - seen ≡ 1 + (budget - suc seen)
less_one budget seen h = omega arith

spend :
    (budget degree seen waiting added : ℕ)
    → suc seen < budget
    → added ≤ degree
    → added + waiting + (budget - suc seen) * degree ≤ waiting + (budget - seen) * degree
spend budget degree seen waiting added h k =
    omega (
      arith,
      k,
      ap (λ n. n * degree) (less_one budget seen h) ∙ add-mul 1 (budget - suc seen) degree,
    )

module _ {State Key Out : Type 0} ⦃e : Eq Key⦄ (key : State → Key)
    (visit : State → Out → Result Out String) (step : State → List State) (budget degree : ℕ)
    (narrow : (s : State) → length (step s) ≤ degree) where
  -- With that many rounds of fuel the search does not run out of fuel.
  pub search_enough :
      (fuel : ℕ) (worklist : List State) (run : Run Key Out)
      → rounds budget degree (length run.visited) (length worklist) ≤ fuel
      → search key visit step budget fuel worklist run ≢ err out_of_fuel
  unfolding search
  search_enough fuel [] run h = λ k. cc
  search_enough zero (s ∷ worklist) run h = absurd (omega arith)
  search_enough (suc fuel) (s ∷ worklist) run h =
      elim (round_cases key visit step budget fuel s worklist run) [
        | inl (t, e) ↦ rw e (search_enough fuel worklist run (omega arith))
        | inr (f, inl (over, e)) ↦ rw e (λ k. cc)
        | inr (f, inr (under, inl (out, v, e))) ↦ rw e (
            search_enough fuel (push_all worklist (step s))
              (visited_run key visit step budget s worklist run out)
              (left fuel s worklist (length run.visited) under h))
        | inr (f, inr (under, inr (message, v, e))) ↦ rw e (λ k. cc)
      ]
    where
      left :
          (fuel : ℕ) (s : State) (worklist : List State) (seen : ℕ)
          → (leb budget (suc seen) || leb budget (length worklist)) ≡ false
          → rounds budget degree seen (suc (length worklist)) ≤ suc fuel
          → rounds budget degree (suc seen) (length (push_all worklist (step s))) ≤ fuel
      left fuel s worklist seen under h =
          let room : suc seen < budget = ground arith in
          omega (
            arith,
            spend budget degree seen (length worklist) (length (step s)) room (narrow s),
            length-push_all worklist (step s),
          )

  module _ (Good : State → Type 0) (stays : (s t : State) → Good s → IsIn t (step s) → Good t)
      (calm : (s : State) (o : Out) → Good s → (p : Out) × (visit s o ≡ ok p)) where
    abbrev AllGood : List State → Type 0
    AllGood worklist = (t : State) → IsIn t worklist → Good t

    later :
        (s : State) (worklist : List State)
        → AllGood (s ∷ worklist)
        → AllGood (push_all worklist (step s))
    later s worklist good t m = elim (IsIn-push_all t worklist (step s) m) [
      | inl w ↦ good t (inr w)
      | inr n ↦ stays s t (good s (inl refl)) n
    ]

    -- If no visit of a good state panics, a search among good states does not panic.
    pub search_calm :
        (fuel : ℕ) (worklist : List State) (run : Run Key Out) (message : String)
        → AllGood worklist
        → search key visit step budget fuel worklist run ≢ err (panicked message)
    unfolding search
    search_calm fuel [] run message good = λ k. cc
    search_calm zero (s ∷ worklist) run message good = λ k. cc
    search_calm (suc fuel) (s ∷ worklist) run message good =
        elim (round_cases key visit step budget fuel s worklist run) [
          | inl (t, e) ↦ rw e (search_calm fuel worklist run message (λ u m. good u (inr m)))
          | inr (f, inl (over, e)) ↦ rw e (λ k. cc)
          | inr (f, inr (under, inl (out, v, e))) ↦ rw e (
              search_calm fuel (push_all worklist (step s))
                (visited_run key visit step budget s worklist run out) message
                (later s worklist good))
          | inr (f, inr (under, inr (m, v, e))) ↦
              let (p, w) = calm s run.out (good s (inl refl)) in
              let clash : ok p ≡ err m = sym w ∙ v in cc
        ]

    -- With enough fuel a search among good states returns.
    pub search_total :
        (fuel : ℕ) (worklist : List State) (run : Run Key Out)
        → rounds budget degree (length run.visited) (length worklist) ≤ fuel
        → AllGood worklist
        → (final : Run Key Out) × (search key visit step budget fuel worklist run ≡ ok final)
    search_total fuel worklist run h good =
        elim (Result-cases (search key visit step budget fuel worklist run)) [
          | inl found ↦ found
          | inr (out_of_fuel, k) ↦ absurd (search_enough fuel worklist run h k)
          | inr (panicked m, k) ↦ absurd (search_calm fuel worklist run m good k)
        ]
