-- ===== src/Solve/Cfl/Search.antt =====
-- The work-list loop that the two callee queries of crates/pangs-solve/src/cfl.rs share: they differ
-- in the states, the keys under which states count as visited, what is recorded at a state and
-- the states that follow it.
pub mod Rounds
pub mod Termination
pub mod Sound
pub mod Complete
pub mod Budget
use tenjin_pangs.Base.{
  ℕ, zero, suc, ◌+◌, String, Bool, true, false, List, [], ◌∷◌, Result, ok, err, ◌>>=◌, Eq, leb,
  contains, length, ◌||◌, map_err,
}

-- How a search ends without an answer: the fuel of the model, or a panic with its message.
pub data Stop : Type 0 where
  out_of_fuel : Stop
  panicked : String → Stop

-- `visited_states` is the length of `visited`.
pub record Run (Key Out : Type 0) : Type 0 where
  pub visited : List Key
  pub max_worklist : ℕ
  pub truncated : Bool
  pub out : Out

-- The work list has its back at the head, so that `pop_back` takes the head.
abbrev pub push_all : {State : Type 0} → List State → List State → List State
push_all worklist [] = worklist
push_all worklist (s ∷ more) = push_all (s ∷ worklist) more

abbrev pub max_ℕ : ℕ → ℕ → ℕ
max_ℕ a b = elim (leb a b) [ true ↦ b | false ↦ a ]

module _ {State Key Out : Type 0} ⦃e : Eq Key⦄ (key : State → Key)
    (visit : State → Out → Result Out String) (step : State → List State) (budget : ℕ) where
  -- The run behind a state that was visited, and behind the one at which the budget is spent.
  abbrev pub visited_run : State → List State → Run Key Out → Out → Run Key Out
  visited_run s worklist run out = record {
    visited = key s ∷ run.visited;
    max_worklist = max_ℕ run.max_worklist (length worklist + 1);
    truncated = run.truncated;
    out = out;
  }

  abbrev pub truncated_run : State → List State → Run Key Out → Run Key Out
  truncated_run s worklist run = record {
    visited = key s ∷ run.visited;
    max_worklist = max_ℕ run.max_worklist (length worklist + 1);
    truncated = true;
    out = run.out;
  }

  abbrev pub is_spent : List State → Run Key Out → Bool
  is_spent worklist run = leb budget (suc (length run.visited)) || leb budget (length worklist)

  -- The `while let` loop, on fuel for its rounds.
  unfoldable pub search : ℕ → List State → Run Key Out → Result (Run Key Out) Stop
  search fuel [] run = ok run
  search zero (s ∷ worklist) run = err out_of_fuel
  search (suc fuel) (s ∷ worklist) run = elim (contains run.visited (key s)) [
    | true ↦ search fuel worklist run
    | false ↦ elim (is_spent worklist run) [
      | true ↦ ok (truncated_run s worklist run)
      | false ↦ map_err panicked (visit s run.out) >>= λ out.
          search fuel (push_all worklist (step s)) (visited_run s worklist run out)
    ]
  ]
