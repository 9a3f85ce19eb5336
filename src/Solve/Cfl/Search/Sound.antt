-- ===== src/Solve/Cfl/Search/Sound.antt =====
-- What the work-list loop of crates/pangs-solve/src/cfl.rs records comes from states that the steps
-- lead to.
use tenjin_pangs.Base.{
  ℕ, true, false, List, [], ◌∷◌, Result, ok, Eq, contains, String, ◌≡◌, ◌⊎◌, inl, inr, IsIn, refl,
}
use tenjin_pangs.Solve.Cfl.Search.{Run, push_all, search, visited_run, is_spent}
use tenjin_pangs.Solve.Cfl.Search.Rounds.{search_rule}

-- The states that finitely many steps lead to.
pub data Reach {State : Type 0} (step : State → List State) (start : State) : State → Type 0 where
  here : Reach step start start
  further : {s t : State} → Reach step start s → IsIn t (step s) → Reach step start t

pub IsIn-push_all :
    {State : Type 0} (t : State) (worklist more : List State)
    → IsIn t (push_all worklist more)
    → IsIn t worklist ⊎ IsIn t more
IsIn-push_all t worklist [] h = inl h
IsIn-push_all t worklist (s ∷ more) h = elim (IsIn-push_all t (s ∷ worklist) more h) [
  | inl (inl e) ↦ inr (inl e)
  | inl (inr m) ↦ inl m
  | inr m ↦ inr (inr m)
]

module _ {State Key Out : Type 0} ⦃e : Eq Key⦄ (key : State → Key)
    (visit : State → Out → Result Out String) (step : State → List State) (budget : ℕ)
    (Has : Out → Type 0) (Emits : State → Type 0)
    (records : (s : State) (o p : Out) → visit s o ≡ ok p → Has p → Has o ⊎ Emits s)
    (start : State) where
  abbrev Comes : List State → Run Key Out → Type 0
  Comes worklist run =
      ((t : State) → IsIn t worklist → Reach step start t)
      × (Has run.out → (s : State) × Reach step start s × Emits s)

  -- A search from one state that has recorded nothing records only what a state reached from it
  -- emits.
  pub search_sound :
      (fuel : ℕ) (run final : Run Key Out)
      → ¬ Has run.out
      → search key visit step budget fuel (start ∷ []) run ≡ ok final
      → Has final.out
      → (s : State) × Reach step start s × Emits s
  search_sound fuel run final nothing r h =
      elim (search_rule key visit step budget Comes old new fuel (start ∷ []) run final
        (first, λ k. absurd (nothing k)) r) [
          | inl (waiting, found) ↦ found h
          | inr (s, rest, before, (waiting, found), e) ↦ found (rw e at h)
        ]
    where
      first : (t : State) → IsIn t (start ∷ []) → Reach step start t
      first t (inl q) = rw q here
      first t (inr m) = absurd m

      old :
          (s : State) (worklist : List State) (run : Run Key Out)
          → Comes (s ∷ worklist) run
          → contains run.visited (key s) ≡ true
          → Comes worklist run
      old s worklist run (waiting, found) t = (λ u m. waiting u (inr m), found)

      new :
          (s : State) (worklist : List State) (run : Run Key Out) (out : Out)
          → Comes (s ∷ worklist) run
          → contains run.visited (key s) ≡ false
          → is_spent key visit step budget worklist run ≡ false
          → visit s run.out ≡ ok out
          → Comes
              (push_all worklist (step s))
              (visited_run key visit step budget s worklist run out)
      new s worklist run out (waiting, found) f under v = (
        λ u m. elim (IsIn-push_all u worklist (step s) m) [
          | inl w ↦ waiting u (inr w)
          | inr n ↦ further (waiting s (inl refl)) n
        ],
        λ k. elim (records s run.out out v k) [
          | inl k ↦ found k
          | inr q ↦ (s, waiting s (inl refl), q)
        ],
      )
