-- ===== src/Solve/Cfl/Search/Complete.antt =====
-- The work-list loop of crates/pangs-solve/src/cfl.rs, with a key that tells states apart, records all
-- that the reached states emit, unless its budget cuts it short.
use tenjin_pangs.Base.{
  ℕ, true, false, List, [], ◌∷◌, Result, ok, Eq, contains, String, ◌≡◌, ◌⊎◌, inl, inr, IsIn, refl,
  ap, contains_iff,
}
use tenjin_pangs.Solve.Cfl.Search.{Run, push_all, search, visited_run, truncated_run, is_spent}
use tenjin_pangs.Solve.Cfl.Search.Rounds.{search_rule}
use tenjin_pangs.Solve.Cfl.Search.Sound.{Reach, here, further}

pub push_all-IsIn :
    {State : Type 0} (t : State) (worklist more : List State)
    → IsIn t worklist ⊎ IsIn t more
    → IsIn t (push_all worklist more)
push_all-IsIn t worklist [] (inl m) = m
push_all-IsIn t worklist [] (inr m) = absurd m
push_all-IsIn t worklist (s ∷ more) (inl m) = push_all-IsIn t (s ∷ worklist) more (inl (inr m))
push_all-IsIn t worklist (s ∷ more) (inr (inl e)) =
    push_all-IsIn t (s ∷ worklist) more (inl (inl e))
push_all-IsIn t worklist (s ∷ more) (inr (inr m)) = push_all-IsIn t (s ∷ worklist) more (inr m)

module _ {State Key Out : Type 0} ⦃e : Eq Key⦄ (key : State → Key)
    (visit : State → Out → Result Out String) (step : State → List State) (budget : ℕ)
    (Has : Out → Type 0) (Emits : State → Type 0)
    (keeps : (s : State) (o p : Out) → visit s o ≡ ok p → Has o ⊎ Emits s → Has p)
    (injective : (s t : State) → key s ≡ key t → s ≡ t) (start : State) where
  -- The state waits or was visited.
  abbrev IsSeen : List State → Run Key Out → State → Type 0
  IsSeen worklist run t = IsIn t worklist ⊎ IsIn (key t) run.visited

  -- The start is seen, with each visited state its next ones are, and what they emit is recorded.
  abbrev IsClosed : List State → Run Key Out → Type 0
  IsClosed worklist run =
      IsSeen worklist run start
      × ((s t : State) → IsIn (key s) run.visited → IsIn t (step s) → IsSeen worklist run t)
      × ((s : State) → IsIn (key s) run.visited → Emits s → Has run.out)

  skipped-IsClosed :
      (s : State) (worklist : List State) (run : Run Key Out)
      → IsClosed (s ∷ worklist) run
      → contains run.visited (key s) ≡ true
      → IsClosed worklist run
  skipped-IsClosed s worklist run (first, next, emitted) t =
      (drop start first, λ u v m n. drop v (next u v m n), emitted)
    where
      drop : (u : State) → IsSeen (s ∷ worklist) run u → IsSeen worklist run u
      drop u (inl (inl q)) = inr (rw q ((contains_iff run.visited (key s)).0 t))
      drop u (inl (inr m)) = inl m
      drop u (inr m) = inr m

  visited-IsClosed :
      (s : State) (worklist : List State) (run : Run Key Out) (out : Out)
      → IsClosed (s ∷ worklist) run
      → contains run.visited (key s) ≡ false
      → is_spent key visit step budget worklist run ≡ false
      → visit s run.out ≡ ok out
      → IsClosed (push_all worklist (step s)) (visited_run key visit step budget s worklist run out)
  visited-IsClosed s worklist run out (first, next, emitted) f under v =
      (carry start first, λ u t m n. after u t m n, λ u m q. now u m q)
    where
      carry :
          (u : State)
          → IsSeen (s ∷ worklist) run u
          → IsSeen
              (push_all worklist (step s))
              (visited_run key visit step budget s worklist run out)
              u
      carry u (inl (inl q)) = inr (inl (ap key q))
      carry u (inl (inr m)) = inl (push_all-IsIn u worklist (step s) (inl m))
      carry u (inr m) = inr (inr m)

      after :
          (u t : State)
          → IsIn (key u) (key s ∷ run.visited)
          → IsIn t (step u)
          → IsSeen
              (push_all worklist (step s))
              (visited_run key visit step budget s worklist run out)
              t
      after u t (inl q) n =
          inl (push_all-IsIn t worklist (step s) (inr (rw (injective u s q) at n)))
      after u t (inr m) n = carry t (next u t m n)

      now : (u : State) → IsIn (key u) (key s ∷ run.visited) → Emits u → Has out
      now u (inl q) k = keeps s run.out out v (inr (rw (injective u s q) at k))
      now u (inr m) k = keeps s run.out out v (inl (emitted u m k))

  settled : {B : Type 0} → ⊥ ⊎ B → B
  settled (inl m) = absurd m
  settled (inr m) = m

  all_visited :
      (final : Run Key Out)
      → IsClosed [] final
      → (s : State) → Reach step start s
      → IsIn (key s) final.visited
  all_visited final (first, next, emitted) s here = settled first
  all_visited final (first, next, emitted) s (further {s = t} r m) =
      settled (next t s (all_visited final (first, next, emitted) t r) m)

  -- A search from one state that was not truncated has recorded what a state reached from it emits.
  pub search_complete :
      (fuel : ℕ) (run final : Run Key Out)
      → run.visited ≡ []
      → search key visit step budget fuel (start ∷ []) run ≡ ok final
      → final.truncated ≡ false
      → (s : State) → Reach step start s
      → Emits s
      → Has final.out
  search_complete fuel run final empty r whole s h k =
      elim (search_rule key visit step budget IsClosed skipped-IsClosed visited-IsClosed fuel
        (start ∷ []) run final begin r) [
          | inl (first, next, emitted) ↦ emitted s (all_visited final (first, next, emitted) s h) k
          | inr (u, rest, before, i, q) ↦ absurd (cut u rest before q whole)
        ]
    where
      none_yet : (u : State) → IsIn (key u) run.visited → ⊥
      none_yet u m = rw empty at m

      begin : IsClosed (start ∷ []) run
      begin = (inl (inl refl), λ u t m n. absurd (none_yet u m), λ u m q. absurd (none_yet u m))

      cut :
          (u : State) (rest : List State) (before : Run Key Out)
          → final ≡ truncated_run key visit step budget u rest before
          → final.truncated ≡ false
          → ⊥
      cut u rest before q w = let x = ap (λ (r : Run Key Out). r.truncated) q in cc
