-- ===== src/Base/Maps.antt =====
-- Where the entries of an association list come from.
use mathlib.Core.Path.{◌≡◌, refl, sym, ap, ◌∙◌}
use mathlib.Core.Logic.{◌⊎◌, inl, inr, ◌≢◌}
use mathlib.Core.Bool.{Bool, true, false}
use mathlib.Core.Option.{some}
use mathlib.Core.List.{List, [], ◌∷◌}
use tenjin_pangs.Base.Tests.{Eq, ◌==◌, if◌then◌else◌, Bool-cases, beq_refl, beq_ne, eq_of_beq}
use tenjin_pangs.Base.Lists.{lookup, insert}
use tenjin_pangs.Base.Members.{IsIn}

-- Collecting into a map: a later entry replaces an earlier one with its key.
abbrev pub collect : {K V : Type 0} ⦃e : Eq K⦄ → List (K × V) → List (K × V) → List (K × V)
collect m [] = m
collect m ((k, v) ∷ more) = collect (insert k v m) more

module _ {K V : Type 0} ⦃e : Eq K⦄ where
  IsIn-insert :
      (k : K) (v : V) (m : List (K × V)) (x : K × V)
      → IsIn x (insert k v m)
      → (x ≡ (k, v)) ⊎ IsIn x m
  IsIn-insert k v [] x (inl q) = inl q
  IsIn-insert k v [] x (inr h) = absurd h
  IsIn-insert k v ((j, w) ∷ m) x h = split (j == k) h (IsIn-insert k v m x)
    where
      split :
          (b : Bool)
          → IsIn x (if b then (k, v) ∷ m else (j, w) ∷ insert k v m)
          → (IsIn x (insert k v m) → (x ≡ (k, v)) ⊎ IsIn x m)
          → (x ≡ (k, v)) ⊎ IsIn x ((j, w) ∷ m)
      split true (inl q) rest = inl q
      split true (inr h) rest = inr (inr h)
      split false (inl q) rest = inr (inl q)
      split false (inr h) rest = elim (rest h) [ inl q ↦ inl q | inr n ↦ inr (inr n) ]

  pub IsIn-collect :
      (m xs : List (K × V)) (x : K × V) → IsIn x (collect m xs) → IsIn x m ⊎ IsIn x xs
  IsIn-collect m [] x h = inl h
  IsIn-collect m ((k, v) ∷ xs) x h = elim (IsIn-collect (insert k v m) xs x h) [
    | inl n ↦ elim (IsIn-insert k v m x n) [ inl q ↦ inr (inl q) | inr n ↦ inl n ]
    | inr n ↦ inr (inr n)
  ]

  pub lookup-IsIn :
      (k : K) (m : List (K × V)) (v : V) → lookup k m ≡ some v → (j : K) × IsIn (j, v) m
  lookup-IsIn k [] v h = cc
  lookup-IsIn k ((j, w) ∷ m) v h = split (j == k) h (lookup-IsIn k m v)
    where
      split :
          (b : Bool)
          → (if b then some w else lookup k m) ≡ some v
          → (lookup k m ≡ some v → (i : K) × IsIn (i, v) m)
          → (i : K) × IsIn (i, v) ((j, w) ∷ m)
      split true q rest = (j, inl (ap (λ u. (j, u)) (same q)))
        where
          same : some w ≡ some v → v ≡ w
          same q = cc
      split false q rest = let (i, n) = rest q in (i, inr n)

  pub lookup-insert : (k : K) (v : V) (m : List (K × V)) → lookup k (insert k v m) ≡ some v
  lookup-insert k v [] = rw (lookup, beq_refl k) refl
  lookup-insert k v ((j, w) ∷ m) = elim (Bool-cases (j == k)) [
    | inl t ↦ rw (insert, t, lookup, beq_refl k) refl
    | inr f ↦ rw (insert, f, lookup, f) (lookup-insert k v m)
  ]

  pub lookup-insert_other :
      (i k : K) (v : V) (m : List (K × V)) → i ≢ k → lookup i (insert k v m) ≡ lookup i m
  lookup-insert_other i k v [] h = rw (lookup, beq_ne k i (λ q. h (sym q))) refl
  lookup-insert_other i k v ((j, w) ∷ m) h = elim (Bool-cases (j == k)) [
    | inl t ↦
        rw
          (
            insert,
            lookup,
            t,
            beq_ne k i (λ q. h (sym q)),
            beq_ne j i (λ q. h (sym q ∙ eq_of_beq j k t)),
          )
          refl
    | inr f ↦ elim (Bool-cases (j == i)) [
      | inl s ↦ rw (insert, lookup, f, s) refl
      | inr s ↦ rw (insert, lookup, f, s) (lookup-insert_other i k v m h)
    ]
  ]
