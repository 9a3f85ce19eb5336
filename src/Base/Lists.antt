-- ===== src/Base/Lists.antt =====
-- Lists as `Vec`, association lists as `BTreeMap`, and the iterator methods that the source calls.
use Prim.Native.Nat.{ℕ, suc, ◌+◌, Ordering}
use mathlib.Core.Path.{◌≡◌, refl, ap}
use mathlib.Core.Logic.{◌⊎◌, inl, inr}
use mathlib.Core.Bool.{Bool, true, false, ◌&&◌, ◌||◌}
use mathlib.Core.Option.{Option, none, some}
use mathlib.Core.List.{List, [], ◌∷◌, ◌++◌, map}
use native.Mathlib.Omega.{arith}
use tenjin_pangs.Base.Tests.{then_with, Eq, ◌==◌, if◌then◌else◌, Bool-cases}

module _ {ℓ} {A : Type ℓ} where
  abbrev pub length : List A → ℕ
  length [] = 0
  length (x ∷ xs) = suc (length xs)

  abbrev pub is_empty : List A → Bool
  is_empty [] = true
  is_empty (x ∷ xs) = false

  abbrev pub any : (A → Bool) → List A → Bool
  any p [] = false
  any p (x ∷ xs) = p x || any p xs

  abbrev pub all : (A → Bool) → List A → Bool
  all p [] = true
  all p (x ∷ xs) = p x && all p xs

  abbrev pub find : (A → Bool) → List A → Option A
  find p [] = none
  find p (x ∷ xs) = if p x then some x else find p xs

  abbrev pub keep : (A → Bool) → List A → List A
  keep p [] = []
  keep p (x ∷ xs) = let rest = keep p xs in if p x then x ∷ rest else rest

  abbrev pub first : List A → Option A
  first [] = none
  first (x ∷ xs) = some x

  -- Insertion behind the elements that are not greater: one step of a stable sort.
  pub insert_by : (A → A → Ordering) → A → List A → List A
  insert_by cmp a [] = a ∷ []
  insert_by cmp a (x ∷ xs) =
      let rest = insert_by cmp a xs in elim (cmp a x) [ Ordering.lt ↦ a ∷ (x ∷ xs) | _ ↦ x ∷ rest ]

  -- `[T]::sort_by`, the stable sort, inserting the elements in their order.
  pub sort_onto : (A → A → Ordering) → List A → List A → List A
  sort_onto cmp acc [] = acc
  sort_onto cmp acc (x ∷ xs) = sort_onto cmp (insert_by cmp x acc) xs

  unfoldable pub sort_by : (A → A → Ordering) → List A → List A
  unfolding sort_onto insert_by
  sort_by cmp xs = sort_onto cmp [] xs

  -- `Vec::dedup_by`, for a symmetric test: `prev` is the last element that was kept.
  pub dedup_from : (A → A → Bool) → A → List A → List A
  dedup_from same prev [] = []
  dedup_from same prev (x ∷ xs) = elim (same x prev) [
    | true ↦ dedup_from same prev xs
    | false ↦ x ∷ dedup_from same x xs
  ]

  unfoldable pub dedup_by : (A → A → Bool) → List A → List A
  unfolding dedup_from
  dedup_by same [] = []
  dedup_by same (x ∷ xs) = x ∷ dedup_from same x xs

  -- The order of vectors: by the first elements that differ, or by the length.
  unfoldable pub list_cmp : (A → A → Ordering) → List A → List A → Ordering
  list_cmp cmp [] [] = Ordering.eq
  list_cmp cmp [] (y ∷ ys) = Ordering.lt
  list_cmp cmp (x ∷ xs) [] = Ordering.gt
  list_cmp cmp (x ∷ xs) (y ∷ ys) = then_with (cmp x y) (list_cmp cmp xs ys)

  pub List-cases : (xs : List A) → (xs ≡ []) ⊎ ((x : A) × (rest : List A) × (xs ≡ x ∷ rest))
  List-cases [] = inl refl
  List-cases (x ∷ xs) = inr (x, xs, refl)

  -- Every element satisfies `P`.
  abbrev pub All {κ} : (A → Type κ) → List A → Type κ
  All P [] = Unit
  All P (x ∷ xs) = P x × All P xs

  pub All-imp {κ μ} :
      {P : A → Type κ} {Q : A → Type μ}
      → ((a : A) → P a → Q a)
      → (xs : List A) → All P xs
      → All Q xs
  All-imp f [] h = tt
  All-imp f (x ∷ xs) h = (f x h.0, All-imp f xs h.1)

  -- From two facts about every element, a third.
  pub All-imp₂ {κ μ ν} :
      {P : A → Type κ} {Q : A → Type μ} {R : A → Type ν}
      → ((a : A) → P a → Q a → R a)
      → (xs : List A) → All P xs
      → All Q xs
      → All R xs
  All-imp₂ f [] h k = tt
  All-imp₂ f (x ∷ xs) h k = (f x h.0 k.0, All-imp₂ f xs h.1 k.1)

  pub All-middle {κ} :
      (P : A → Type κ) {a : A} (before rest : List A) → All P (before ++ a ∷ rest) → P a
  All-middle P [] rest h = h.0
  All-middle P (x ∷ before) rest h = All-middle P before rest h.1

  pub length-append : (xs ys : List A) → length (xs ++ ys) ≡ length xs + length ys
  length-append [] ys = omega arith
  length-append (x ∷ xs) ys = omega (arith, length-append xs ys)

  pub All-insert_by {κ} :
      (P : A → Type κ) (cmp : A → A → Ordering) (a : A) (xs : List A)
      → P a
      → All P xs
      → All P (insert_by cmp a xs)
  unfolding insert_by
  All-insert_by P cmp a [] h hs = (h, tt)
  All-insert_by P cmp a (x ∷ xs) h hs =
      elim (cmp a x)
        as (λ o. All P (elim o [ Ordering.lt ↦ a ∷ (x ∷ xs) | _ ↦ x ∷ insert_by cmp a xs ])) [
          | Ordering.lt ↦ (h, hs)
          | Ordering.eq ↦ (hs.0, All-insert_by P cmp a xs h hs.1)
          | Ordering.gt ↦ (hs.0, All-insert_by P cmp a xs h hs.1)
        ]

  All-sort_onto {κ} :
      (P : A → Type κ) (cmp : A → A → Ordering) (acc xs : List A)
      → All P acc
      → All P xs
      → All P (sort_onto cmp acc xs)
  unfolding sort_onto
  All-sort_onto P cmp acc [] h hs = h
  All-sort_onto P cmp acc (x ∷ xs) h hs =
      All-sort_onto P cmp (insert_by cmp x acc) xs (All-insert_by P cmp x acc hs.0 h) hs.1

  pub All-sort_by {κ} :
      (P : A → Type κ) (cmp : A → A → Ordering) (xs : List A) → All P xs → All P (sort_by cmp xs)
  unfolding sort_by
  All-sort_by P cmp xs h = All-sort_onto P cmp [] xs tt h

  -- No element satisfies the test before the one that is found.
  pub find_sound : (p : A → Bool) (xs : List A) (a : A) → find p xs ≡ some a → p a ≡ true
  find_sound p [] a h = cc
  find_sound p (x ∷ xs) a h = elim (Bool-cases (p x)) [
    | inl t ↦ ground arith
    | inr f ↦ find_sound p xs a (rw f at h)
  ]

  pub any-eq-false : (p : A → Bool) (xs : List A) → any p xs ≡ false → All (λ x. p x ≡ false) xs
  any-eq-false p [] h = tt
  any-eq-false p (x ∷ xs) h = (ground arith, any-eq-false p xs (ground arith))

  pub All-any-false : (p : A → Bool) (xs : List A) → All (λ x. p x ≡ false) xs → any p xs ≡ false
  All-any-false p [] h = refl
  All-any-false p (x ∷ xs) h = rw h.0 (All-any-false p xs h.1)

  length-insert_by :
      (cmp : A → A → Ordering) (a : A) (xs : List A) → length (insert_by cmp a xs) ≡ length xs + 1
  unfolding insert_by
  length-insert_by cmp a [] = omega arith
  length-insert_by cmp a (x ∷ xs) = ground (arith, length-insert_by cmp a xs)

  length-sort_onto :
      (cmp : A → A → Ordering) (acc xs : List A)
      → length (sort_onto cmp acc xs) ≡ length acc + length xs
  unfolding sort_onto
  length-sort_onto cmp acc [] = omega arith
  length-sort_onto cmp acc (x ∷ xs) =
      omega (arith, length-sort_onto cmp (insert_by cmp x acc) xs, length-insert_by cmp x acc)

  pub length-sort_by : (cmp : A → A → Ordering) (xs : List A) → length (sort_by cmp xs) ≡ length xs
  unfolding sort_by
  length-sort_by cmp xs = omega (arith, length-sort_onto cmp [] xs)

  pub nil_of_length : (xs : List A) → length xs ≡ 0 → xs ≡ []
  nil_of_length [] h = refl
  nil_of_length (x ∷ xs) h = absurd (omega arith)

  pub sort_by_nil : (cmp : A → A → Ordering) (xs : List A) → sort_by cmp xs ≡ [] → xs ≡ []
  sort_by_nil cmp xs h = nil_of_length xs (omega (arith, length-sort_by cmp xs, ap length h))

  pub append_nil : (xs ys : List A) → xs ++ ys ≡ [] → (xs ≡ []) × (ys ≡ [])
  append_nil [] ys h = (refl, h)
  append_nil (x ∷ xs) ys h = cc

pub length-map {ℓ κ} :
    {A : Type ℓ} {B : Type κ} (f : A → B) (xs : List A) → length (map f xs) ≡ length xs
length-map f [] = refl
length-map f (x ∷ xs) = omega (arith, length-map f xs)

pub All-map {ℓ κ} :
    {A : Type ℓ} (P : A → Type κ) (f : A → A)
    → ((a : A) → P a → P (f a))
    → (xs : List A) → All P xs
    → All P (map f xs)
All-map P f h [] hs = tt
All-map P f h (x ∷ xs) hs = (h x hs.0, All-map P f h xs hs.1)

pub map_nil {ℓ κ} : {A : Type ℓ} {B : Type κ} (f : A → B) (xs : List A) → map f xs ≡ [] → xs ≡ []
map_nil f [] h = refl
map_nil f (x ∷ xs) h = cc

module _ {ℓ} {A : Type ℓ} ⦃e : Eq A⦄ where
  abbrev pub contains : List A → A → Bool
  contains [] a = false
  contains (x ∷ xs) a = a == x || contains xs a

  -- `BTreeMap::get` and `contains_key` over the list of entries.
  abbrev pub lookup {κ} : {V : Type κ} → A → List (A × V) → Option V
  lookup k [] = none
  lookup k ((j, v) ∷ m) = if j == k then some v else lookup k m

  abbrev pub contains_key {κ} : {V : Type κ} → A → List (A × V) → Bool
  contains_key k [] = false
  contains_key k ((j, v) ∷ m) = j == k || contains_key k m

  -- `BTreeMap::insert`, `None` dropped: the entry of the key is replaced.
  abbrev pub insert {κ} : {V : Type κ} → A → V → List (A × V) → List (A × V)
  insert k v [] = (k, v) ∷ []
  insert k v ((j, w) ∷ m) = if j == k then (k, v) ∷ m else (j, w) ∷ insert k v m

  pub contains_key-lookup {κ} :
      {V : Type κ} (k : A) (m : List (A × V)) → contains_key k m ≡ false → lookup k m ≡ none
  contains_key-lookup k [] h = refl
  contains_key-lookup k ((j, v) ∷ m) h = elim (Bool-cases (j == k)) [
    | inl t ↦ ground arith
    | inr f ↦ rw f (contains_key-lookup k m (rw f at h))
  ]
