-- ===== src/Base/Members.antt =====
-- The elements of a list, for sets and work lists of which only the members count.
use Prim.Native.Nat.{ℕ, zero, suc, ◌<◌, ◌≤◌}
use mathlib.Core.Option.{Option, none, some}
use native.Mathlib.Omega.{arith}
use mathlib.Core.Path.{◌≡◌, refl, ap}
use mathlib.Core.Logic.{◌⊎◌, inl, inr, ◌↔◌}
use mathlib.Core.Bool.{Bool, true, false}
use mathlib.Core.List.{List, [], ◌∷◌, ◌++◌, map}
use tenjin_pangs.Base.Tests.{Option-cases, Eq, ◌==◌, if◌then◌else◌, Bool-cases, eq_of_beq, beq_refl}
use tenjin_pangs.Base.Lists.{keep, contains, length}

module _ {A : Type 0} where
  abbrev pub IsIn : A → List A → Type 0
  IsIn a [] = ⊥
  IsIn a (x ∷ xs) = (a ≡ x) ⊎ IsIn a xs

  pub IsIn-left : (a : A) (xs ys : List A) → IsIn a xs → IsIn a (xs ++ ys)
  IsIn-left a [] ys h = absurd h
  IsIn-left a (x ∷ xs) ys (inl e) = inl e
  IsIn-left a (x ∷ xs) ys (inr h) = inr (IsIn-left a xs ys h)

  pub IsIn-right : (a : A) (xs ys : List A) → IsIn a ys → IsIn a (xs ++ ys)
  IsIn-right a [] ys h = h
  IsIn-right a (x ∷ xs) ys h = inr (IsIn-right a xs ys h)

  pub IsIn-append : (a : A) (xs ys : List A) → IsIn a (xs ++ ys) → IsIn a xs ⊎ IsIn a ys
  IsIn-append a [] ys h = inr h
  IsIn-append a (x ∷ xs) ys (inl e) = inl (inl e)
  IsIn-append a (x ∷ xs) ys (inr h) = elim (IsIn-append a xs ys h) [
    | inl p ↦ inl (inr p)
    | inr q ↦ inr q
  ]

  keep_step :
      (p : A → Bool) (a x : A) (xs : List A) (b : Bool)
      → p x ≡ b
      → IsIn a (keep p xs) ↔ (IsIn a xs × (p a ≡ true))
      → IsIn a (if b then x ∷ keep p xs else keep p xs) ↔ (IsIn a (x ∷ xs) × (p a ≡ true))
  keep_step p a x xs true t rest = (front, λ h. back h.0 h.1)
    where
      front : IsIn a (x ∷ keep p xs) → IsIn a (x ∷ xs) × (p a ≡ true)
      front (inl e) = (inl e, rw e t)
      front (inr h) = let (m, q) = rest.0 h in (inr m, q)

      back : IsIn a (x ∷ xs) → p a ≡ true → IsIn a (x ∷ keep p xs)
      back (inl e) q = inl e
      back (inr m) q = inr (rest.1 (m, q))
  keep_step p a x xs false t rest = (λ h. let (m, q) = rest.0 h in (inr m, q), λ h. back h.0 h.1)
    where
      back : IsIn a (x ∷ xs) → p a ≡ true → IsIn a (keep p xs)
      back (inl e) q = absurd (apart e q)
        where
          apart : a ≡ x → p a ≡ true → ⊥
          apart e q = cc
      back (inr m) q = rest.1 (m, q)

  pub IsIn-keep :
      (p : A → Bool) (a : A) (xs : List A) → IsIn a (keep p xs) ↔ (IsIn a xs × (p a ≡ true))
  IsIn-keep p a [] = (λ h. absurd h, λ h. absurd h.0)
  IsIn-keep p a (x ∷ xs) = keep_step p a x xs (p x) refl (IsIn-keep p a xs)

  -- `slice::get`.
  abbrev pub get_elem? : List A → ℕ → Option A
  get_elem? [] n = none
  get_elem? (x ∷ xs) zero = some x
  get_elem? (x ∷ xs) (suc n) = get_elem? xs n

  pub get_elem?-some : (xs : List A) (n : ℕ) → n < length xs → (x : A) × (get_elem? xs n ≡ some x)
  get_elem?-some [] n h = absurd (omega arith)
  get_elem?-some (x ∷ xs) zero h = (x, refl)
  get_elem?-some (x ∷ xs) (suc n) h = get_elem?-some xs n (omega arith)

  pub length-keep : (p : A → Bool) (xs : List A) → length (keep p xs) ≤ length xs
  length-keep p [] = omega arith
  length-keep p (x ∷ xs) = ground (arith, length-keep p xs)

-- `Iterator::filter_map`.
abbrev pub filter_map : {A : Type 0} {B : Type 0} → (A → Option B) → List A → List B
filter_map f [] = []
filter_map f (x ∷ xs) = let rest = filter_map f xs in elim (f x) [ none ↦ rest | some b ↦ b ∷ rest ]

pub IsIn-map :
    {A : Type 0} {B : Type 0} (f : A → B) (b : B) (xs : List A)
    → IsIn b (map f xs)
    → (a : A) × IsIn a xs × (b ≡ f a)
IsIn-map f b [] h = absurd h
IsIn-map f b (x ∷ xs) (inl e) = (x, inl refl, e)
IsIn-map f b (x ∷ xs) (inr h) = let (a, m, e) = IsIn-map f b xs h in (a, inr m, e)

pub IsIn-filter_map :
    {A B : Type 0} (f : A → Option B) (b : B) (xs : List A)
    → IsIn b (filter_map f xs)
    → (a : A) × IsIn a xs × (f a ≡ some b)
IsIn-filter_map f b [] m = absurd m
IsIn-filter_map {A = A} {B = B} f b (x ∷ xs) m = from (f x) refl m (IsIn-filter_map f b xs)
  where
    from :
        (o : Option B)
        → f x ≡ o
        → IsIn b (elim o [ none ↦ filter_map f xs | some c ↦ c ∷ filter_map f xs ])
        → (IsIn b (filter_map f xs) → (a : A) × IsIn a xs × (f a ≡ some b))
        → (a : A) × IsIn a (x ∷ xs) × (f a ≡ some b)
    from none e m rest = let (a, n, q) = rest m in (a, inr n, q)
    from (some c) e (inl i) rest = (x, inl refl, rw i e)
    from (some c) e (inr m) rest = let (a, n, q) = rest m in (a, inr n, q)

pub filter_map-IsIn :
    {A B : Type 0} (f : A → Option B) (a : A) (b : B) (xs : List A)
    → IsIn a xs
    → f a ≡ some b
    → IsIn b (filter_map f xs)
filter_map-IsIn f a b [] m e = absurd m
filter_map-IsIn f a b (x ∷ xs) (inl i) e = rw (filter_map, rw i at e) (inl refl)
filter_map-IsIn f a b (x ∷ xs) (inr m) e = elim (Option-cases (f x)) [
  | inl n ↦ rw (filter_map, n) (filter_map-IsIn f a b xs m e)
  | inr (c, n) ↦ rw (filter_map, n) (inr (filter_map-IsIn f a b xs m e))
]

pub map-IsIn : {A B : Type 0} (f : A → B) (a : A) (xs : List A) → IsIn a xs → IsIn (f a) (map f xs)
map-IsIn f a [] m = absurd m
map-IsIn f a (x ∷ xs) (inl e) = inl (ap f e)
map-IsIn f a (x ∷ xs) (inr m) = inr (map-IsIn f a xs m)

pub length-filter_map :
    {A B : Type 0} (f : A → Option B) (xs : List A) → length (filter_map f xs) ≤ length xs
length-filter_map f [] = omega arith
length-filter_map f (x ∷ xs) = ground (arith, length-filter_map f xs)

module _ {A : Type 0} ⦃e : Eq A⦄ where
  pub contains_iff : (xs : List A) (a : A) → (contains xs a ≡ true) ↔ IsIn a xs
  contains_iff [] a = (λ h. cc, λ h. absurd h)
  contains_iff (x ∷ xs) a = elim (Bool-cases (a == x)) [
    | inl t ↦ (λ h. inl (eq_of_beq a x t), λ h. rw t refl)
    | inr f ↦
        (λ h. inr ((contains_iff xs a).0 (rw f at h)), λ h. rw f (later f h (contains_iff xs a).1))
  ]
    where
      later :
          (a == x) ≡ false
          → IsIn a (x ∷ xs)
          → (IsIn a xs → contains xs a ≡ true)
          → contains xs a ≡ true
      later f (inl t) next = absurd (apart f t)
        where
          apart : (a == x) ≡ false → a ≡ x → ⊥
          apart f t = let same = beq_refl x in let other : (x == x) ≡ false = rw t at f in cc
      later f (inr m) next = next m

  -- `BTreeSet::insert` and `HashSet::insert`, as a list without repetitions whose order is left open.
  abbrev pub insert_new : A → List A → List A
  insert_new a xs = if contains xs a then xs else a ∷ xs

  pub IsIn-insert_new : (b a : A) (xs : List A) → IsIn b (insert_new a xs) ↔ ((b ≡ a) ⊎ IsIn b xs)
  IsIn-insert_new b a xs = elim (Bool-cases (contains xs a)) [
    | inl t ↦ (λ h. inr (rw t at h), λ h. rw t (known h t))
    | inr f ↦ (λ h. rw f at h, λ h. rw f h)
  ]
    where
      known : (b ≡ a) ⊎ IsIn b xs → contains xs a ≡ true → IsIn b xs
      known (inl e) t = rw e ((contains_iff xs a).0 t)
      known (inr m) t = m
