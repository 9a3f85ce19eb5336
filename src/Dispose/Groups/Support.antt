-- ===== src/Dispose/Groups/Support.antt =====
-- What a coupling group as a whole offers to a joint strategy of crates/pangs-dispose/src/lib.rs, and
-- which of its members the cascade left open.
use tenjin_pangs.Base.{
  ◌≡◌, ◌≢◌, refl, true, Option, none, some, List, [], ◌∷◌, All, arith, inl, inr, not, ◌⊎◌,
  Option-cases, map_nil,
}
use tenjin_pangs.Manifest.Strategy.{Strategy, once_lock, mutex, unhandled, strategy_eq}
use tenjin_pangs.Manifest.Key.{Key, key_eq}
use tenjin_pangs.Manifest.Facts.{Certificate}
use tenjin_pangs.Manifest.Records.{GlobalRecord, Disposition, CouplingGroup, OnceLockGroupSupport}
use tenjin_pangs.Dispose.Groups.{
  find_global, is_per_global, member_allows, members_allow, for_first, once_lock_failures,
  mutex_failures, support_failures,
}

open_choice :
    (s : Strategy) → not (is_per_global s) ≡ true → (s ≡ once_lock) ⊎ (s ≡ mutex) ⊎ (s ≡ unhandled)
open_choice once_lock h = inl refl
open_choice mutex h = inr (inl refl)
open_choice unhandled h = inr (inr refl)
open_choice _ h = cc

module _ {V : Type 0} where
  -- A certificate that failed says why. The manifest's validation does not check this of a group.
  abbrev pub IsExplained : Option (Certificate V) → Type 0
  IsExplained none = Unit
  IsExplained (some (Certificate.certified c x)) = Unit
  IsExplained (some (Certificate.failed codes witnesses r d x)) = witnesses ≢ []

  abbrev pub Publishes : Option (OnceLockGroupSupport V) → Type 0
  Publishes none = ⊥
  Publishes (some (OnceLockGroupSupport.supported p i c x)) = Unit
  Publishes (some (OnceLockGroupSupport.unsupported w x)) = ⊥

  abbrev pub Locks : Option (Certificate V) → Type 0
  Locks none = ⊥
  Locks (some (Certificate.certified c x)) = Unit
  Locks (some (Certificate.failed codes witnesses r d x)) = ⊥

  -- The group as a whole supports the strategy: its common publication is supported, or its mutex
  -- certificate is certified.
  abbrev pub Supports : CouplingGroup V → Strategy → Type 0
  Supports group once_lock = Publishes group.strategy_support.once_lock
  Supports group mutex = Locks group.strategy_support.mutex
  Supports group _ = Unit

  Publishes-of_nil :
      (ks : List Key) (slot : Option (OnceLockGroupSupport V))
      → ks ≢ []
      → for_first ks (once_lock_failures slot) ≡ []
      → Publishes slot
  Publishes-of_nil [] slot n h = absurd (n refl)
  Publishes-of_nil (k ∷ ks) none n h = cc
  Publishes-of_nil (k ∷ ks) (some (OnceLockGroupSupport.supported p i c x)) n h = tt
  Publishes-of_nil (k ∷ ks) (some (OnceLockGroupSupport.unsupported w x)) n h = cc

  Locks-of_nil :
      (ks : List Key) (slot : Option (Certificate V))
      → ks ≢ []
      → IsExplained slot
      → for_first ks (mutex_failures slot) ≡ []
      → Locks slot
  Locks-of_nil [] slot n explained h = absurd (n refl)
  Locks-of_nil (k ∷ ks) none n explained h = cc
  Locks-of_nil (k ∷ ks) (some (Certificate.certified c x)) n explained h = tt
  Locks-of_nil (k ∷ ks) (some (Certificate.failed codes ws r d x)) n explained h =
      explained (map_nil _ ws h)

  pub support_failures_nil :
      (group : CouplingGroup V) (s : Strategy)
      → group.members ≢ []
      → IsExplained group.strategy_support.mutex
      → support_failures group s ≡ []
      → Supports group s
  support_failures_nil group once_lock n explained h = Publishes-of_nil group.members _ n h
  support_failures_nil group mutex n explained h = Locks-of_nil group.members _ n explained h
  support_failures_nil group _ n explained h = tt

  -- The key is that of a global with a disposition, and the cascade gave it no strategy of its own:
  -- what it chose is a joint strategy or none.
  abbrev pub IsOpen : List (GlobalRecord V) → Key → Type 0
  IsOpen globals k =
      (g : GlobalRecord V) × (d : Disposition V) × (find_global globals k ≡ some g)
      × (g.disposition ≡ some d)
      × ((d.cascade_chosen ≡ once_lock)
          ⊎ (d.cascade_chosen ≡ mutex)
          ⊎ (d.cascade_chosen ≡ unhandled))

  member_allows_sound :
      (globals : List (GlobalRecord V)) (k : Key)
      → member_allows (find_global globals k) ≡ true
      → IsOpen globals k
  member_allows_sound globals k h = elim (Option-cases (find_global globals k)) [
    | inl e ↦ cc (rw e at h)
    | inr (g, e) ↦ elim (Option-cases g.disposition) [
      | inl e' ↦ cc (rw (e, e') at h)
      | inr (d, e') ↦ (g, d, e, e', open_choice d.cascade_chosen (rw (e, e') at h))
    ]
  ]

  pub members_allow_sound :
      (globals : List (GlobalRecord V)) (ks : List Key)
      → members_allow globals ks ≡ true
      → All (IsOpen globals) ks
  unfolding members_allow
  members_allow_sound globals [] h = tt
  members_allow_sound globals (k ∷ ks) h =
      (member_allows_sound globals k (ground arith), members_allow_sound globals ks (ground arith))
