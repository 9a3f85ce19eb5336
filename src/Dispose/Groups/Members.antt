-- ===== src/Dispose/Groups/Members.antt =====
-- How `resolve_groups` of crates/pangs-dispose/src/lib.rs changes the members of a group.
use tenjin_pangs.Base.{
  ◌≡◌, refl, ◌∙◌, ap, Bool, true, false, ◌&&◌, Option, none, some, List, [], ◌∷◌, ◌==◌, ok, is_some,
  contains, All, arith, Bool-cases, Option-cases, inl, inr, eq_of_beq, beq_comm, beq_ne,
  if◌then◌else◌,
}
use tenjin_pangs.Manifest.Strategy.{Strategy}
use tenjin_pangs.Manifest.Key.{Key, key_eq}
use tenjin_pangs.Manifest.Records.{GlobalRecord, Disposition}
use tenjin_pangs.Dispose.Groups.{find_global}
use tenjin_pangs.Dispose.Groups.Resolve.{constrain, set_member, set_members}

module _ {V : Type 0} where
  -- The later record has the key, the facts and the history of the cascade of the earlier one.
  pub record SameHistory (g g' : GlobalRecord V) : Type 0 where
    pub key : g'.key ≡ g.key
    pub facts : g'.facts ≡ g.facts
    pub history :
        (d : Disposition V)
        → g.disposition ≡ some d
        → (d' : Disposition V) × (g'.disposition ≡ some d')
          × (d'.cascade_chosen ≡ d.cascade_chosen)
          × (d'.cascade_trace ≡ d.cascade_trace)

  -- The same globals in the same places, each with its history.
  abbrev pub SameHistories : List (GlobalRecord V) → List (GlobalRecord V) → Type 0
  SameHistories [] [] = Unit
  SameHistories (g ∷ gs) (g' ∷ gs') = SameHistory g g' × SameHistories gs gs'
  SameHistories [] (g' ∷ gs') = ⊥
  SameHistories (g ∷ gs) [] = ⊥

  pub SameHistory-refl : (g : GlobalRecord V) → SameHistory g g
  SameHistory-refl g = record { key = refl; facts = refl; history = λ d e. (d, e, refl, refl) }

  pub SameHistories-refl : (gs : List (GlobalRecord V)) → SameHistories gs gs
  SameHistories-refl [] = tt
  SameHistories-refl (g ∷ gs) = (SameHistory-refl g, SameHistories-refl gs)

  SameHistory-trans : (a b c : GlobalRecord V) → SameHistory a b → SameHistory b c → SameHistory a c
  SameHistory-trans a b c p q = record {
    key = q.key ∙ p.key;
    facts = q.facts ∙ p.facts;
    history = λ d e.
        let (d', e', s, t) = p.history d e in
        let (d'', e'', s', t') = q.history d' e' in (d'', e'', s' ∙ s, t' ∙ t);
  }

  pub SameHistories-trans :
      (xs ys zs : List (GlobalRecord V))
      → SameHistories xs ys
      → SameHistories ys zs
      → SameHistories xs zs
  SameHistories-trans [] [] [] p q = tt
  SameHistories-trans (x ∷ xs) (y ∷ ys) (z ∷ zs) p q =
      (SameHistory-trans x y z p.0 q.0, SameHistories-trans xs ys zs p.1 q.1)
  SameHistories-trans [] [] (z ∷ zs) p q = elim q [ ]
  SameHistories-trans [] (y ∷ ys) zs p q = elim p [ ]
  SameHistories-trans (x ∷ xs) [] zs p q = elim p [ ]
  SameHistories-trans (x ∷ xs) (y ∷ ys) [] p q = elim q [ ]

  abbrev pub IsFinal : GlobalRecord V → Type 0
  IsFinal g = is_some g.disposition ≡ true

  -- The choice for the first global with the key.
  abbrev pub chosen_of : Option (GlobalRecord V) → Option Strategy
  chosen_of none = none
  chosen_of (some g) = elim g.disposition [ none ↦ none | some d ↦ some d.chosen ]

  abbrev pub chosen_at : List (GlobalRecord V) → Key → Option Strategy
  chosen_at gs k = chosen_of (find_global gs k)

  -- The list after a member, or all members, took the strategy.
  pub record Changed (s : Strategy) (hit : Key → Bool) (gs gs' : List (GlobalRecord V))
      : Type 0 where
    pub same : SameHistories gs gs'
    pub final : All IsFinal gs'
    pub found : (j : Key) → is_some (find_global gs' j) ≡ is_some (find_global gs j)
    pub choice :
        (j : Key)
        → chosen_at gs' j ≡ (if hit j && is_some (find_global gs j) then some s else chosen_at gs j)

  constrain_history :
      (s : Strategy) (g : GlobalRecord V) (d : Disposition V)
      → g.disposition ≡ some d
      → SameHistory g (record g { disposition = some (constrain s d) })
  unfolding constrain
  constrain_history s g d e = record {
    key = refl;
    facts = refl;
    history = λ d₀ e₀.
        let p : d ≡ d₀ = cc in
        (constrain s d, refl, ap (λ x. x.cascade_chosen) p, ap (λ x. x.cascade_trace) p);
  }

  set_member_changes :
      (s : Strategy) (k : Key) (gs : List (GlobalRecord V))
      → All IsFinal gs
      → (gs' : List (GlobalRecord V)) × (set_member s k gs ≡ ok gs')
        × Changed s (λ j. k == j) gs gs'
  unfolding set_member constrain
  set_member_changes s k [] h =
      ([], refl, record { same = tt; final = tt; found = λ j. refl; choice = λ j. ground arith })
  set_member_changes s k (g ∷ gs) (f, fs) = elim (Bool-cases (g.key == k)) [
    | inl hit ↦ elim (Option-cases g.disposition) [
      | inl missing ↦ absurd (ground arith)
      | inr (d, e) ↦ (
        (record g { disposition = some (constrain s d) }) ∷ gs,
        rw (hit, e, set_member),
        record {
          same = (constrain_history s g d e, SameHistories-refl gs);
          final = (refl, fs);
          found = λ j. ground arith;
          choice = λ j. ground (arith, ap (λ x. x == j) (eq_of_beq g.key k hit));
        },
      )
    ]
    | inr miss ↦
        let (gs', runs, c) = set_member_changes s k gs fs in
        (
          g ∷ gs',
          rw (miss, runs, set_member),
          record {
            same = (SameHistory-refl g, c.same);
            final = (f, c.final);
            found = λ j. ground (arith, c.found j);
            choice = λ j. elim (Bool-cases (g.key == j)) [
              | inl at_j ↦
                  let other : (k == j) ≡ false =
                    beq_ne k j
                      (λ e. ground (arith, eq_of_beq g.key j at_j, key_eq.beq_iff g.key k)) in
                  ground arith
              | inr other ↦ ground (arith, c.choice j)
            ];
          },
        )
  ]

  -- The members that are globals take the strategy, every other global keeps its choice, and all
  -- of them keep their keys, their facts and the history of the cascade.
  pub set_members_changes :
      (s : Strategy) (keys : List Key) (gs : List (GlobalRecord V))
      → All IsFinal gs
      → (gs' : List (GlobalRecord V)) × (set_members s keys gs ≡ ok gs')
        × Changed s (contains keys) gs gs'
  unfolding set_members
  set_members_changes s [] gs h = (
    gs,
    refl,
    record { same = SameHistories-refl gs; final = h; found = λ j. refl; choice = λ j. refl },
  )
  set_members_changes s (k ∷ ks) gs h =
      let (gs₁, runs₁, c₁) = set_member_changes s k gs h in
      let (gs₂, runs₂, c₂) = set_members_changes s ks gs₁ c₁.final in
      (
        gs₂,
        rw (runs₁, set_members) runs₂,
        record {
          same = SameHistories-trans gs gs₁ gs₂ c₁.same c₂.same;
          final = c₂.final;
          found = λ j. c₂.found j ∙ c₁.found j;
          choice = λ j. ground (arith, c₁.choice j, c₂.choice j, c₁.found j, beq_comm k j);
        },
      )
