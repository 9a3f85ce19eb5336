-- ===== src/Dispose/Demotion/Expansion.antt =====
-- Which globals a demotion of crates/pangs-dispose/src/lib.rs reaches.
use tenjin_pangs.Base.{
  ◌≡◌, refl, sym, ap, ◌∙◌, true, false, Bool, ◌||◌, none, some, List, [], ◌∷◌, ◌==◌, ok, All, arith,
  Bool-cases, Option-cases, inl, inr, ◌⊎◌, ◌↔◌, IsIn, insert, contains_key, eq_of_beq, beq_refl,
}
use tenjin_pangs.Manifest.Strategy.{Strategy, once_lock, mutex}
use tenjin_pangs.Manifest.Key.{Key, key_eq}
use tenjin_pangs.Manifest.Facts.{Witness}
use tenjin_pangs.Manifest.Records.{GlobalRecord, Disposition, CouplingGroup}
use tenjin_pangs.Dispose.Guards.{is_joint}
use tenjin_pangs.Dispose.Groups.{find_global}
use tenjin_pangs.Dispose.Demotion.{insert_members, joint_group, expand_choice, expand_failures}
use tenjin_pangs.Dispose.Demotion.Holder.{IsHolder, joint_group_iff}

same : {A : Type 0} {a b : A} → some a ≡ some b → a ≡ b
same e = cc

-- The key is in the map.
abbrev pub Names : {V : Type 0} → List (Key × V) → Key → Type 0
Names m j = contains_key j m ≡ true

or_true : (a b : Bool) → a || b ≡ true → (a ≡ true) ⊎ (b ≡ true)
or_true true b h = inl refl
or_true false b h = inr h

-- The entry that is replaced has the same key.
head-Names :
    {V : Type 0} (j k : Key) (u : V) (m : List (Key × V))
    → Names ((k, u) ∷ m) j ↔ ((j ≡ k) ⊎ Names ((k, u) ∷ m) j)
head-Names j k u m = (λ n. inr n, λ h. elim h [ inl e ↦ rw (e, beq_refl k) refl | inr n ↦ n ])

insert-Names :
    {V : Type 0} (j k : Key) (v : V) (m : List (Key × V))
    → Names (insert k v m) j ↔ ((j ≡ k) ⊎ Names m j)
insert-Names j k v [] = (
  λ n. inl (sym (eq_of_beq k j (ground arith))),
  λ h. elim h [ inl e ↦ rw (sym e, beq_refl j) refl | inr n ↦ cc ],
)
insert-Names j k v ((i, u) ∷ m) = elim (Bool-cases (i == k)) [
  | inl t ↦ rw (t, insert, eq_of_beq i k t) (head-Names j k v m)
  | inr f ↦
      let (front, back) = insert-Names j k v m in
      rw (f, insert)
        (
          λ n. elim (or_true (i == j) (contains_key j (insert k v m)) n) [
            | inl e ↦ inr (rw e refl)
            | inr n ↦ elim (front n) [ inl q ↦ inl q | inr n ↦ inr (ground arith) ]
          ],
          λ h. elim h [
            | inl q ↦ let n = back (inl q) in ground arith
            | inr n ↦ elim (or_true (i == j) (contains_key j m) n) [
              | inl e ↦ rw e refl
              | inr n ↦ let n = back (inr n) in ground arith
            ]
          ],
        )
]

is_joint_iff : (s : Strategy) → (is_joint s ≡ true) ↔ ((s ≡ once_lock) ⊎ (s ≡ mutex))
is_joint_iff s = (λ e. ground arith, λ h. ground arith)

module _ {V : Type 0} where
  insert_members-Names :
      (ks : List Key) (w : Witness V) (m : List (Key × Witness V)) (j : Key)
      → Names (insert_members ks w m) j ↔ (IsIn j ks ⊎ Names m j)
  unfolding insert_members
  insert_members-Names [] w m j = (λ n. inr n, λ h. elim h [ inl a ↦ absurd a | inr n ↦ n ])
  insert_members-Names (k ∷ ks) w m j =
      let (front, back) = insert_members-Names ks w (insert k w m) j in
      let (reads, writes) = insert-Names j k w m in
      (
        λ n. elim (front n) [
          | inl a ↦ inl (inr a)
          | inr n ↦ elim (reads n) [ inl e ↦ inl (inl e) | inr n ↦ inr n ]
        ],
        λ h. elim h [
          | inl (inl e) ↦ back (inr (writes (inl e)))
          | inl (inr a) ↦ back (inl a)
          | inr n ↦ back (inr (writes (inr n)))
        ],
      )

  module _ (groups : List (CouplingGroup V)) (globals : List (GlobalRecord V)) where
    -- The key is a member of the group that holds the given strategy of the global, a joint one.
    abbrev pub IsPartner : GlobalRecord V → Strategy → Key → Type 0
    IsPartner g s j =
        ((s ≡ once_lock) ⊎ (s ≡ mutex))
        × (group : CouplingGroup V) × IsHolder g s group groups
        × IsIn j group.members

    -- The failing key names a global with a choice.
    abbrev pub IsChosen : Key → Type 0
    IsChosen key =
        (g : GlobalRecord V) × (d : Disposition V) × (find_global globals key ≡ some g)
        × (g.disposition ≡ some d)

    -- The failing key names a global whose choice has the other key as a partner.
    abbrev pub Spreads : Key → Key → Type 0
    Spreads key j =
        (g : GlobalRecord V) × (d : Disposition V) × (find_global globals key ≡ some g)
        × (g.disposition ≡ some d)
        × IsPartner g d.chosen j

    expand_choice-Names :
        (g : GlobalRecord V) (s : Strategy) (w : Witness V) (m : List (Key × Witness V)) (j : Key)
        → Names (expand_choice groups g s w m) j ↔ (IsPartner g s j ⊎ Names m j)
    unfolding expand_choice
    expand_choice-Names g s w m j = elim (Bool-cases (is_joint s)) [
      | inl shared ↦ elim (Option-cases (joint_group groups g s)) [
        | inl e ↦
            rw (shared, e, expand_choice)
              (
                λ n. inr n,
                λ h. elim h [
                  | inl (_, group, held, a) ↦
                      let clash : none ≡ some group =
                        sym e ∙ (joint_group_iff g s group groups).1 held in
                      cc
                  | inr n ↦ n
                ],
              )
        | inr (group, e) ↦
            let (front, back) = insert_members-Names group.members w m j in
            let held = (joint_group_iff g s group groups).0 e in
            rw (shared, e, expand_choice)
              (
                λ n. elim (front n) [
                  | inl a ↦ inl ((is_joint_iff s).0 shared, group, held, a)
                  | inr n ↦ inr n
                ],
                λ h. elim h [
                  | inl (_, other, k, a) ↦
                      back (inl (rw (same (sym ((joint_group_iff g s other groups).1 k) ∙ e)) at a))
                  | inr n ↦ back (inr n)
                ],
              )
      ]
      | inr other ↦
          rw (other, expand_choice)
            (
              λ n. inr n,
              λ h. elim h [
                | inl k ↦ let clash : true ≡ false = sym ((is_joint_iff s).1 k.0) ∙ other in cc
                | inr n ↦ n
              ],
            )
    ]

    Spreads-IsPartner :
        (key j : Key) (g : GlobalRecord V) (d : Disposition V)
        → find_global globals key ≡ some g
        → g.disposition ≡ some d
        → Spreads key j
        → IsPartner g d.chosen j
    Spreads-IsPartner key j g d e e' (g', d', p, p', partner) =
        let same_g : g' ≡ g = same (sym p ∙ e) in
        let same_d : d' ≡ d = same (sym (rw same_g at p') ∙ e') in rw (same_g, same_d) at partner

    -- Where the failures expand, each names a global with a choice, and the result names exactly the
    -- keys that were in the map before and, for each failing global with a joint strategy, all
    -- members of the first group that the global is of and that was given this strategy.
    pub expand_failures-Reaches :
        (failures expanded result : List (Key × Witness V)) (j : Key)
        → expand_failures groups globals failures expanded ≡ ok result
        → All (λ f. IsChosen f.0) failures
          × (Names result j
              ↔ (((f : Key × Witness V) × IsIn f failures × Spreads f.0 j) ⊎ Names expanded j))
    unfolding expand_failures
    expand_failures-Reaches [] expanded result j h =
        let p : expanded ≡ result = cc in
        (tt, rw p (λ n. inr n, λ k. elim k [ inl (f, a, s) ↦ absurd a | inr n ↦ n ]))
    expand_failures-Reaches ((key, w) ∷ rest) expanded result j h =
        elim (Option-cases (find_global globals key)) [
          | inl e ↦ cc (rw (e, expand_failures) at h)
          | inr (g, e) ↦ elim (Option-cases g.disposition) [
            | inl e' ↦ cc (rw (e, e', expand_failures) at h)
            | inr (d, e') ↦
                let more = expand_choice groups g d.chosen w expanded in
                let (chosen, (front, back)) =
                  expand_failures-Reaches rest more result j (rw (e, e', expand_failures) at h) in
                let (reads, writes) = expand_choice-Names g d.chosen w expanded j in
                (
                  ((g, d, e, e'), chosen),
                  (
                    λ n. elim (front n) [
                      | inl (f, a, spreads) ↦ inl (f, inr a, spreads)
                      | inr n ↦ elim (reads n) [
                        | inl partner ↦ inl ((key, w), inl refl, (g, d, e, e', partner))
                        | inr n ↦ inr n
                      ]
                    ],
                    λ k. elim k [
                      | inl (f, inl q, spreads) ↦
                          let here = rw (ap (λ (x : Key × Witness V). x.0) q) at spreads in
                          back (inr (writes (inl (Spreads-IsPartner key j g d e e' here))))
                      | inl (f, inr a, spreads) ↦ back (inl (f, a, spreads))
                      | inr n ↦ back (inr (writes (inr n)))
                    ],
                  ),
                )
          ]
        ]
