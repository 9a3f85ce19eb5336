-- ===== src/Dispose/Policy/Independent.antt =====
-- The independent cascade of crates/pangs-dispose/src/lib.rs over all globals.
use tenjin_pangs.Base.{
  String, ◌≡◌, refl, ap, ◌∙◌, arith, is_some, length, length-sort_by, length-map, All-map,
  All-sort_by, Option, none, some, List, [], ◌∷◌, ok, All,
}
use tenjin_pangs.Manifest.Facts.{Json}
use tenjin_pangs.Manifest.Records.{GlobalRecord, Disposition}
use tenjin_pangs.Manifest.Document.{Manifest}
use tenjin_pangs.Manifest.Canonical.{
  canonicalize_global, canonicalize, canonicalize_context_rewrite,
}
use tenjin_pangs.Dispose.Config.{CascadeConfig}
use tenjin_pangs.Dispose.Config.Validity.{IsAdmissible, validate-IsAdmissible}
use tenjin_pangs.Dispose.Cascade.First.{IsFirst, cascade_first}
use tenjin_pangs.Dispose.Groups.Members.{IsFinal}
use tenjin_pangs.Dispose.Policy.{
  cascaded, dispose_global, dispose_globals, disposed_manifest, apply_independent_cascade,
}

module _ {V : Type 0} ⦃json : Json V⦄ (config : CascadeConfig) where
  -- The later record is the earlier one with a disposition that the cascade alone explains.
  pub record IsDisposed (g g' : GlobalRecord V) : Type 0 where
    pub disposition : Disposition V
    pub placed : g' ≡ record g { disposition = some disposition }
    pub agreed : disposition.chosen ≡ disposition.cascade_chosen
    pub plain : disposition.override ≡ none
    pub first : IsFirst g.facts config.order disposition.cascade_chosen disposition.cascade_trace

  abbrev pub AreDisposed : List (GlobalRecord V) → List (GlobalRecord V) → Type 0
  AreDisposed [] [] = Unit
  AreDisposed (g ∷ gs) (g' ∷ gs') = IsDisposed g g' × AreDisposed gs gs'
  AreDisposed [] (g' ∷ gs') = ⊥
  AreDisposed (g ∷ gs) [] = ⊥

  dispose_global_disposes :
      (g : GlobalRecord V)
      → IsAdmissible config
      → (g' : GlobalRecord V) × (dispose_global config g ≡ ok g') × IsDisposed g g'
  unfolding dispose_global
  dispose_global_disposes g a =
      let (s, trace, runs, first) = cascade_first g.facts config a in
      (
        record g { disposition = some (cascaded s trace) },
        rw (runs, dispose_global),
        record {
          disposition = cascaded s trace;
          placed = refl;
          agreed = refl;
          plain = refl;
          first = first;
        },
      )

  -- Under an admissible configuration the loop over the globals returns and never panics, and it
  -- gives each of them the first eligible strategy of the order, with nothing else changed.
  pub dispose_globals_disposes :
      (gs : List (GlobalRecord V))
      → IsAdmissible config
      → (gs' : List (GlobalRecord V)) × (dispose_globals config gs ≡ ok gs') × AreDisposed gs gs'
  unfolding dispose_globals
  dispose_globals_disposes [] a = ([], refl, tt)
  dispose_globals_disposes (g ∷ gs) a =
      let (g', runs, one) = dispose_global_disposes g a in
      let (gs', runs', more) = dispose_globals_disposes gs a in
      (g' ∷ gs', rw (runs, runs', dispose_globals), (one, more))

  AreDisposed-IsFinal : (gs gs' : List (GlobalRecord V)) → AreDisposed gs gs' → All IsFinal gs'
  AreDisposed-IsFinal [] [] h = tt
  AreDisposed-IsFinal (g ∷ gs) (g' ∷ gs') (d, ds) =
      (ap (λ x. is_some x.disposition) d.placed, AreDisposed-IsFinal gs gs' ds)
  AreDisposed-IsFinal [] (g' ∷ gs') h = elim h [ ]
  AreDisposed-IsFinal (g ∷ gs) [] h = elim h [ ]

  AreDisposed-length :
      (gs gs' : List (GlobalRecord V)) → AreDisposed gs gs' → length gs' ≡ length gs
  AreDisposed-length [] [] h = refl
  AreDisposed-length (g ∷ gs) (g' ∷ gs') (d, ds) = omega (arith, AreDisposed-length gs gs' ds)
  AreDisposed-length [] (g' ∷ gs') h = elim h [ ]
  AreDisposed-length (g ∷ gs) [] h = elim h [ ]

  canonical-IsFinal : (g : GlobalRecord V) → IsFinal g → IsFinal (canonicalize_global g)
  unfolding canonicalize_global
  canonical-IsFinal g h = h

  -- Under an admissible configuration the independent cascade returns and never panics: every
  -- global of the manifest has a disposition, and a materialization or a projection that an
  -- earlier run left is gone.
  pub apply_independent_cascade-IsFinal :
      (m : Manifest V) (file sha256 : Option String)
      → IsAdmissible config
      → (m' : Manifest V) × (apply_independent_cascade config m file sha256 ≡ ok m')
        × All IsFinal m'.globals
        × (length m'.globals ≡ length m.globals)
        × (m'.materialization ≡ none)
        × (m'.context_rewrite.selected ≡ none)
  unfolding apply_independent_cascade canonicalize canonicalize_context_rewrite
  apply_independent_cascade-IsFinal m file sha256 a =
      let (gs, runs, done) = dispose_globals_disposes m.globals a in
      (
        canonicalize (disposed_manifest config m file sha256 gs),
        rw ((validate-IsAdmissible config).1 a, runs, apply_independent_cascade),
        All-map IsFinal canonicalize_global canonical-IsFinal _
            (All-sort_by IsFinal _ gs (AreDisposed-IsFinal m.globals gs done)),
        length-map _ _ ∙ length-sort_by _ gs ∙ AreDisposed-length m.globals gs done,
        refl,
        refl,
      )
