-- ===== src/Dispose/Demotion/Tests.antt =====
-- The theorems on the demotion of crates/pangs-dispose/src/lib.rs at a group of two globals.
use tenjin_pangs.Base.{String, ◌≡◌, refl, some, List, [], ◌∷◌, ok, All, string_eq, ◌⊎◌, ◌↔◌, IsIn}
use tenjin_pangs.Manifest.Strategy.{mutex, strategy_eq}
use tenjin_pangs.Manifest.Key.{Key, key_eq, key_beq}
use tenjin_pangs.Manifest.Facts.{Witness, Facts}
use tenjin_pangs.Manifest.Records.{GlobalRecord, CouplingGroup}
use tenjin_pangs.Manifest.Document.{MaterializationDemotion}
use tenjin_pangs.Dispose.Demotion.{expand_failures, demote_globals}
use tenjin_pangs.Dispose.Demotion.Choices.{AreDemoted, IsSettled, demote_globals-AreDemoted}
use tenjin_pangs.Dispose.Demotion.Expansion.{Names, IsChosen, Spreads, expand_failures-Reaches}
use tenjin_pangs.Dispose.Samples.{local_facts, counter, limit, global_of, note, pair}

abbrev grouped_facts : Facts String
grouped_facts = record local_facts { coupling_group = some "g1" }

abbrev locked : List (GlobalRecord String)
locked = global_of counter grouped_facts mutex ∷ global_of limit grouped_facts mutex ∷ []

abbrev locked_pair : CouplingGroup String
locked_pair = record pair { group_disposition = some mutex }

abbrev failing : List (Key × Witness String)
failing = (counter, note) ∷ []

abbrev spread : List (Key × Witness String)
spread = (counter, note) ∷ ((limit, note) ∷ [])

failing_spreads : expand_failures (locked_pair ∷ []) locked failing failing ≡ ok spread
unfolding expand_failures key_beq
failing_spreads = refl

expand_failures-Reaches_example :
    All (λ f. IsChosen (locked_pair ∷ []) locked f.0) failing
    × (Names spread limit ↔ (
        ((f : Key × Witness String) × IsIn f failing × Spreads (locked_pair ∷ []) locked f.0 limit)
        ⊎ Names failing limit))
expand_failures-Reaches_example =
    expand_failures-Reaches (locked_pair ∷ []) locked failing failing spread limit failing_spreads

demote_globals-AreDemoted_example :
    (gs : List (GlobalRecord String)) × (recorded : List (MaterializationDemotion String))
    × (demote_globals spread locked ≡ ok (gs, recorded))
    × AreDemoted spread locked gs recorded
    × All (IsSettled spread) gs
    × (demote_globals spread gs ≡ ok (gs, []))
demote_globals-AreDemoted_example = demote_globals-AreDemoted spread locked (refl, (refl, tt))
