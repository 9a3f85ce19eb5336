-- ===== src/Solve/Pag/Compatible/Tests.antt =====
-- The test of signatures at a call with more arguments than the callee has parameters.
use tenjin_pangs.Base.{◌≡◌, refl, true, false, [], ◌∷◌, ◌↔◌}
use tenjin_pangs.Solve.Pag.{AbiClass, Param, Signature, fsa_compatible}
use tenjin_pangs.Solve.Pag.Compatible.{Accepts, fsa_compatible_iff}

abbrev site : Signature
site = record {
  ret = AbiClass.void;
  params = Param.integer ∷ Param.sse ∷ [];
  vararg = false;
  cc = "ccc";
}

abbrev callee : Signature
callee = record { ret = AbiClass.integer; params = Param.integer ∷ []; vararg = false; cc = "ccc" }

accepted : fsa_compatible site callee ≡ true
unfolding fsa_compatible
accepted = refl

rejected : fsa_compatible callee site ≡ false
unfolding fsa_compatible
rejected = refl

fsa_compatible_iff_example : (fsa_compatible site callee ≡ true) ↔ Accepts site callee
fsa_compatible_iff_example = fsa_compatible_iff site callee
