-- ===== src/Manifest/Tests.antt =====
-- The theorems on the manifest of crates/pangs-manifest/src/lib.rs at concrete inputs, and tests.
use tenjin_pangs.Base.{◌≡◌, ◌↔◌, refl, some, ok, err}
use tenjin_pangs.Manifest.Key.{Key, invalid_key, key_validate, display, parse}
use tenjin_pangs.Manifest.Key.RoundTrip.{parse-display}

abbrev colon_key : Key
colon_key = record { tu_path = some "vendor/a:b.c"; symbol = "name.$1" }

parse_colon : parse "vendor/a:b.c::name.$1" ≡ ok colon_key
unfolding parse
parse_colon = refl

parse_parent : parse "../a.c::x" ≡ err (invalid_key "../a.c::x")
unfolding parse
parse_parent = refl

parse-display_example :
    (parse "vendor/a:b.c::name.$1" ≡ ok colon_key)
    ↔ (key_validate colon_key ≡ ok tt) × (display colon_key ≡ "vendor/a:b.c::name.$1")
parse-display_example = parse-display "vendor/a:b.c::name.$1" colon_key
