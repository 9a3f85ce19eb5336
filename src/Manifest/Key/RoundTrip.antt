-- ===== src/Manifest/Key/RoundTrip.antt =====
-- The text form of keys in crates/pangs-manifest/src/lib.rs and its parser are inverse.
use Prim.Native.Char.{Char, code}
use Prim.Native.String.{◌++◌ as concat}
use text.Mathlib.TextEquality.{Char-path}
use text.Mathlib.TextLemmas.{nil-append, cons-append}
use tenjin_pangs.Base.{
  String, ◌≡◌, ◌↔◌, refl, sym, ◌∙◌, ap, true, false, ◌&&◌, Option, none, some, Result, ok, arith,
  Bool-cases, Option-cases, Result-cases, inl, inr, map_err,
}
use tenjin_pangs.Manifest.Key.{
  Key, Error, is_colon, rsplit_once, symbol_byte, all_chars, symbol_ok, display, key_validate,
  checked, parse,
}

colon_of : (c : Char) → is_colon c ≡ true → c ≡ ":"
colon_of c h = Char-path c ":" (ground arith)

two_colons : (s : String) → concat "::" s ≡ String.◌∷◌ ":" (String.◌∷◌ ":" s)
two_colons s =
    cons-append ":" ":" s
    ∙ ap (λ t. String.◌∷◌ ":" t) (cons-append ":" "" s ∙ ap (λ t. String.◌∷◌ ":" t) (nil-append s))

-- The parts of the split make up the text.
rsplit_once_sound :
    (raw before after : String)
    → rsplit_once raw ≡ some (before, after)
    → concat before (concat "::" after) ≡ raw
unfolding rsplit_once
rsplit_once_sound String.[] b a h = cc
rsplit_once_sound (String.◌∷◌ c String.[]) b a h = cc
rsplit_once_sound (String.◌∷◌ c (String.◌∷◌ d s)) b a h =
    elim (Option-cases (rsplit_once (String.◌∷◌ d s))) [
      | inl e ↦ elim (Bool-cases (is_colon c && is_colon d)) [
        | inl colons ↦
            let p : c ≡ ":" = colon_of c (ground arith) in
            let q : d ≡ ":" = colon_of d (ground arith) in
            let h' : ◌≡◌ {A = Option (String × String)} (some (String.[], s)) (some (b, a)) =
              rw (e, colons, rsplit_once) at h in
            let i : String.[] ≡ b = cc in
            let j : s ≡ a = cc in
            rw (p, q, sym i, sym j) (nil-append (concat "::" s) ∙ two_colons s)
        | inr other ↦ cc (rw (e, other, rsplit_once) at h)
      ]
      | inr ((b', a'), e) ↦
          let h' : ◌≡◌ {A = Option (String × String)} (some (String.◌∷◌ c b', a')) (some (b, a)) =
            rw (e, rsplit_once) at h in
          let i : String.◌∷◌ c b' ≡ b = cc in
          let j : a' ≡ a = cc in
          rw (sym i, sym j)
            (cons-append c b' (concat "::" a')
              ∙ ap (λ t. String.◌∷◌ c t) (rsplit_once_sound (String.◌∷◌ d s) b' a' e))
    ]

symbol_no_colon : (c : Char) → symbol_byte (code c) ≡ true → is_colon c ≡ false
symbol_no_colon c h = ground arith

-- A symbol has no colon to split at.
rsplit_once-symbol : (s : String) → all_chars symbol_byte s ≡ true → rsplit_once s ≡ none
unfolding rsplit_once
rsplit_once-symbol String.[] h = refl
rsplit_once-symbol (String.◌∷◌ c String.[]) h = refl
rsplit_once-symbol (String.◌∷◌ c (String.◌∷◌ d s)) h = rw (
  rsplit_once-symbol (String.◌∷◌ d s) (ground arith),
  symbol_no_colon c (ground arith),
  rsplit_once,
)

-- One colon in front of a symbol is no place to split at either.
rsplit_once-one_colon :
    (s : String) → all_chars symbol_byte s ≡ true → rsplit_once (String.◌∷◌ ":" s) ≡ none
unfolding rsplit_once
rsplit_once-one_colon String.[] h = refl
rsplit_once-one_colon (String.◌∷◌ d s) h =
    rw (rsplit_once-symbol (String.◌∷◌ d s) h, symbol_no_colon d (ground arith), rsplit_once)

rsplit_once-two_colons :
    (s : String)
    → all_chars symbol_byte s ≡ true
    → rsplit_once (concat "::" s) ≡ some (String.[], s)
unfolding rsplit_once
rsplit_once-two_colons s h = rw (two_colons s, rsplit_once-one_colon s h, rsplit_once)

-- A split of the rest is a split of the whole text.
rsplit_once-cons :
    (c : Char) (raw p s : String)
    → rsplit_once raw ≡ some (p, s)
    → rsplit_once (String.◌∷◌ c raw) ≡ some (String.◌∷◌ c p, s)
unfolding rsplit_once
rsplit_once-cons c String.[] p s h = cc
rsplit_once-cons c (String.◌∷◌ d raw) p s h = rw (h, rsplit_once)

-- The last two colons of a key's text are the separator, whatever the path.
rsplit_once-display :
    (p s : String)
    → all_chars symbol_byte s ≡ true
    → rsplit_once (concat p (concat "::" s)) ≡ some (p, s)
unfolding rsplit_once
rsplit_once-display String.[] s h =
    ap rsplit_once (nil-append (concat "::" s)) ∙ rsplit_once-two_colons s h
rsplit_once-display (String.◌∷◌ c p) s h =
    ap rsplit_once (cons-append c p (concat "::" s))
    ∙ rsplit_once-cons c (concat p (concat "::" s)) p s (rsplit_once-display p s h)

valid_symbol : (k : Key) → key_validate k ≡ ok tt → all_chars symbol_byte k.symbol ≡ true
unfolding key_validate symbol_ok
valid_symbol k h = ground arith

checked_of :
    (raw : String) (j k : Key)
    → map_err (λ (_ : Error). Error.invalid_key raw) (checked j) ≡ ok k
    → (key_validate k ≡ ok tt) × (j ≡ k)
unfolding checked
checked_of raw j k h = elim (Result-cases (key_validate j)) [
  | inl (u, e) ↦
      let same : ◌≡◌ {A = Result Key Error} (ok j) (ok k) = rw (e, checked) at h in
      let p : j ≡ k = cc in (rw p at e, p)
  | inr (x, e) ↦ cc (rw (e, checked) at h)
]

parse_sound :
    (raw : String) (k : Key) → parse raw ≡ ok k → (key_validate k ≡ ok tt) × (display k ≡ raw)
unfolding parse display
parse_sound raw k h = elim (Option-cases (rsplit_once raw)) [
  | inl e ↦
      let (valid, p) =
        checked_of raw (record { tu_path = none; symbol = raw }) k (rw (e, parse) at h) in
      (valid, ap display (sym p))
  | inr ((before, after), e) ↦
      let (valid, p) =
        checked_of raw (record { tu_path = some before; symbol = after }) k (rw (e, parse) at h) in
      (valid, ap display (sym p) ∙ rsplit_once_sound raw before after e)
]

checked_valid : (k : Key) → key_validate k ≡ ok tt → checked k ≡ ok k
unfolding checked
checked_valid k h = rw (h, checked)

parse_plain :
    (s : String)
    → let k : Key = record { tu_path = none; symbol = s } in key_validate k ≡ ok tt → parse s ≡ ok k
unfolding parse
parse_plain s valid =
    let k : Key = record { tu_path = none; symbol = s } in
    rw (rsplit_once-symbol s (valid_symbol k valid), checked_valid k valid, parse)

parse_qualified :
    (p s : String)
    → let k : Key = record { tu_path = some p; symbol = s } in
      key_validate k ≡ ok tt → parse (concat p (concat "::" s)) ≡ ok k
unfolding parse
parse_qualified p s valid =
    let k : Key = record { tu_path = some p; symbol = s } in
    rw (rsplit_once-display p s (valid_symbol k valid), checked_valid k valid, parse)

parse-display' :
    (path : Option String) (s : String)
    → let k : Key = record { tu_path = path; symbol = s } in
      key_validate k ≡ ok tt → parse (display k) ≡ ok k
unfolding display
parse-display' none s valid = parse_plain s valid
parse-display' (some p) s valid = parse_qualified p s valid

-- A text parses to a key exactly when the key is valid and prints as that text. So printing and
-- parsing a valid key gives it back, and no text is the print of two valid keys.
pub parse-display :
    (raw : String) (k : Key) → (parse raw ≡ ok k) ↔ (key_validate k ≡ ok tt) × (display k ≡ raw)
parse-display raw k = (
  parse_sound raw k,
  λ (valid, shown). ap parse (sym shown) ∙ parse-display' k.tu_path k.symbol valid,
)
