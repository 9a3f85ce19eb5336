-- ===== src/Manifest/Key.antt =====
-- crates/pangs-manifest/src/lib.rs: symbol keys, their text form and its validation.
pub mod RoundTrip
use Prim.Native.Char.{Char, code}
use Prim.Native.String.{◌++◌ as concat, compare}
use text.Mathlib.Text.{starts_with}
use tenjin_pangs.Base.{
  ℕ, String, ◌≡◌, ◌↔◌, refl, Bool, true, false, not, ◌&&◌, ◌||◌, Option, none, some, List, [], ◌∷◌,
  Eq, ◌==◌, nat_eq, string_eq, option_eq, leb, Result, ok, err, if◌then◌else◌, arith, any, all,
  eq_of_beq, beq_refl, map_err, Ordering, then_with, option_cmp,
}

-- `enum Error`, less the two constructors that wrap errors of the file system and of serde.
pub data Error : Type 0 where
  invalid_key : String → Error
  unsupported_schema : (found supported : ℕ) → Error
  marker_collision : (marker first second : String) → Error
  audit_id_collision : String → Error
  invalid_evidence : (fact : String) (value : Bool) → Error
  invalid_invariant : String → Error

pub record Key : Type 0 where
  pub tu_path : Option String
  pub symbol : String

unfoldable pub key_beq : Key → Key → Bool
key_beq a b = a.tu_path == b.tu_path && a.symbol == b.symbol

pub key_beq_iff : (a b : Key) → (key_beq a b ≡ true) ↔ (a ≡ b)
unfolding key_beq
key_beq_iff a b = (
  λ h. ground (arith, eq_of_beq a.tu_path b.tu_path, eq_of_beq a.symbol b.symbol),
  λ e. rw e (ground (arith, beq_refl b.tu_path, beq_refl b.symbol)),
)

instance abbrev pub key_eq : Eq Key
key_eq = record { beq = key_beq; beq_iff = key_beq_iff }

-- The derived order: the path first, then the symbol.
unfoldable pub key_cmp : Key → Key → Ordering
key_cmp a b = then_with (option_cmp compare a.tu_path b.tu_path) (compare a.symbol b.symbol)

abbrev pub is_colon : Char → Bool
is_colon c = code c == b':'

-- `str::rsplit_once("::")`: the split at the last place where two colons stand.
unfoldable pub rsplit_once : String → Option (String × String)
rsplit_once String.[] = none
rsplit_once (String.◌∷◌ c String.[]) = none
rsplit_once (String.◌∷◌ c (String.◌∷◌ d s)) = elim (rsplit_once (String.◌∷◌ d s)) [
  | some (before, after) ↦ some (String.◌∷◌ c before, after)
  | none ↦ if is_colon c && is_colon d then some (String.[], s) else none
]

-- `u8::is_ascii_alphanumeric` or one of `_`, `.` and `$`.
abbrev pub is_ascii_alphanumeric : ℕ → Bool
is_ascii_alphanumeric b =
    (leb b'0' b && leb b b'9') || (leb b'A' b && leb b b'Z') || (leb b'a' b && leb b b'z')

abbrev pub symbol_byte : ℕ → Bool
symbol_byte b = is_ascii_alphanumeric b || b == b'_' || b == b'.' || b == b'$'

abbrev pub all_chars : (ℕ → Bool) → String → Bool
all_chars p String.[] = true
all_chars p (String.◌∷◌ c s) = p (code c) && all_chars p s

abbrev pub is_empty_text : String → Bool
is_empty_text String.[] = true
is_empty_text (String.◌∷◌ c s) = false

-- `str::contains("::")`.
abbrev pub contains_colons : String → Bool
contains_colons String.[] = false
contains_colons (String.◌∷◌ c String.[]) = false
contains_colons (String.◌∷◌ c (String.◌∷◌ d s)) =
    is_colon c && is_colon d || contains_colons (String.◌∷◌ d s)

-- `str::split('/')`: the parts between the slashes, the empty ones too.
unfoldable pub split_slash : String → List String
split_slash String.[] = String.[] ∷ []
split_slash (String.◌∷◌ c s) =
    let rest = split_slash s in
    if code c == b'/' then String.[] ∷ rest else elim rest [
      | [] ↦ (String.◌∷◌ c String.[]) ∷ []
      | part ∷ parts ↦ (String.◌∷◌ c part) ∷ parts
    ]

unfoldable pub path_ok : String → Bool
unfolding split_slash
path_ok p =
    not (is_empty_text p)
    && not (starts_with p "/")
    && not (starts_with p "./")
    && not (contains_colons p)
    && all_chars (λ b. not (b == 0x5c)) p
    && all (λ part. not (is_empty_text part) && not (part == ".") && not (part == ".."))
        (split_slash p)

unfoldable pub symbol_ok : String → Bool
symbol_ok s = not (is_empty_text s) && all_chars symbol_byte s

-- `impl fmt::Display for Key`.
unfoldable pub display : Key → String
display k = elim k.tu_path [ none ↦ k.symbol | some p ↦ concat p (concat "::" k.symbol) ]

unfoldable pub key_validate : Key → Result (Unit {0}) Error
unfolding path_ok symbol_ok display
key_validate k =
    if elim k.tu_path [ none ↦ true | some p ↦ path_ok p ] && symbol_ok k.symbol
    then ok tt
    else err (invalid_key (display k))

-- `Key::new` and `Key::unqualified`: the key, once it is validated.
unfoldable pub checked : Key → Result Key Error
unfolding key_validate
checked k = elim (key_validate k) [ ok _ ↦ ok k | err e ↦ err e ]

unfoldable pub parse : String → Result Key Error
unfolding checked rsplit_once
parse raw =
    map_err (λ _. invalid_key raw)
      (elim (rsplit_once raw) [
        | some (p, s) ↦ checked (record { tu_path = some p; symbol = s })
        | none ↦ checked (record { tu_path = none; symbol = raw })
      ])
