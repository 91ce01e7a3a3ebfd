-- ===== src/Prelude/Texts.antt =====
-- Texts that the source walks: the list of their code points, which are the bytes where a text is
-- ASCII. With them what the source uses of the standard library on such texts.
use Prim.Native.Nat.{ℕ, ◌+◌, ◌-◌, ◌*◌, ◌^◌}
use Prim.Native.Char.{code}
use Prim.Native.String.{String}
use mathlib.Core.Path.{◌≡◌, refl}
use mathlib.Core.Logic.{◌↔◌}
use mathlib.Core.Bool.{Bool, true, false, ◌&&◌}
use mathlib.Core.List.{List, [], ◌∷◌, map}
use mathlib.Core.Option.{Option, none, some}
use native.Mathlib.Omega.{arith}
use vpsiner.Prelude.Tests.{ltb, leb, ◌==◌, if◌then◌else◌}
use vpsiner.Prelude.Assoc.{Eq}

abbrev pub Text : Type 0
Text = List ℕ

-- `String` has its own `[]` and `∷`.
abbrev pub codes : String → Text
codes String.[] = []
codes (String.◌∷◌ c s) = code c ∷ codes s

abbrev pub eq_text : Text → Text → Bool
eq_text [] [] = true
eq_text [] (b ∷ ys) = false
eq_text (a ∷ xs) [] = false
eq_text (a ∷ xs) (b ∷ ys) = (a == b) && eq_text xs ys

pub eq_text_iff : (xs ys : Text) → (eq_text xs ys ≡ true) ↔ (xs ≡ ys)
eq_text_iff [] [] = ground arith
eq_text_iff (a ∷ xs) (b ∷ ys) = ground (arith, eq_text_iff xs ys)
eq_text_iff [] (b ∷ ys) = ground arith
eq_text_iff (a ∷ xs) [] = ground arith

instance abbrev pub Eq-Text : Eq Text
Eq-Text = record { test = eq_text; test_iff = eq_text_iff }

-- What follows a prefix, if it is one.
unfoldable pub strip_prefix : Text → Text → Option Text
strip_prefix [] s = some s
strip_prefix (a ∷ prefix) [] = none
strip_prefix (a ∷ prefix) (c ∷ s) =
    let rest = strip_prefix prefix s in if a == c then rest else none

unfoldable pub is_infix : Text → Text → Bool
unfolding strip_prefix
is_infix needle [] = elim (strip_prefix needle []) [ none ↦ false | some rest ↦ true ]
is_infix needle (c ∷ s) =
    let later = is_infix needle s in
    elim (strip_prefix needle (c ∷ s)) [ none ↦ later | some rest ↦ true ]

unfoldable pub to_ascii_lowercase : Text → Text
to_ascii_lowercase value = map (λ b. if leb b'A' b && leb b b'Z' then b + 32 else b) value

abbrev pub is_digit : ℕ → Bool
is_digit b = leb b'0' b && leb b b'9'

-- The digits of `parse` at a width of bits, the number so far included.
unfoldable pub parse_digits : ℕ → ℕ → Text → Option ℕ
parse_digits w acc [] = some acc
parse_digits w acc (b ∷ rest) =
    let next = acc * 10 + (b - b'0') in
    let parsed = parse_digits w next rest in
    if leb b'0' b && leb b b'9' && ltb next (2 ^ w) then parsed else none

-- `parse` into an unsigned integer: a sign `+` may stand before the digits.
unfoldable pub parse_uint : ℕ → Text → Option ℕ
unfolding parse_digits
parse_uint w [] = none
parse_uint w (b ∷ []) = parse_digits w 0 (b ∷ [])
parse_uint w (b ∷ c ∷ rest) =
    let signed = parse_digits w 0 (c ∷ rest) in
    let plain = parse_digits w 0 (b ∷ c ∷ rest) in if b == b'+' then signed else plain

-- Lower case is left as it is.
pub to_ascii_lowercase_idem :
    (s : Text) → to_ascii_lowercase (to_ascii_lowercase s) ≡ to_ascii_lowercase s
unfolding to_ascii_lowercase
to_ascii_lowercase_idem [] = refl
to_ascii_lowercase_idem (c ∷ s) = ground (arith, to_ascii_lowercase_idem s)
