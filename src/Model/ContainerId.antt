-- ===== src/Model/ContainerId.antt =====
-- src/model/container_id.rs: a container id packed into six bytes, its parser and its printer.
-- Text is a list of bytes here, since the parser walks the bytes of the id. `get(..12)` also needs
-- byte 12 to be a character boundary; the test is the one of UTF-8, for continuation bytes.
pub mod RoundTrip
use vpsiner.Prelude.{
  ℕ, zero, suc, ◌+◌, ◌-◌, ◌*◌, ◌/◌, ◌%◌, ◌<◌, ◌≡◌, ◌↔◌, ap, Bool, true, ◌&&◌, List, [], ◌∷◌, Option,
  none, some, arith, ltb, leb, ◌==◌, if◌then◌else◌, length, take, drop, All, Eq, ◌>>=◌,
}

pub record ContainerId : Type 0 where
  pub bytes : List ℕ

-- The value of a lowercase hex digit.
unfoldable pub hex_nibble : ℕ → Option ℕ
hex_nibble byte =
    if leb b'0' byte && leb byte b'9'
    then some (byte - b'0')
    else if leb b'a' byte && leb byte b'f'
    then some (byte - b'a' + 10)
    else none

-- The loop of `parse` over the pairs of the prefix, `count` bytes of the result to go.
-- `(high << 4) | low` is `high * 16 + low`, since `low` has four bits.
unfoldable pub parse_bytes : ℕ → List ℕ → Option (List ℕ)
unfolding hex_nibble
parse_bytes zero _ = some []
parse_bytes (suc count) (a ∷ b ∷ rest) = do
  high ← hex_nibble a
  low ← hex_nibble b
  bytes ← parse_bytes count rest
  some ((high * 16 + low) ∷ bytes)
parse_bytes (suc count) _ = none

-- Whether the text may be cut before these bytes.
unfoldable pub is_char_boundary : List ℕ → Bool
is_char_boundary [] = true
is_char_boundary (b ∷ _) = if leb 128 b then leb 192 b else true

-- `full_id.get(..12)`
unfoldable pub get_prefix : List ℕ → Option (List ℕ)
unfolding is_char_boundary
get_prefix full_id =
    if leb 12 (length full_id) && is_char_boundary (drop 12 full_id)
    then some (take 12 full_id)
    else none

unfoldable pub parse : List ℕ → Option ContainerId
unfolding parse_bytes get_prefix
parse full_id = do
  hex ← get_prefix full_id
  bytes ← parse_bytes 6 hex
  some (record { bytes = bytes })

-- One digit of `{byte:02x}`.
unfoldable pub hex_digit : ℕ → ℕ
hex_digit n = if ltb n 10 then n + b'0' else n - 10 + b'a'

unfoldable pub hex_bytes : List ℕ → List ℕ
unfolding hex_digit
hex_bytes [] = []
hex_bytes (byte ∷ rest) = hex_digit (byte / 16) ∷ hex_digit (byte % 16) ∷ hex_bytes rest

unfoldable pub to_hex : ContainerId → List ℕ
unfolding hex_bytes
to_hex id = hex_bytes id.bytes

unfoldable pub from_bytes : List ℕ → Option ContainerId
from_bytes bytes = if length bytes == 6 then some (record { bytes = bytes }) else none

-- What `[u8; 6]` says of a value.
pub record IsContainerId (id : ContainerId) : Type 0 where
  pub six : length id.bytes ≡ 6
  pub in_byte : All (λ b. b < 256) id.bytes

eq_bytes : List ℕ → List ℕ → Bool
eq_bytes [] [] = true
eq_bytes (a ∷ as') (b ∷ bs) = (a == b) && eq_bytes as' bs
eq_bytes _ _ = Bool.false

eq_bytes_iff : (xs ys : List ℕ) → (eq_bytes xs ys ≡ true) ↔ (xs ≡ ys)
unfolding eq_bytes
eq_bytes_iff [] [] = ground arith
eq_bytes_iff (a ∷ xs) (b ∷ ys) = ground (arith, eq_bytes_iff xs ys)
eq_bytes_iff [] (b ∷ ys) = ground arith
eq_bytes_iff (a ∷ xs) [] = ground arith

unfoldable pub eq_id : ContainerId → ContainerId → Bool
unfolding eq_bytes
eq_id a b = eq_bytes a.bytes b.bytes

pub eq_id_iff : (a b : ContainerId) → (eq_id a b ≡ true) ↔ (a ≡ b)
unfolding eq_id
eq_id_iff a b = (
  λ h i. record { bytes = (eq_bytes_iff a.bytes b.bytes).0 h i },
  λ p. (eq_bytes_iff a.bytes b.bytes).1 (ap (λ (c : ContainerId). c.bytes) p),
)

instance abbrev pub Eq-ContainerId : Eq ContainerId
Eq-ContainerId = record { test = eq_id; test_iff = eq_id_iff }
