-- ===== src/Model/ContainerId/RoundTrip.antt =====
-- src/model/container_id.rs: printing and parsing are inverse to one another.
use vpsiner.Prelude.{
  ℕ, zero, suc, ◌+◌, ◌*◌, ◌/◌, ◌%◌, ◌<◌, ◌≡◌, refl, ap, ◌∙◌, List, [], ◌∷◌, ◌++◌, Option, none,
  some, arith, length, take, All, ◌&&◌, length-append, true, false, Bool, leb, drop, if◌then◌else◌,
  take-take, take-append, drop-append, ◌>>=◌,
}
use vpsiner.Model.ContainerId.{
  ContainerId, IsContainerId, hex_nibble, hex_digit, hex_bytes, to_hex, parse_bytes, get_prefix,
  parse, is_char_boundary,
}

hex_nibble-hex_digit : (n : ℕ) → n < 16 → hex_nibble (hex_digit n) ≡ some n
unfolding hex_nibble hex_digit
hex_nibble-hex_digit n h = ground arith

hex_digit-hex_nibble : (c n : ℕ) → hex_nibble c ≡ some n → (hex_digit n ≡ c) × (n < 16)
unfolding hex_nibble hex_digit
hex_digit-hex_nibble c n h = ground arith

parse_bytes-hex_bytes :
    (bytes : List ℕ)
    → All (λ b. b < 256) bytes
    → parse_bytes (length bytes) (hex_bytes bytes) ≡ some bytes
unfolding hex_bytes parse_bytes
parse_bytes-hex_bytes [] h = refl
parse_bytes-hex_bytes (b ∷ bytes) h =
    rw
      (
        hex_nibble-hex_digit (b / 16) (omega arith),
        hex_nibble-hex_digit (b % 16) (omega arith),
        parse_bytes-hex_bytes bytes h.1,
      )
      (ap (λ x. some (x ∷ bytes)) (omega arith))

length-hex_bytes : (bytes : List ℕ) → length (hex_bytes bytes) ≡ length bytes + length bytes
unfolding hex_bytes
length-hex_bytes [] = omega arith
length-hex_bytes (b ∷ bytes) = omega (arith, length-hex_bytes bytes)

-- What one round of the loop has read, if it has read anything.
round_inversion :
    (x y : Option ℕ) (r : Option (List ℕ)) {bytes : List ℕ}
    → (do high ← x; low ← y; rest ← r; some ((high * 16 + low) ∷ rest)) ≡ some bytes
    → (high low : ℕ) × (rest : List ℕ) × (x ≡ some high)
      × (y ≡ some low)
      × (r ≡ some rest)
      × (bytes ≡ (high * 16 + low) ∷ rest)
round_inversion (some high) (some low) (some rest) h =
    (high, low, rest, refl, refl, refl, ground arith)
round_inversion none y r h = cc
round_inversion (some high) none r h = cc
round_inversion (some high) (some low) none h = cc

hex_byte :
    (high low : ℕ) (a b : ℕ)
    → hex_nibble a ≡ some high
    → hex_nibble b ≡ some low
    → (hex_digit ((high * 16 + low) / 16) ≡ a)
      × (hex_digit ((high * 16 + low) % 16) ≡ b)
      × (high * 16 + low < 256)
hex_byte high low a b p q =
    let (p1, p2) = hex_digit-hex_nibble a high p in
    let (q1, q2) = hex_digit-hex_nibble b low q in
    let e : (high * 16 + low) / 16 ≡ high = omega arith in
    let f : (high * 16 + low) % 16 ≡ low = omega arith in (rw e p1, rw f q1, omega arith)

take_two :
    (n : ℕ) (a b : ℕ) (text : List ℕ)
    → take (suc n + suc n) (a ∷ b ∷ text) ≡ a ∷ b ∷ take (n + n) text
take_two n a b text =
    let e : suc n + suc n ≡ suc (suc (n + n)) = omega arith in ap (λ k. take k (a ∷ b ∷ text)) e

hex_bytes-parse_bytes :
    (n : ℕ) (text bytes : List ℕ)
    → parse_bytes n text ≡ some bytes
    → (hex_bytes bytes ≡ take (n + n) text) × (length bytes ≡ n) × All (λ b. b < 256) bytes
unfolding hex_bytes parse_bytes
hex_bytes-parse_bytes zero text [] h = ground arith
hex_bytes-parse_bytes zero text (x ∷ bytes) h = cc
hex_bytes-parse_bytes (suc n) (a ∷ b ∷ text) bytes h =
    let (high, low, rest, p, q, r, e) =
      round_inversion (hex_nibble a) (hex_nibble b) (parse_bytes n text) h in
    let (ih, size, small) = hex_bytes-parse_bytes n text rest r in
    let (x, y, z) = hex_byte high low a b p q in
    rw (e, take_two) (ground (arith, ih, x, y), omega arith, (z, small))
hex_bytes-parse_bytes (suc n) [] bytes h = cc
hex_bytes-parse_bytes (suc n) (a ∷ []) bytes h = cc

parse_inversion :
    (text : List ℕ) (id : ContainerId)
    → parse text ≡ some id
    → parse_bytes 6 (take 12 text) ≡ some id.bytes
unfolding parse get_prefix
parse_inversion text id h = fits (leb 12 (length text) && is_char_boundary (drop 12 text)) h
  where
    built :
        (r : Option (List ℕ))
        → (do bytes ← r; some (record { bytes = bytes })) ≡ some id
        → r ≡ some id.bytes
    built none e = cc
    built (some bytes) e = ground arith

    fits :
        (b : Bool)
        → (do
          hex ← (if b then some (take 12 text) else none)
          bytes ← parse_bytes 6 hex
          some (record { bytes = bytes }))
          ≡ some id
        → parse_bytes 6 (take 12 text) ≡ some id.bytes
    fits true e = built (parse_bytes 6 (take 12 text)) e
    fits false e = cc

-- A text that parses gives an id of six bytes, which prints as the first twelve characters of the
-- text.
pub to_hex-parse :
    (text : List ℕ) (id : ContainerId)
    → parse text ≡ some id
    → (to_hex id ≡ take 12 text) × IsContainerId id
unfolding to_hex
to_hex-parse text id h =
    let (printed, size, small) =
      hex_bytes-parse_bytes 6 (take 12 text) id.bytes (parse_inversion text id h) in
    (printed ∙ take-take 12 text, record { six = size; in_byte = small })

-- An id of six bytes that is printed, with any text behind it that begins at a character boundary,
-- parses back to itself.
pub parse-to_hex :
    (id : ContainerId) (rest : List ℕ)
    → IsContainerId id
    → is_char_boundary rest ≡ true
    → parse (to_hex id ++ rest) ≡ some id
unfolding parse to_hex get_prefix
parse-to_hex id rest v b =
    let twelve : length (hex_bytes id.bytes) ≡ 12 =
      omega (arith, v.six, length-hex_bytes id.bytes) in
    let long : leb 12 (length (hex_bytes id.bytes ++ rest)) ≡ true =
      ground (arith, length-append (hex_bytes id.bytes) rest) in
    let t : take 12 (hex_bytes id.bytes ++ rest) ≡ hex_bytes id.bytes =
      rw (← twelve) (take-append _ rest) in
    let d : drop 12 (hex_bytes id.bytes ++ rest) ≡ rest =
      rw (← twelve) (drop-append (hex_bytes id.bytes) rest) in
    let p : parse_bytes 6 (hex_bytes id.bytes) ≡ some id.bytes =
      rw (← v.six) (parse_bytes-hex_bytes id.bytes v.in_byte) in
    rw (long, d, b, t, p)
