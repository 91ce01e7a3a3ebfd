-- ===== src/Tests/Model.antt =====
-- src/model/: a container id, a stored code and a queried range.
use vpsiner.Prelude.{◌≡◌, refl, [], ◌∷◌, ◌++◌, some, arith, true}
use vpsiner.Model.ContainerId.{ContainerId, IsContainerId, parse, is_char_boundary, to_hex}
use vpsiner.Model.ContainerId.RoundTrip.{parse-to_hex}

abbrev packed : ContainerId
packed = record { bytes = 1 ∷ 35 ∷ 69 ∷ 103 ∷ 137 ∷ 171 ∷ [] }

packed-IsContainerId : IsContainerId packed
packed-IsContainerId = record {
  six = refl;
  in_byte =
      (omega arith, (omega arith, (omega arith, (omega arith, (omega arith, (omega arith, tt))))));
}

boundary : is_char_boundary (b'c' ∷ []) ≡ true
unfolding is_char_boundary
boundary = refl

parse-to_hex_example : parse (to_hex packed ++ b'c' ∷ []) ≡ some packed
parse-to_hex_example = parse-to_hex packed (b'c' ∷ []) packed-IsContainerId boundary
