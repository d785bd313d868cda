-- ===== src/Histogram/Size.antt =====
-- The size that src/core/utils/histogram.c announces for a packed histogram.
use obc.Common.{
  ℕ, zero, suc, ◌-◌, ◌/◌, ◌≡◌, refl, get_or, length, length-append, List, [], ◌∷◌, bit_and, bit_or,
  arith,
}
use obc.Varuint.{
  markers, mark_first, groups, varuint_size, varuint_size_overlong, varuint_encode,
  varuint_encode_overlong,
}
use obc.Histogram.{
  encode_run, written, next_run, pack_from, histogram_pack, size_of_run, size_written,
  packed_size_from, histogram_get_packed_size,
}

length-groups : (n value : ℕ) → length (groups n value) ≡ n
unfolding groups
length-groups zero value = refl
length-groups (suc n) value = omega (
  arith,
  length-append (groups n (value / 128)) (bit_or 128 (bit_and value 127) ∷ []),
  length-groups n (value / 128),
)

length-mark_first : (marker : ℕ × ℕ) (bs : List ℕ) → length (mark_first marker bs) ≡ length bs
length-mark_first (mask, pattern) [] = refl
length-mark_first (mask, pattern) (b ∷ bs) = refl

pub length-encode :
    (value overlong : ℕ)
    → length (varuint_encode_overlong value overlong) ≡ varuint_size_overlong value overlong
unfolding varuint_encode_overlong
length-encode value overlong =
    let n = varuint_size_overlong value overlong in
    ground (
      arith,
      length-groups n value,
      length-mark_first (get_or markers (n - 1) (0, 0)) (groups n value),
    )

length-encode_run : (n : ℕ) → length (encode_run n) ≡ size_of_run n
unfolding encode_run size_of_run varuint_encode varuint_size
length-encode_run n = ground (arith, length-encode n 1, length-encode 0 0)

length-written : (n x : ℕ) → length (written n x) ≡ size_written n x
unfolding varuint_encode varuint_size
length-written n x = ground (
  arith,
  length-encode_run n,
  length-encode x 0,
  length-append (encode_run n) (varuint_encode_overlong x 0),
)

packed_size_from_lem : (xs : List ℕ) (n : ℕ) → packed_size_from n xs ≡ length (pack_from n xs)
packed_size_from_lem [] n = omega (arith, length-encode_run n)
packed_size_from_lem (x ∷ xs) n = omega (
  arith,
  length-written n x,
  packed_size_from_lem xs (next_run n x),
  length-append (written n x) (pack_from (next_run n x) xs),
)

-- For any cells the size that `histogram_get_packed_size` announces is the number of bytes that
-- `histogram_pack` writes.
pub histogram_get_packed_size_lem :
    (xs : List ℕ) → histogram_get_packed_size xs ≡ length (histogram_pack xs)
unfolding histogram_get_packed_size histogram_pack
histogram_get_packed_size_lem xs = packed_size_from_lem xs 0
