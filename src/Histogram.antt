-- ===== src/Histogram.antt =====
-- src/core/utils/histogram.c: histograms packed as integers of variable length, in which an overlong
-- integer is the length of a run of zeros.
pub mod Packing
pub mod Size
mod Tests
use obc.Common.{
  ℕ, zero, suc, ◌+◌, ◌-◌, ◌==◌, ltb, leb, if◌then◌else◌, length, replicate, List, [], ◌∷◌, ◌++◌,
  Option, none, some,
}
use obc.Varuint.{
  varuint_size, varuint_size_overlong, varuint_encode, varuint_encode_overlong, Decoded,
  varuint_decode_overlong,
}

abbrev pub uint32_max : ℕ
uint32_max = 4294967295

-- The code of a run of zeros that has ended; a run of one is a plain zero.
unfoldable pub encode_run : ℕ → List ℕ
encode_run run_length =
    if run_length == 0
    then []
    else (if ltb 1 run_length then varuint_encode_overlong run_length 1 else varuint_encode 0)

-- The loops of `histogram_pack` as one, which carries the length of the run that the inner loop has
-- counted so far: what a cell makes it write, and the run behind the cell.
abbrev pub written : ℕ → ℕ → List ℕ
written run_length x =
    if x == 0
    then (if ltb run_length uint32_max then [] else encode_run run_length)
    else (encode_run run_length ++ varuint_encode x)

abbrev pub next_run : ℕ → ℕ → ℕ
next_run run_length x =
    if x == 0 then (if ltb run_length uint32_max then run_length + 1 else 1) else 0

abbrev pub pack_from : ℕ → List ℕ → List ℕ
pack_from run_length [] = encode_run run_length
pack_from run_length (x ∷ xs) = written run_length x ++ pack_from (next_run run_length x) xs

unfoldable pub histogram_pack : List ℕ → List ℕ
unfolding encode_run
histogram_pack xs = pack_from 0 xs

unfoldable pub size_of_run : ℕ → ℕ
size_of_run run_length =
    if run_length == 0
    then 0
    else (if ltb 1 run_length then varuint_size_overlong run_length 1 else varuint_size 0)

abbrev pub size_written : ℕ → ℕ → ℕ
size_written run_length x =
    if x == 0
    then (if ltb run_length uint32_max then 0 else size_of_run run_length)
    else size_of_run run_length + varuint_size x

abbrev pub packed_size_from : ℕ → List ℕ → ℕ
packed_size_from run_length [] = size_of_run run_length
packed_size_from run_length (x ∷ xs) =
    size_written run_length x + packed_size_from (next_run run_length x) xs

unfoldable pub histogram_get_packed_size : List ℕ → ℕ
unfolding size_of_run
histogram_get_packed_size xs = packed_size_from 0 xs

-- The cells of a number.
abbrev pub cells : ℕ → ℕ → List ℕ
cells x overlong = if overlong == 0 then (if leb x 65535 then x else 0) ∷ [] else replicate x 0

abbrev pub prepend : List ℕ → Option (List ℕ) → Option (List ℕ)
prepend xs none = none
prepend xs (some ys) = some (xs ++ ys)

-- A pass of the loop: what was decoded, and the loop on the bytes behind it. `none` is a read behind
-- the end of the buffer.
abbrev pub unpack_next : Decoded → (List ℕ → Option (List ℕ)) → Option (List ℕ)
unpack_next (Decoded.decoded x overlong bs) rest = prepend (cells x overlong) (rest bs)
unpack_next Decoded.refused rest = some []
unpack_next Decoded.out_of_bounds rest = none

-- With fuel for the passes, each of which takes a byte at least.
abbrev pub unpack_loop : ℕ → List ℕ → Option (List ℕ)
unpack_loop fuel [] = some []
unpack_loop zero (b ∷ bs) = none
unpack_loop (suc fuel) (b ∷ bs) = unpack_next (varuint_decode_overlong (b ∷ bs)) (unpack_loop fuel)

unfoldable pub histogram_unpack : List ℕ → Option (List ℕ)
histogram_unpack bs = unpack_loop (length bs) bs
