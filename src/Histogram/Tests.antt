-- ===== src/Histogram/Tests.antt =====
-- A histogram with runs of zeros of several lengths.
use obc.Common.{ℕ, length, ◌≡◌, List, [], ◌∷◌, some, arith}
use obc.Histogram.Size.{histogram_get_packed_size_lem}
use obc.Histogram.{histogram_get_packed_size, histogram_pack, histogram_unpack}
use obc.Histogram.Packing.{unpack-pack}

abbrev spectrum : List ℕ
spectrum = 5 ∷ 0 ∷ 0 ∷ 0 ∷ 700 ∷ 0 ∷ 65535 ∷ []

histogram_get_packed_size_lem_example :
    histogram_get_packed_size spectrum ≡ length (histogram_pack spectrum)
histogram_get_packed_size_lem_example = histogram_get_packed_size_lem spectrum

unpack-pack_example : histogram_unpack (histogram_pack spectrum) ≡ some spectrum
unpack-pack_example = unpack-pack spectrum (
  omega arith,
  (omega arith, (omega arith, (omega arith, (omega arith, (omega arith, (omega arith, tt)))))),
)
