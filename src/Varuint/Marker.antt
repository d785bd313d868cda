-- ===== src/Varuint/Marker.antt =====
-- The first byte of an integer of src/core/utils/varuint.c, by a table over all of them.
use obc.Common.{
  ℕ, zero, suc, ◌-◌, ◌≤◌, ◌<◌, bit_and, bit_or, ◌==◌, ◌&&◌, get_or, Bool, true, ◌≡◌, refl, arith,
  inl, inr, not, ◌⊎◌,
}
use obc.Varuint.{markers, VaruintDecoder, find_marker, varuint_decoder_feed}

-- The decoder that expects `n` more bytes.
abbrev pub expecting : ℕ → ℕ → ℕ → VaruintDecoder
expecting n read w = record { bytes_left = n; bytes_read = read; value = w }

-- The first byte of a value with `size` bytes, by a table over all sizes and all leading bits.
abbrev pub first_byte : ℕ → ℕ → ℕ
first_byte size top =
    let (mask, pattern) = get_or markers (size - 1) (0, 0) in
    bit_or (bit_and (bit_or 128 top) (255 - mask)) pattern

unfoldable pub first_found : ℕ → ℕ → Bool
first_found size top =
    let (i, mask) = find_marker markers (first_byte size top) 0 in
    (bit_and (first_byte size top) 128 == 0)
    && (i == size - 1)
    && not (mask == 0)
    && (bit_and (first_byte size top) (255 - mask) == top)

unfoldable pub found_below : ℕ → ℕ → Bool
found_below size zero = true
found_below size (suc top) = first_found size top && found_below size top

compare-cases : (a n : ℕ) → a < suc n → (a < n) ⊎ (a ≡ n)
compare-cases a n h = ground arith

pub found_below→ :
    (size n top : ℕ) → found_below size n ≡ true → top < n → first_found size top ≡ true
unfolding found_below
found_below→ size zero top e h = absurd (omega arith)
found_below→ size (suc n) top e h = elim (compare-cases top n h) [
  | inl l ↦ found_below→ size n top (ground (arith, e)) l
  | inr q ↦ rw q (ground (arith, e))
]

pub all_found :
    (found_below 1 64 ≡ true)
    × (found_below 2 32 ≡ true)
    × (found_below 3 16 ≡ true)
    × (found_below 4 8 ≡ true)
    × (found_below 5 4 ≡ true)
    × (found_below 6 2 ≡ true)
    × (found_below 7 1 ≡ true)
    × (found_below 8 1 ≡ true)
unfolding found_below first_found find_marker
all_found = (refl, refl, refl, refl, refl, refl, refl, refl)

pub feed-first :
    (size top : ℕ) (d : VaruintDecoder)
    → 1 ≤ size
    → size ≤ 8
    → first_found size top ≡ true
    → varuint_decoder_feed d (first_byte size top) ≡ (expecting (size - 1) 1 top, size == 1)
unfolding varuint_decoder_feed first_found
feed-first size top d h k e = ground (arith, e)
