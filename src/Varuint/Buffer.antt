-- ===== src/Varuint/Buffer.antt =====
-- The decoder of whole buffers of src/core/utils/varuint.c on what the encoder writes.
use obc.Common.{
  ℕ, zero, suc, ◌+◌, ◌-◌, ◌*◌, ◌/◌, ◌%◌, ◌^◌, ◌≤◌, ◌<◌, bit_and, bit_or, ◌==◌, List, [], ◌∷◌, ◌++◌,
  true, false, ◌≡◌, refl, ap, ◌∙◌, arith,
}
use mathlib.Core.List.{append_assoc}
use obc.Common.Bits.{bit_and_mask, bit_and_bit, bit_or_disjoint}
use obc.Common.Words.{u8, u32, IsU32}
use obc.Varuint.{
  markers, thresholds, size_from, varuint_size_overlong, varuint_size, groups,
  varuint_encode_overlong, find_marker, Decoded, assemble, varuint_decode_overlong,
}
use obc.Varuint.Marker.{first_byte, first_found}
use obc.Varuint.Stream.{shift, size-fits, one_byte, encode-first, larger-power, shift-lt}

-- One continuation byte.
assemble-continuation :
    (size n v w : ℕ) (ys : List ℕ)
    → w * 128 + v % 128 < 2 ^ 32
    → assemble size (suc n) (bit_or 128 (bit_and v 127) ∷ ys) w
      ≡ assemble size n ys (w * 128 + v % 128)
assemble-continuation size n v w ys h = rw (is_continuation, payload) refl
  where
    low : bit_and v 127 ≡ v % 128
    low = bit_and_mask 7 v 127 (omega arith)

    is_continuation : (bit_and (bit_or 128 (bit_and v 127)) 128 == 128) ≡ true
    is_continuation = ground (
      arith,
      low,
      bit_or_disjoint 7 1 (bit_and v 127) (omega (arith, low)),
      bit_and_bit 7 (bit_or 128 (bit_and v 127)),
    )

    payload : bit_or (u32 (w * 128)) (bit_and (bit_or 128 (bit_and v 127)) 127) ≡ w * 128 + v % 128
    payload = ground (
      arith,
      low,
      bit_or_disjoint 7 1 (bit_and v 127) (omega (arith, low)),
      bit_and_mask 7 (bit_or 128 (bit_and v 127)) 127 (omega arith),
      bit_or_disjoint 7 w (v % 128) (omega arith),
    )

-- The groups behind the leading bits of a value.
assemble-groups :
    (size n m value : ℕ) (ys : List ℕ)
    → value < 2 ^ 32
    → assemble size (n + m) (groups n value ++ ys) (shift n value) ≡ assemble size m ys value
unfolding groups
assemble-groups size zero m value ys h = ap (λ k. assemble size k ys value) (omega arith)
assemble-groups size (suc n) m value ys h =
    rw (append_assoc (groups n (value / 128)) (bit_or 128 (bit_and value 127) ∷ []) ys, split)
      (assemble-groups size n (suc m) (value / 128) (bit_or 128 (bit_and value 127) ∷ ys)
          (omega arith)
        ∙ assemble-continuation size m value (value / 128) ys (omega arith)
        ∙ ap (assemble size m ys) (omega arith))
  where
    split : suc n + m ≡ n + suc m
    split = omega arith

-- What the table says of a first byte.
first-marker :
    (size top : ℕ)
    → 1 ≤ size
    → first_found size top ≡ true
    → let b = first_byte size top in
      let (i, mask) = find_marker markers b 0 in
      (i ≡ size - 1)
      × ((mask == 0) ≡ false)
      × ((bit_and b 128 == 0) ≡ true)
      × (bit_and b (255 - mask) ≡ top)
unfolding first_found
first-marker size top h e = ground (arith, e)

-- A byte with its upper bits clear is found at once, and no other.
found-at_once : (b : ℕ) → (bit_and b 192 == 0) ≡ ((find_marker markers b 0).0 == 0)
unfolding find_marker
found-at_once b = ground arith

decode-long :
    (b : ℕ) (bs : List ℕ)
    → let (i, mask) = find_marker markers b 0 in
      (bit_and b 128 == 0) ≡ true
      → (bit_and b 192 == 0) ≡ false
      → (mask == 0) ≡ false
      → varuint_decode_overlong (b ∷ bs) ≡ assemble (suc i) i bs (bit_and b (255 - mask))
unfolding varuint_decode_overlong
decode-long b bs z u m = rw (z, u, m) refl

small_size : (value : ℕ) → value < 64 → varuint_size value ≡ 1
unfolding varuint_size varuint_size_overlong
small_size value h = ground arith

-- A first byte and what follows it.
decode-first :
    (n value : ℕ) (ys : List ℕ)
    → n < 8
    → value < 2 ^ 32
    → value < 2 ^ (6 * suc n)
    → varuint_decode_overlong (first_byte (suc n) (shift n value) ∷ (groups n value ++ ys))
      ≡ Decoded.decoded value (u8 (suc n + 256 - varuint_size value)) ys
unfolding varuint_decode_overlong groups
decode-first zero value ys k h l =
    let (i, m, z, t) = first-marker 1 value (omega arith) (shift-lt zero value k h l).1 in
    grind (
      arith,
      i,
      m,
      z,
      found-at_once (first_byte 1 value),
      one_byte value l,
      bit_and_mask 6 value 63 (omega arith),
      small_size value l,
    )
decode-first (suc n) value ys k h l =
    let (i, m, z, t) =
      first-marker (suc (suc n)) (shift (suc n) value) (omega arith)
        (shift-lt (suc n) value k h l).1 in
    let b = first_byte (suc (suc n)) (shift (suc n) value) in
    let u : (bit_and b 192 == 0) ≡ false = found-at_once b ∙ ground (arith, i) in
    let length : suc (suc n) - 1 ≡ suc n + 0 = omega arith in
    decode-long b (groups (suc n) value ++ ys) z u m
    ∙ ap
        (λ k.
          assemble (suc k) k (groups (suc n) value ++ ys)
            (bit_and b (255 - (find_marker markers b 0).1)))
        (i ∙ length)
    ∙ ap (assemble (suc (suc n + 0)) (suc n + 0) (groups (suc n) value ++ ys)) t
    ∙ assemble-groups (suc (suc n + 0)) (suc n) 0 value ys h
    ∙ ap (λ k. Decoded.decoded value (u8 (suc k + 256 - varuint_size value)) ys) (omega arith)

-- Of at most eight bytes: the decoder of buffers reads from what the encoder writes for a 32-bit
-- value, followed by any bytes, that value, how many bytes longer than necessary it was, and stops
-- exactly in front of the bytes that follow.
pub decode-encode_varuint :
    (value overlong : ℕ) (ys : List ℕ)
    → IsU32 value
    → varuint_size value + overlong ≤ 8
    → varuint_decode_overlong (varuint_encode_overlong value overlong ++ ys)
      ≡ Decoded.decoded value overlong ys
unfolding varuint_size varuint_size_overlong
decode-encode_varuint value overlong ys h k =
    let (l, lo, hi) = size-fits value h in
    let k' : s + overlong ≤ 8 = omega (arith, k, hi) in
    let wide : value < 2 ^ (6 * suc n) = larger-power value s (suc n) l (omega arith) in
    let e : varuint_size_overlong value overlong ≡ suc n = omega (arith, k', lo) in
    ap (λ xs. varuint_decode_overlong (xs ++ ys))
      (encode-first n value overlong (omega arith) e h wide)
    ∙ decode-first n value ys (omega arith) h wide
    ∙ ap (λ o. Decoded.decoded value o ys) (omega (arith, k', lo, hi))
  where
    s : ℕ
    s = size_from thresholds value 1

    n : ℕ
    n = s + overlong - 1
