-- ===== src/Varuint/Stream.antt =====
-- The stream decoder of src/core/utils/varuint.c on what the encoder writes.
use obc.Common.{
  ℕ, zero, suc, ◌+◌, ◌-◌, ◌*◌, ◌/◌, ◌%◌, ◌^◌, ◌≤◌, ◌<◌, bit_and, bit_or, ◌==◌, get_or, List, [],
  ◌∷◌, ◌++◌, replicate, true, false, ◌≡◌, refl, ap, ◌∙◌, arith,
}
use native.Mathlib.Nat.{pow-le-pow_right}
use obc.Common.Bits.{bit_or-zero, bit_and_mask, bit_and_bit, bit_or_disjoint}
use obc.Common.Words.{IsU32}
use obc.Varuint.Marker.{expecting, first_byte, first_found, found_below→, all_found, feed-first}
use obc.Varuint.{
  markers, thresholds, size_from, varuint_size_overlong, varuint_size, groups, mark_first,
  varuint_encode_overlong, VaruintDecoder, varuint_decoder_feed, varuint_decoder_get_overlong,
  feed_bytes,
}

-- A 32-bit value fits its size, which is six at most.
pub size-fits :
    (value : ℕ)
    → IsU32 value
    → let n = size_from thresholds value 1 in (value < 2 ^ (6 * n)) × (1 ≤ n) × (n ≤ 6)
size-fits value h = ground arith

feed_bytes-append :
    (xs ys : List ℕ) (d : VaruintDecoder)
    → feed_bytes d (xs ++ ys) ≡ (
      (feed_bytes (feed_bytes d xs).0 ys).0,
      (feed_bytes d xs).1 ++ (feed_bytes (feed_bytes d xs).0 ys).1,
    )
unfolding feed_bytes
feed_bytes-append [] ys d = refl
feed_bytes-append (x ∷ xs) ys d =
    grind (arith, feed_bytes-append xs ys (varuint_decoder_feed d x).0)

-- A continuation byte.
feed-continuation :
    (v left read w : ℕ)
    → read < 255
    → w * 128 + v % 128 < 2 ^ 32
    → varuint_decoder_feed
        (record { bytes_left = suc left; bytes_read = read; value = w })
        (bit_or 128 (bit_and v 127))
      ≡ (record { bytes_left = left; bytes_read = suc read; value = w * 128 + v % 128 }, left == 0)
unfolding varuint_decoder_feed
feed-continuation v left read w hr hw = ground (
  arith,
  bit_and_mask 7 v 127 (omega arith),
  bit_or_disjoint 7 1 (bit_and v 127) (omega (arith, bit_and_mask 7 v 127 (omega arith))),
  bit_and_bit 7 (bit_or 128 (bit_and v 127)),
  bit_and_mask 7 (bit_or 128 (bit_and v 127)) 127 (omega arith),
  bit_or_disjoint 7 w (v % 128) (omega arith),
)

-- A value without its last `n` groups.
abbrev pub shift : ℕ → ℕ → ℕ
shift zero value = value
shift (suc n) value = shift n (value / 128)

snoc : (n : ℕ) → replicate n false ++ (false ∷ []) ≡ replicate (suc n) false
snoc zero = refl
snoc (suc n) = ap (λ t. false ∷ t) (snoc n)

-- Continuation bytes after the leading bits of a value.
feed-groups :
    (n value left read : ℕ)
    → value < 2 ^ 32
    → read + n < 256
    → feed_bytes (expecting (n + suc left) read (shift n value)) (groups n value)
      ≡ (expecting (suc left) (read + n) value, replicate n false)
unfolding feed_bytes groups
feed-groups zero value left read h k = grind arith
feed-groups (suc n) value left read h k = grind (
  arith,
  feed_bytes-append (groups n (value / 128)) (bit_or 128 (bit_and value 127) ∷ [])
      (expecting (suc n + suc left) read (shift n (value / 128))),
  feed-groups n (value / 128) (suc left) read (omega arith) (omega arith),
  feed-continuation value (suc left) (read + n) (value / 128) (omega arith) (omega arith),
  snoc n,
)

-- The last continuation byte completes the value.
feed-last :
    (n value read : ℕ)
    → value < 2 ^ 32
    → read + suc n < 256
    → feed_bytes (expecting (suc n) read (shift (suc n) value)) (groups (suc n) value)
      ≡ (expecting 0 (read + suc n) value, replicate n false ++ (true ∷ []))
unfolding feed_bytes groups
feed-last n value read h k = grind (
  arith,
  feed_bytes-append (groups n (value / 128)) (bit_or 128 (bit_and value 127) ∷ [])
      (expecting (suc n) read (shift n (value / 128))),
  feed-groups n (value / 128) 0 read (omega arith) (omega arith),
  feed-continuation value 0 (read + n) (value / 128) (omega arith) (omega arith),
)

groups-first :
    (n value : ℕ) → groups (suc n) value ≡ bit_or 128 (bit_and (shift n value) 127) ∷ groups n value
unfolding groups
groups-first zero value = refl
groups-first (suc n) value =
    ap (λ xs. xs ++ (bit_or 128 (bit_and value 127) ∷ [])) (groups-first n (value / 128))

-- The leading bits of a value of at most `size` groups fit the first byte.
pub shift-lt :
    (n value : ℕ)
    → n < 8
    → value < 2 ^ 32
    → value < 2 ^ (6 * suc n)
    → (shift n value < 128) × (first_found (suc n) (shift n value) ≡ true)
shift-lt zero value k h l = (omega arith, found_below→ 1 64 value all_found.0 (omega arith))
shift-lt (suc zero) value k h l =
    (omega arith, found_below→ 2 32 (value / 128) all_found.1 (omega arith))
shift-lt (suc (suc zero)) value k h l =
    (omega arith, found_below→ 3 16 ((value / 128) / 128) all_found.2 (omega arith))
shift-lt (suc (suc (suc zero))) value k h l =
    (omega arith, found_below→ 4 8 (((value / 128) / 128) / 128) all_found.3 (omega arith))
shift-lt (suc (suc (suc (suc zero)))) value k h l =
    (omega arith, found_below→ 5 4 ((((value / 128) / 128) / 128) / 128) all_found.4 (omega arith))
shift-lt (suc (suc (suc (suc (suc zero))))) value k h l = (
  omega arith,
  found_below→ 6 2 (((((value / 128) / 128) / 128) / 128) / 128) all_found.5 (omega arith),
)
shift-lt (suc (suc (suc (suc (suc (suc zero)))))) value k h l = (
  omega arith,
  found_below→ 7 1 ((((((value / 128) / 128) / 128) / 128) / 128) / 128) all_found.6 (omega arith),
)
shift-lt (suc (suc (suc (suc (suc (suc (suc zero))))))) value k h l = (
  omega arith,
  found_below→ 8 1 (((((((value / 128) / 128) / 128) / 128) / 128) / 128) / 128) all_found.7
      (omega arith),
)
shift-lt (suc (suc (suc (suc (suc (suc (suc (suc n)))))))) value k h l = absurd (omega arith)

encode-bytes :
    (n value : ℕ)
    → n < 8
    → shift n value < 128
    → mark_first (get_or markers n (0, 0)) (groups (suc n) value)
      ≡ first_byte (suc n) (shift n value) ∷ groups n value
encode-bytes n value k h =
    rw (groups-first n value, bit_and_mask 7 (shift n value) 127 (omega arith), small, pred) refl
  where
    small : shift n value % 2 ^ 7 ≡ shift n value
    small = omega arith

    pred : suc n - 1 ≡ n
    pred = omega arith

pub one_byte : (value : ℕ) → value < 64 → bit_and value 63 ≡ first_byte 1 value
one_byte value h = omega (
  arith,
  bit_and_mask 6 value 63 (omega arith),
  bit_and_mask 6 (bit_or 128 value) 63 (omega arith),
  bit_or_disjoint 7 1 value (omega arith),
  bit_or-zero (bit_and (bit_or 128 value) 63),
)

-- What the encoder writes: a first byte with the leading bits, and the other groups.
pub encode-first :
    (n value overlong : ℕ)
    → n < 8
    → varuint_size_overlong value overlong ≡ suc n
    → value < 2 ^ 32
    → value < 2 ^ (6 * suc n)
    → varuint_encode_overlong value overlong ≡ first_byte (suc n) (shift n value) ∷ groups n value
unfolding varuint_encode_overlong groups
encode-first zero value overlong k e h l = rw e (ap (λ b. b ∷ []) (one_byte value l))
encode-first (suc n) value overlong k e h l =
    rw (e, not_one)
      (ap (λ m. mark_first (get_or markers m (0, 0)) (groups (suc (suc n)) value)) pred
        ∙ encode-bytes (suc n) value k (shift-lt (suc n) value k h l).0)
  where
    not_one : (suc (suc n) == 1) ≡ false
    not_one = ground arith

    pred : suc (suc n) - 1 ≡ suc n
    pred = omega arith

-- A first byte and its continuation.
feed-encoded :
    (n value : ℕ) (d : VaruintDecoder)
    → n < 8
    → value < 2 ^ 32
    → value < 2 ^ (6 * suc n)
    → feed_bytes d (first_byte (suc n) (shift n value) ∷ groups n value)
      ≡ (expecting 0 (suc n) value, replicate n false ++ (true ∷ []))
unfolding feed_bytes groups
feed-encoded zero value d k h l =
    grind (arith, feed-first 1 value d (omega arith) (omega arith) (shift-lt zero value k h l).1)
feed-encoded (suc n) value d k h l = grind (
  arith,
  feed-first (suc (suc n)) (shift (suc n) value) d (omega arith) (omega arith)
      (shift-lt (suc n) value k h l).1,
  feed-last n value 1 h (omega arith),
)

pub larger-power : (value k n : ℕ) → value < 2 ^ (6 * k) → k ≤ n → value < 2 ^ (6 * n)
larger-power value k n h l =
    omega (arith, pow-le-pow_right {n = 2} (omega arith) {i = 6 * k} {j = 6 * n} (omega arith))

-- A decoder in any state, fed with what the encoder writes for a 32-bit value in at most eight bytes,
-- answers false until the last byte and true to that, and then holds the value and how many bytes
-- longer than necessary it was.
pub feed_bytes-encode :
    (d : VaruintDecoder) (value overlong : ℕ)
    → IsU32 value
    → varuint_size value + overlong ≤ 8
    → let (d', answers) = feed_bytes d (varuint_encode_overlong value overlong) in
      (d'.value ≡ value)
      × (varuint_decoder_get_overlong d' ≡ overlong)
      × (answers ≡ replicate (varuint_size value + overlong - 1) false ++ (true ∷ []))
unfolding varuint_size varuint_size_overlong varuint_decoder_get_overlong
feed_bytes-encode d value overlong h k =
    let (l, lo, hi) = size-fits value h in
    let k' : s + overlong ≤ 8 = omega (arith, k, hi) in
    let wide : value < 2 ^ (6 * suc n) = larger-power value s (suc n) l (omega arith) in
    let e : varuint_size_overlong value overlong ≡ suc n = omega (arith, k', lo) in
    let bytes = encode-first n value overlong (omega arith) e h wide in
    let fed = feed-encoded n value d (omega arith) h wide in grind (arith, bytes, fed, lo, hi, k')
  where
    s : ℕ
    s = size_from thresholds value 1

    n : ℕ
    n = s + overlong - 1
