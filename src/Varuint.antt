-- ===== src/Varuint.antt =====
-- src/core/utils/varuint.c: integers of variable length. A buffer is the list of the bytes written.
pub mod Marker
pub mod Stream
pub mod Buffer
mod Tests
use obc.Common.{
  ℕ, zero, suc, ◌+◌, ◌-◌, ◌*◌, ◌/◌, ◌^◌, bit_and, bit_or, ltb, ◌==◌, if◌then◌else◌, get_or, List,
  [], ◌∷◌, ◌++◌, Bool, not, true, false,
}
use obc.Common.Words.{u8, u32}

-- `MARKERS`: mask and pattern of the first byte, by length, and the sentinel.
abbrev pub markers : List (ℕ × ℕ)
markers =
    (192, 0)
    ∷ (224, 64)
    ∷ (240, 96)
    ∷ (248, 112)
    ∷ (252, 120)
    ∷ (254, 124)
    ∷ (255, 126)
    ∷ (255, 127)
    ∷ (0, 0)
    ∷ []

-- `THRESHOLDS`.
abbrev pub thresholds : List ℕ
thresholds = 2 ^ 6 ∷ 2 ^ 12 ∷ 2 ^ 18 ∷ 2 ^ 24 ∷ 2 ^ 30 ∷ []

-- The loop of `varuint_size_overlong`, from a threshold on; `size` is `i + 1`.
abbrev pub size_from : List ℕ → ℕ → ℕ → ℕ
size_from [] value size = size
size_from (t ∷ ts) value size =
    let rest = size_from ts value (suc size) in if ltb value t then size else rest

unfoldable pub varuint_size_overlong : ℕ → ℕ → ℕ
varuint_size_overlong value overlong = u8 (size_from thresholds value 1 + overlong)

unfoldable pub varuint_size : ℕ → ℕ
varuint_size value = varuint_size_overlong value 0

-- The loop of `varuint_encode_overlong`, which writes from the last byte to the first.
unfoldable pub groups : ℕ → ℕ → List ℕ
groups zero value = []
groups (suc n) value = groups n (value / 128) ++ (bit_or 128 (bit_and value 127) ∷ [])

-- The marker in the first byte. A size beyond the table would read it out of bounds; `~mask` of
-- eight bits is `255 - mask`.
abbrev pub mark_first : ℕ × ℕ → List ℕ → List ℕ
mark_first marker [] = []
mark_first (mask, pattern) (b ∷ bs) = bit_or (bit_and b (255 - mask)) pattern ∷ bs

unfoldable pub varuint_encode_overlong : ℕ → ℕ → List ℕ
varuint_encode_overlong value overlong =
    let size = varuint_size_overlong value overlong in
    if size == 1
    then bit_and value 63 ∷ []
    else mark_first (get_or markers (size - 1) (0, 0)) (groups size value)

unfoldable pub varuint_encode : ℕ → List ℕ
varuint_encode value = varuint_encode_overlong value 0

-- `varuint_decoder_t`.
pub record VaruintDecoder : Type 0 where
  pub bytes_left : ℕ
  pub bytes_read : ℕ
  pub value : ℕ

unfoldable pub varuint_decoder_reset : VaruintDecoder
varuint_decoder_reset = record { bytes_left = 0; bytes_read = 0; value = 0 }

-- The search for the marker of a first byte, from index `i` on: the index and the mask.
unfoldable pub find_marker : List (ℕ × ℕ) → ℕ → ℕ → ℕ × ℕ
find_marker [] ch i = (i, 0)
find_marker ((mask, pattern) ∷ ms) ch i =
    let rest = find_marker ms ch (suc i) in if bit_and ch mask == pattern then (i, mask) else rest

unfoldable pub varuint_decoder_feed : VaruintDecoder → ℕ → VaruintDecoder × Bool
varuint_decoder_feed d ch =
    let (i, mask) = find_marker markers ch 0 in
    if bit_and ch 128 == 0
    then (if mask == 0 then (d, false) else (
      record { bytes_left = u8 i; bytes_read = 1; value = bit_and ch (255 - mask) },
      u8 i == 0,
    ))
    else (if ltb 0 d.bytes_left
        then (
          record {
            bytes_left = d.bytes_left - 1;
            bytes_read = u8 (d.bytes_read + 1);
            value = bit_or (u32 (d.value * 128)) (bit_and ch 127);
          },
          d.bytes_left - 1 == 0,
        )
        else (d, false))

unfoldable pub varuint_decoder_get_overlong : VaruintDecoder → ℕ
varuint_decoder_get_overlong d = u8 (d.bytes_read + 256 - varuint_size d.value)

-- The answers to a stream of bytes, and the decoder behind it.
unfoldable pub feed_bytes : VaruintDecoder → List ℕ → VaruintDecoder × List Bool
feed_bytes d [] = (d, [])
feed_bytes d (ch ∷ chs) =
    let (d', b) = varuint_decoder_feed d ch in let (d'', bs) = feed_bytes d' chs in (d'', b ∷ bs)

-- What `varuint_decode_overlong` gives: a value, how much longer than necessary it was and the bytes
-- behind it; or the pointer it was given; or a read behind the end of the buffer.
pub data Decoded : Type 0 where
  decoded : ℕ → ℕ → List ℕ → Decoded
  refused out_of_bounds : Decoded

-- The last loop of `varuint_decode_overlong`, over `n` more bytes; `size` is that of the whole.
abbrev pub assemble : ℕ → ℕ → List ℕ → ℕ → Decoded
assemble size zero bs result = Decoded.decoded result (u8 (size + 256 - varuint_size result)) bs
assemble size (suc n) [] result = Decoded.out_of_bounds
assemble size (suc n) (b ∷ bs) result =
    let rest = assemble size n bs (bit_or (u32 (result * 128)) (bit_and b 127)) in
    if bit_and b 128 == 128 then rest else Decoded.refused

unfoldable pub varuint_decode_overlong : List ℕ → Decoded
varuint_decode_overlong [] = Decoded.out_of_bounds
varuint_decode_overlong (b ∷ bs) =
    let (i, mask) = find_marker markers b 0 in
    let long = assemble (suc i) i bs (bit_and b (255 - mask)) in
    if not (bit_and b 128 == 0)
    then Decoded.refused
    else (if bit_and b 192 == 0
        then Decoded.decoded b 0 bs
        else (if mask == 0 then Decoded.refused else long))

-- `varuint_decode`, which does not ask how long the representation was.
unfoldable pub varuint_decode : List ℕ → Decoded
varuint_decode = varuint_decode_overlong
