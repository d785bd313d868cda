-- ===== src/Varuint/Tests.antt =====
-- The number 300, written with one byte more than it needs.
use obc.Common.{◌+◌, ◌-◌, ◌≤◌, [], ◌∷◌, ◌++◌, replicate, true, false, ◌≡◌, arith}
use obc.Varuint.{
  Decoded, varuint_decode_overlong, VaruintDecoder, varuint_size, varuint_size_overlong,
  varuint_encode_overlong, varuint_decoder_get_overlong, feed_bytes,
}
use obc.Varuint.Buffer.{decode-encode_varuint}
use obc.Varuint.Stream.{feed_bytes-encode}

-- A decoder that was cut off.
abbrev cut_off : VaruintDecoder
cut_off = record { bytes_left = 2; bytes_read = 1; value = 5 }

short_enough : varuint_size 300 + 1 ≤ 8
unfolding varuint_size varuint_size_overlong
short_enough = omega arith

feed_bytes-encode_example :
    let (d', answers) = feed_bytes cut_off (varuint_encode_overlong 300 1) in
    (d'.value ≡ 300)
    × (varuint_decoder_get_overlong d' ≡ 1)
    × (answers ≡ replicate (varuint_size 300 + 1 - 1) false ++ (true ∷ []))
feed_bytes-encode_example = feed_bytes-encode cut_off 300 1 (omega arith) short_enough

decode-encode_varuint_example :
    varuint_decode_overlong (varuint_encode_overlong 300 1 ++ (7 ∷ []))
    ≡ Decoded.decoded 300 1 (7 ∷ [])
decode-encode_varuint_example = decode-encode_varuint 300 1 (7 ∷ []) (omega arith) short_enough
