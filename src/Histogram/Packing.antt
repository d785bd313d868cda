-- ===== src/Histogram/Packing.antt =====
-- Packing and unpacking of src/core/utils/histogram.c against each other.
use obc.Common.{
  Bool-cases, inl, inr, ℕ, zero, suc, ◌+◌, ◌<◌, ◌≤◌, ◌≡◌, refl, sym, ap, ◌∙◌, ltb, length,
  length-append, replicate, List, [], ◌∷◌, ◌++◌, All, some, arith,
}
use mathlib.Core.List.{append_assoc, append-nil}
use obc.Common.Words.{IsU16, IsU32}
use obc.Varuint.{
  varuint_size, varuint_size_overlong, varuint_encode, varuint_encode_overlong, Decoded,
  varuint_decode_overlong,
}
use obc.Varuint.Buffer.{decode-encode_varuint}
use obc.Histogram.{
  uint32_max, encode_run, written, next_run, pack_from, histogram_pack, cells, prepend, unpack_next,
  unpack_loop, histogram_unpack,
}

size_lt : (value : ℕ) → IsU32 value → varuint_size value ≤ 6
unfolding varuint_size varuint_size_overlong
size_lt value h = ground arith

-- A number that decodes is one pass.
unpack_loop-decoded :
    (fuel x overlong : ℕ) (bs ys : List ℕ)
    → varuint_decode_overlong bs ≡ Decoded.decoded x overlong ys
    → unpack_loop (suc fuel) bs ≡ prepend (cells x overlong) (unpack_loop fuel ys)
unfolding varuint_decode_overlong
unpack_loop-decoded fuel x overlong [] ys h = absurd (cc)
unpack_loop-decoded fuel x overlong (b ∷ bs) ys h = ap (λ d. unpack_next d (unpack_loop fuel)) h

decode-positive :
    (bs : List ℕ) (x overlong : ℕ)
    → varuint_decode_overlong (bs ++ []) ≡ Decoded.decoded x overlong []
    → 1 ≤ length bs
unfolding varuint_decode_overlong
decode-positive [] x overlong h = absurd (cc)
decode-positive (b ∷ bs) x overlong h = omega arith

-- One number in front of other bytes, with fuel for all of them.
unpack_loop-encoded :
    (fuel value overlong : ℕ) (ys zs : List ℕ)
    → IsU32 value
    → overlong ≤ 1
    → length (varuint_encode_overlong value overlong ++ ys) ≤ fuel
    → ((fuel' : ℕ) → length ys ≤ fuel' → unpack_loop fuel' ys ≡ some zs)
    → unpack_loop fuel (varuint_encode_overlong value overlong ++ ys)
      ≡ some (cells value overlong ++ zs)
unpack_loop-encoded zero value overlong ys zs h o l f =
    let k : varuint_size value + overlong ≤ 8 = omega (arith, size_lt value h, o) in
    let enc = varuint_encode_overlong value overlong in
    absurd (
      omega (
        arith,
        l,
        length-append enc ys,
        decode-positive enc value overlong (decode-encode_varuint value overlong [] h k),
      ))
unpack_loop-encoded (suc fuel) value overlong ys zs h o l f =
    let k : varuint_size value + overlong ≤ 8 = omega (arith, size_lt value h, o) in
    let enc = varuint_encode_overlong value overlong in
    let one = decode-positive enc value overlong (decode-encode_varuint value overlong [] h k) in
    unpack_loop-decoded fuel value overlong (enc ++ ys) ys
      (decode-encode_varuint value overlong ys h k)
    ∙ ap (prepend (cells value overlong)) (f fuel (omega (arith, l, length-append enc ys, one)))

-- What unpacks to some cells, with any fuel that is enough for its bytes.
abbrev pub UnpacksTo : List ℕ → List ℕ → Type 0
UnpacksTo bs zs = (fuel : ℕ) → length bs ≤ fuel → unpack_loop fuel bs ≡ some zs

encode_run-long : (n : ℕ) → encode_run (suc (suc n)) ≡ varuint_encode_overlong (suc (suc n)) 1
unfolding encode_run
encode_run-long n = ground arith

encode_run-UnpacksTo :
    (n : ℕ) (ys zs : List ℕ)
    → n ≤ uint32_max
    → UnpacksTo ys zs
    → UnpacksTo (encode_run n ++ ys) (replicate n 0 ++ zs)
unfolding encode_run varuint_encode
encode_run-UnpacksTo zero ys zs h f fuel l = f fuel l
encode_run-UnpacksTo (suc zero) ys zs h f fuel l =
    unpack_loop-encoded fuel 0 0 ys zs (omega arith) (omega arith) l f
encode_run-UnpacksTo (suc (suc n)) ys zs h f fuel l =
    let e = ap (λ bs. bs ++ ys) (encode_run-long n) in
    ap (unpack_loop fuel) e
    ∙ unpack_loop-encoded fuel (suc (suc n)) 1 ys zs (omega arith) (omega arith)
        (omega (arith, l, ap length e)) f

cell-UnpacksTo :
    (x : ℕ) (ys zs : List ℕ)
    → IsU16 x
    → UnpacksTo ys zs
    → UnpacksTo (varuint_encode x ++ ys) (x ∷ zs)
unfolding varuint_encode
cell-UnpacksTo x ys zs h f fuel l =
    unpack_loop-encoded fuel x 0 ys zs (omega arith) (omega arith) l f
    ∙ ap (λ cs. some (cs ++ zs)) small
  where
    small : cells x 0 ≡ x ∷ []
    small = ground arith

replicate-suc : (n : ℕ) (xs : List ℕ) → replicate (suc n) 0 ++ xs ≡ replicate n 0 ++ (0 ∷ xs)
replicate-suc zero xs = refl
replicate-suc (suc n) xs = ap (λ ys. 0 ∷ ys) (replicate-suc n xs)

unpack_loop-nil : (fuel : ℕ) → unpack_loop fuel [] ≡ some []
unpack_loop-nil zero = refl
unpack_loop-nil (suc fuel) = refl

zero-counted : (n : ℕ) → n < uint32_max → (written n 0 ≡ []) × (next_run n 0 ≡ suc n)
zero-counted n h = ground arith

zero-flushed : (n : ℕ) → uint32_max ≤ n → (written n 0 ≡ encode_run n) × (next_run n 0 ≡ 1)
zero-flushed n h = ground arith

cell-written :
    (n x : ℕ)
    → (written n (suc x) ≡ encode_run n ++ varuint_encode (suc x)) × (next_run n (suc x) ≡ 0)
cell-written n x = ground arith

pack_from-UnpacksTo :
    (xs : List ℕ) (n : ℕ)
    → All IsU16 xs
    → n ≤ uint32_max
    → UnpacksTo (pack_from n xs) (replicate n 0 ++ xs)
pack_from-UnpacksTo [] n h l =
    rw (sym (append-nil (encode_run n)))
      (encode_run-UnpacksTo n [] [] l (λ fuel k. unpack_loop-nil fuel))
pack_from-UnpacksTo (zero ∷ xs) n h l = elim (Bool-cases (ltb n uint32_max)) [
  | inl c ↦
      let e = zero-counted n (ground (arith, c)) in
      rw (e.0, e.1, sym (replicate-suc n xs))
        (pack_from-UnpacksTo xs (suc n) h.1 (ground (arith, c)))
  | inr c ↦
      let e = zero-flushed n (ground (arith, c)) in
      rw (e.0, e.1)
        (encode_run-UnpacksTo n (pack_from 1 xs) (0 ∷ xs) l
          (pack_from-UnpacksTo xs 1 h.1 (omega arith)))
]
pack_from-UnpacksTo (suc x ∷ xs) n h l =
    let e = cell-written n x in
    rw (e.0, e.1, append_assoc (encode_run n) (varuint_encode (suc x)) (pack_from 0 xs))
      (encode_run-UnpacksTo n (varuint_encode (suc x) ++ pack_from 0 xs) (suc x ∷ xs) l (
        cell-UnpacksTo (suc x) (pack_from 0 xs) xs h.0
          (pack_from-UnpacksTo xs 0 h.1 (omega arith))))

-- Unpacking what was packed gives back the histogram, of any number of 16-bit cells: the loop ends
-- with a pass for each number, reads nothing behind the end of the buffer, and the runs of zeros
-- are as long as before.
pub unpack-pack : (xs : List ℕ) → All IsU16 xs → histogram_unpack (histogram_pack xs) ≡ some xs
unfolding histogram_pack histogram_unpack
unpack-pack xs h = pack_from-UnpacksTo xs 0 h (omega arith) (length (pack_from 0 xs)) (omega arith)
