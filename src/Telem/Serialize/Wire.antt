-- ===== src/Telem/Serialize/Wire.antt =====
-- The frames of src/core/telem/generic.cpp as plain lists of bytes.
use obc.Common.{
  Option, ◌⊎◌, ltb, if◌then◌else◌, ℕ, zero, suc, ◌+◌, ◌/◌, ◌%◌, ◌≤◌, ◌<◌, List, [], ◌∷◌, ◌++◌, some,
  set, drop, take, length, length-set, take-set, take-all, ◌≡◌, refl, ap, ◌∙◌, arith,
}
use obc.Telem.Generic.{Envelope, max_payload_length}
use obc.Telem.Serialize.{
  write_bytes, fill_defaults, address_byte, write_header, write_payload, write_crc, serialize,
}
use obc.Crc.{crc_ccitt}
use obc.Common.Bits.{bit_and_mask}
use mathlib.Core.List.{append-nil, append_assoc}
use native.Mathlib.Numerals.{add-one}
use native.Mathlib.Nat.{add_assoc}

-- Header and payload, which the checksum covers.
abbrev pub body : Envelope → List ℕ → List ℕ
body e payload = 0xca ∷ 0xfe ∷ e.seq_no ∷ e.frame_type ∷ address_byte e ∷ length payload ∷ payload

abbrev pub checksum : List ℕ → List ℕ
checksum bs = crc_ccitt 0 bs % 256 ∷ crc_ccitt 0 bs / 256 ∷ []

abbrev pub frame : Envelope → List ℕ → List ℕ
frame e payload = body e payload ++ checksum (body e payload)

if_pos-ltb {ℓ} : {A : Type ℓ} (n : ℕ) (x y : A) → (if ltb 0 (suc n) then x else y) ≡ x
if_pos-ltb n x y = ground arith

write_crc-copy :
    (buffer : List ℕ) (n : ℕ)
    → write_crc buffer n ≡ write_bytes buffer (n + 6) (checksum (take (n + 6) buffer))
unfolding write_crc write_bytes
write_crc-copy buffer n =
    rw (bit_and_mask 8 (crc_ccitt 0 (take (n + 6) buffer)) 0xff (omega arith), add_assoc) refl

length-write_bytes : (xs buffer : List ℕ) (i : ℕ) → length (write_bytes buffer i xs) ≡ length buffer
unfolding write_bytes
length-write_bytes [] buffer i = refl
length-write_bytes (x ∷ xs) buffer i =
    length-write_bytes xs (set buffer i x) (i + 1) ∙ length-set buffer i x

-- A copy just behind a prefix extends the prefix by what is copied.
take-write_bytes :
    (xs buffer : List ℕ) (i n : ℕ)
    → i + length xs ≡ n
    → n ≤ length buffer
    → take n (write_bytes buffer i xs) ≡ take i buffer ++ xs
unfolding write_bytes
take-write_bytes [] buffer i n e h =
    rw (append-nil (take i buffer)) (ap (λ k. take k buffer) (omega arith))
take-write_bytes (x ∷ xs) buffer i n e h =
    take-write_bytes xs (set buffer i x) (i + 1) n (omega arith)
      (omega (arith, length-set buffer i x))
    ∙ ap (λ t. t ++ xs) longer
    ∙ append_assoc (take i buffer) (x ∷ []) xs
  where
    longer : take (i + 1) (set buffer i x) ≡ take i buffer ++ (x ∷ [])
    longer = rw add-one (take-set buffer i x (omega arith))

-- Each part of `serialize` is a copy behind what is written already.
abbrev header : Envelope → ℕ → List ℕ
header e n = 0xca ∷ 0xfe ∷ e.seq_no ∷ e.frame_type ∷ address_byte e ∷ n ∷ []

write_header-copy :
    (buffer : List ℕ) (e : Envelope) (n : ℕ)
    → write_header buffer e n ≡ write_bytes buffer 0 (header e n)
unfolding write_header write_bytes
write_header-copy buffer e n = refl

payload_copied :
    (buffer front payload : List ℕ)
    → take 6 buffer ≡ front
    → length payload + 6 ≤ length buffer
    → take (length payload + 6) (write_payload buffer (some payload) (length payload))
      ≡ front ++ payload
unfolding write_payload
payload_copied buffer front [] e h = rw (append-nil front) e
payload_copied buffer front (x ∷ xs) e h =
    rw (if_pos-ltb (length xs) _ _, take-all (length xs) xs (omega arith), ← e)
      (take-write_bytes (x ∷ xs) buffer 6 (suc (length xs) + 6) (omega arith) (omega arith))

crc_copied :
    (buffer front : List ℕ) (n : ℕ)
    → take (n + 6) buffer ≡ front
    → n + 8 ≤ length buffer
    → take (n + 8) (write_crc buffer n) ≡ front ++ checksum front
crc_copied buffer front n e h =
    rw (write_crc-copy buffer n, ← e)
      (take-write_bytes (checksum (take (n + 6) buffer)) buffer (n + 6) (n + 8) (omega arith) h)

length-write_header :
    (buffer : List ℕ) (e : Envelope) (n : ℕ) → length (write_header buffer e n) ≡ length buffer
length-write_header buffer e n =
    rw (write_header-copy buffer e n) (length-write_bytes (header e n) buffer 0)

length-write_payload :
    (buffer payload : List ℕ) (n : ℕ)
    → length (write_payload buffer (some payload) n) ≡ length buffer
unfolding write_payload
length-write_payload buffer payload n = ground (arith, length-write_bytes (take n payload) buffer 6)

length-write_crc : (buffer : List ℕ) (n : ℕ) → length (write_crc buffer n) ≡ length buffer
length-write_crc buffer n =
    rw (write_crc-copy buffer n)
      (length-write_bytes (checksum (take (n + 6) buffer)) buffer (n + 6))

header_copied :
    (buffer : List ℕ) (e : Envelope) (n : ℕ)
    → 6 ≤ length buffer
    → take 6 (write_header buffer e n) ≡ header e n
header_copied buffer e n h =
    rw (write_header-copy buffer e n) (take-write_bytes (header e n) buffer 0 6 (omega arith) h)

abbrev sent : List ℕ → Envelope → List ℕ → List ℕ
sent buffer e payload =
    let n = length payload in write_crc (write_payload (write_header buffer e n) (some payload) n) n

length-sent :
    (buffer : List ℕ) (e : Envelope) (payload : List ℕ)
    → length (sent buffer e payload) ≡ length buffer
length-sent buffer e payload =
    let n = length payload in
    let h = write_header buffer e n in
    length-write_crc (write_payload h (some payload) n) n
    ∙ length-write_payload h payload n
    ∙ length-write_header buffer e n

sent-frame :
    (buffer : List ℕ) (e : Envelope) (payload : List ℕ)
    → length payload + 8 ≤ length buffer
    → take (length payload + 8) (sent buffer e payload) ≡ frame e payload
sent-frame buffer e payload h =
    let n = length payload in
    let b = write_header buffer e n in
    let fits : n + 8 ≤ length b = omega (arith, length-write_header buffer e n) in
    crc_copied (write_payload b (some payload) n) (body e payload) n
      (payload_copied b (header e n) payload (header_copied buffer e n (omega arith)) (omega arith))
      (omega (arith, length-write_payload b payload n))

-- Nothing behind the frame is written.
drop-set : (n i v : ℕ) (buffer : List ℕ) → i < n → drop n (set buffer i v) ≡ drop n buffer
drop-set zero i v buffer h = absurd (omega arith)
drop-set (suc n) i v [] h = refl
drop-set (suc n) zero v (x ∷ xs) h = refl
drop-set (suc n) (suc i) v (x ∷ xs) h = drop-set n i v xs (omega arith)

drop-write_bytes :
    (xs buffer : List ℕ) (i n : ℕ)
    → i + length xs ≤ n
    → drop n (write_bytes buffer i xs) ≡ drop n buffer
unfolding write_bytes
drop-write_bytes [] buffer i n h = refl
drop-write_bytes (x ∷ xs) buffer i n h =
    drop-write_bytes xs (set buffer i x) (i + 1) n (omega arith)
    ∙ drop-set n i x buffer (omega arith)

drop-write_header :
    (buffer : List ℕ) (e : Envelope) (n k : ℕ)
    → 6 ≤ k
    → drop k (write_header buffer e n) ≡ drop k buffer
drop-write_header buffer e n k h =
    ap (drop k) (write_header-copy buffer e n)
    ∙ drop-write_bytes (header e n) buffer 0 k (omega arith)

drop-write_payload :
    (buffer payload : List ℕ) (k : ℕ)
    → length payload + 6 ≤ k
    → drop k (write_payload buffer (some payload) (length payload)) ≡ drop k buffer
unfolding write_payload
drop-write_payload buffer payload k h =
    let all = take-all (length payload) payload (omega arith) in
    ground (
      arith,
      drop-write_bytes (take (length payload) payload) buffer 6 k (omega (arith, ap length all)),
    )

drop-sent :
    (buffer : List ℕ) (e : Envelope) (payload : List ℕ)
    → drop (length payload + 8) (sent buffer e payload) ≡ drop (length payload + 8) buffer
drop-sent buffer e payload =
    let n = length payload in
    let h = write_header buffer e n in
    let w = write_payload h (some payload) n in
    ap (drop (n + 8)) (write_crc-copy w n)
    ∙ drop-write_bytes (checksum (take (n + 6) w)) w (n + 6) (n + 8) (omega arith)
    ∙ drop-write_payload h payload (n + 8) (omega arith)
    ∙ drop-write_header buffer e n (n + 8) (omega arith)

-- With a payload that fits and room in the buffer, `serialize` reports the size of the frame, writes
-- exactly the frame of the completed envelope to the front of the buffer, and keeps all bytes of
-- the buffer behind the frame.
pub serialize-frame :
    (buffer : List ℕ) (buffer_length : ℕ) (e : Envelope) (payload : List ℕ)
    → length payload ≤ max_payload_length
    → length payload + 8 ≤ buffer_length
    → buffer_length ≤ length buffer
    → let (used, out) = serialize buffer buffer_length e (some payload) (length payload) in
      (used ≡ length payload + 8)
      × (take used out ≡ frame (fill_defaults e) payload)
      × (length out ≡ length buffer)
      × (drop used out ≡ drop used buffer)
unfolding serialize
serialize-frame buffer buffer_length e payload h k l = ground (
  arith,
  sent-frame buffer (fill_defaults e) payload (omega arith),
  length-sent buffer (fill_defaults e) payload,
  drop-sent buffer (fill_defaults e) payload,
)

-- A payload that is too long, or a buffer that is too small, is refused with the length 0, and
-- the buffer stays as it was.
pub serialize_refused :
    (buffer : List ℕ) (buffer_length : ℕ) (e : Envelope) (payload : Option (List ℕ)) (n : ℕ)
    → (max_payload_length < n) ⊎ (buffer_length < n + 8)
    → serialize buffer buffer_length e payload n ≡ (0, buffer)
unfolding serialize
serialize_refused buffer buffer_length e payload n h = ground arith
