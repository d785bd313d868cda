-- ===== src/Telem/Parser/Framing.antt =====
-- The parser of src/core/telem/parser.cpp on the bytes of one frame.
use obc.Common.{
  ℕ, zero, suc, ◌+◌, ◌-◌, ◌*◌, ◌/◌, ◌%◌, ◌≤◌, ◌<◌, bit_and, List, [], ◌∷◌, ◌++◌, get_or, take, drop,
  length, replicate, some, ◌≡◌, refl, sym, ap, ap₂, ◌∙◌, arith, length-append, get_or-take,
  take_prefix, take-drop_prefix,
}
use obc.Common.Bits.{bit_and_mask, bit_or_disjoint}
use obc.Telem.Generic.{Envelope, max_message_length, max_payload_length}
use obc.Telem.Serialize.{address_byte, fill_defaults, serialize}
use obc.Telem.Serialize.Wire.{body, checksum, frame, serialize-frame}
use obc.Telem.Parser.{
  Parser, waiting_sync_byte_1, reading_header, reading_checksum, feed, feed_all, get_payload,
}
use obc.Telem.Parser.Runs.{
  Holds, Quiet, Quiet-cons, Quiet-nil, Quiet-payload, feed_all-append, step_sync_1, step_sync_2,
  step_header, step_header_empty, step_header_last, step_checksum, step_done,
}
use mathlib.Core.List.{append_assoc}
use obc.Crc.{crc_ccitt}
use obc.Crc.Residue.{crc_ccitt_residue}

-- The length byte and the payload.
Quiet-sized :
    (p : Parser) (bs payload : List ℕ)
    → Holds p reading_header bs 6
    → length bs ≡ 5
    → length payload ≤ max_payload_length
    → Quiet p
        (length payload ∷ payload)
        reading_checksum
        (bs ++ length payload ∷ payload)
        (length payload + 8)
Quiet-sized p bs [] h l m =
    let (z, h') = step_header_empty p bs 6 0 h (omega arith) (omega arith) refl in
    Quiet-cons p 0 [] _ _ _ z (Quiet-nil _ _ _ _ h')
Quiet-sized p bs (x ∷ xs) h l m =
    let n = length (x ∷ xs) in
    let (z, h') = step_header_last p bs 6 n h (omega arith) (omega arith) (omega arith) m in
    Quiet-cons p n (x ∷ xs) _ _ _ z (
      rw (← append_assoc bs (n ∷ []) (x ∷ xs)) (
        rw plus_eight (
          Quiet-payload x xs (feed p n).1 (bs ++ (n ∷ [])) (6 + n) h'
            (omega (arith, length-append bs (n ∷ []))) (omega arith))))
  where
    plus_eight : suc (length xs) + 8 ≡ 6 + suc (length xs) + 2
    plus_eight = omega arith

-- Sync word and header, then the payload, up to the checksum.
Quiet-body :
    (p : Parser) (e : Envelope) (payload : List ℕ)
    → p.state ≡ waiting_sync_byte_1
    → length p.message ≡ 72
    → length payload ≤ max_payload_length
    → Quiet p (body e payload) reading_checksum (body e payload) (length payload + 8)
Quiet-body p e payload s r h =
    let a = step_sync_1 p s r in
    let b = step_sync_2 _ 0 a.1 in
    let c = step_header _ _ 6 e.seq_no b.1 (omega arith) (omega arith) in
    let d = step_header _ _ 6 e.frame_type c.1 (omega arith) (omega arith) in
    let f = step_header _ _ 6 (address_byte e) d.1 (omega arith) (omega arith) in
    Quiet-cons p 0xca _ _ _ _ a.0 (
      Quiet-cons _ 0xfe _ _ _ _ b.0 (
        Quiet-cons _ e.seq_no _ _ _ _ c.0 (
          Quiet-cons _ e.frame_type _ _ _ _ d.0
            (Quiet-cons _ (address_byte e) _ _ _ _ f.0 (Quiet-sized _ _ payload f.1 refl h)))))

address_byte_fields :
    (e : Envelope)
    → e.source < 4
    → e.target < 4
    → (address_byte e / 16 ≡ e.source) × (bit_and (address_byte e) 0x0f ≡ e.target)
unfolding address_byte
address_byte_fields e hs ht =
    omega (arith, packed, bit_and_mask 4 (address_byte e) 0x0f (omega arith))
  where
    packed : address_byte e ≡ e.source * 16 + e.target
    packed = omega (
      arith,
      bit_and_mask 2 e.source 0x03 (omega arith),
      bit_and_mask 2 e.target 0x03 (omega arith),
      bit_or_disjoint 4 (bit_and e.source 0x03) (bit_and e.target 0x03)
          (omega (arith, bit_and_mask 2 e.target 0x03 (omega arith))),
    )

replicate-append {ℓ} :
    {A : Type ℓ} (n m : ℕ) (a : A) (ys : List A)
    → m ≡ n + 1
    → replicate n a ++ a ∷ ys ≡ replicate m a ++ ys
replicate-append zero zero a ys e = absurd (omega arith)
replicate-append zero (suc zero) a ys e = refl
replicate-append zero (suc (suc m)) a ys e = absurd (omega arith)
replicate-append (suc n) zero a ys e = absurd (omega arith)
replicate-append (suc n) (suc m) a ys e = ap (λ t. a ∷ t) (replicate-append n m a ys (omega arith))

-- The two bytes of the checksum.
module _ (q : Parser) (bs : List ℕ) (n : ℕ) where
  feed_all-checksum :
      Holds q reading_checksum bs (n + 8)
      → length bs ≡ n + 6
      → n ≤ max_payload_length
      → let (ns, r) = feed_all q (checksum bs) in
        (ns ≡ 0 ∷ (n + 1) ∷ [])
        × (take (n + 8) r.message ≡ bs ++ checksum bs)
        × (r.state ≡ waiting_sync_byte_1)
        × (length r.message ≡ 72)
        × (r.envelope ≡ record {
          seq_no = get_or r.message 2 0;
          frame_type = get_or r.message 3 0;
          source = get_or r.message 4 0 / 16;
          target = bit_and (get_or r.message 4 0) 0x0f;
        })
  unfolding feed_all
  feed_all-checksum h l m =
      let c = crc_ccitt 0 bs in
      let a = step_checksum q bs (n + 8) (c % 256) h (omega arith) (omega arith) in
      let d =
        step_done _ _ (n + 8) (c / 256) a.1 (omega (arith, length-append bs (c % 256 ∷ [])))
          (omega arith) (omega arith)
          (ap (crc_ccitt 0) (append_assoc bs (c % 256 ∷ []) (c / 256 ∷ []))
            ∙ crc_ccitt_residue bs) in
      (
        ap₂ (λ x y. x ∷ y ∷ []) a.0 (omega (arith, d.0)),
        d.1 ∙ append_assoc bs (c % 256 ∷ []) (c / 256 ∷ []),
        d.2,
        d.3,
        d.4,
      )

-- Fed with a frame, a parser that waits for a message answers 0 to every byte but the last; to the
-- last it answers the payload's length plus one; then it holds the envelope and the payload of the
-- frame, and waits for the next message. The ends of the envelope fit two bits each.
pub feed_all-frame :
    (p : Parser) (e : Envelope) (payload : List ℕ)
    → p.state ≡ waiting_sync_byte_1
    → length p.message ≡ max_message_length + 1
    → length payload ≤ max_payload_length
    → e.source < 4
    → e.target < 4
    → let n = length payload in
      let (ns, q) = feed_all p (frame e payload) in
      (ns ≡ replicate (n + 7) 0 ++ ((n + 1) ∷ []))
      × (q.envelope ≡ e)
      × (get_payload q n ≡ payload)
      × (q.state ≡ waiting_sync_byte_1)
      × (length q.message ≡ max_message_length + 1)
unfolding get_payload
feed_all-frame p e payload s r h hs ht =
    let n = length payload in
    let (z, held) = Quiet-body p e payload s r h in
    let (ns, bytes, waiting, room, envelope) =
      feed_all-checksum (feed_all p (body e payload)).1 (body e payload) n held (omega arith) h in
    let m = (feed_all (feed_all p (body e payload)).1 (checksum (body e payload))).1.message in
    let (source, target) = address_byte_fields e hs ht in
    let at : (i : ℕ) → i < n + 8 → get_or m i 0 ≡ get_or (frame e payload) i 0 =
      λ i l. sym (get_or-take m i (n + 8) 0 l) ∙ ap (λ t. get_or t i 0) bytes in
    let from : get_or m 4 0 / 16 ≡ e.source =
      ap (λ (x : ℕ). x / 16) (at 4 (omega arith)) ∙ source in
    let to : bit_and (get_or m 4 0) 0x0f ≡ e.target =
      ap (λ x. bit_and x 0x0f) (at 4 (omega arith)) ∙ target in
    rw (feed_all-append (body e payload) (checksum (body e payload)) p) (
      ap₂ ◌++◌ z ns
          ∙ replicate-append (suc (suc (suc (suc (suc (suc n)))))) (n + 7) 0 ((n + 1) ∷ [])
              (omega arith),
      envelope ∙ (λ i. record {
        seq_no = at 2 (omega arith) i;
        frame_type = at 3 (omega arith) i;
        source = from i;
        target = to i;
      }),
      take_prefix payload (drop 6 m) (checksum (body e payload)) (n + 8 - 6) (
          take-drop_prefix (0xca ∷ 0xfe ∷ e.seq_no ∷ e.frame_type ∷ address_byte e ∷ n ∷ []) m
            (payload ++ checksum (body e payload)) (n + 8) bytes),
      waiting,
      room,
    )

fill_defaults-lt :
    (e : Envelope)
    → e.source < 4
    → e.target < 4
    → ((fill_defaults e).source < 4) × ((fill_defaults e).target < 4)
unfolding fill_defaults
fill_defaults-lt e hs ht = ground arith

-- For a payload of at most 63 bytes, a buffer with room for it, and ends of the envelope below 4:
-- what `serialize` writes, with unknown ends filled in, is read back. A parser that waits for a
-- message, with its array of 72 bytes, answers 0 to each byte but the last, to the last the
-- payload's length plus one, and then holds the completed envelope and the payload and waits
-- again.
pub feed_all-serialize :
    (p : Parser) (buffer : List ℕ) (buffer_length : ℕ) (e : Envelope) (payload : List ℕ)
    → p.state ≡ waiting_sync_byte_1
    → length p.message ≡ max_message_length + 1
    → length payload ≤ max_payload_length
    → length payload + 8 ≤ buffer_length
    → buffer_length ≤ length buffer
    → e.source < 4
    → e.target < 4
    → let n = length payload in
      let (used, out) = serialize buffer buffer_length e (some payload) n in
      let (ns, q) = feed_all p (take used out) in
      (ns ≡ replicate (n + 7) 0 ++ ((n + 1) ∷ []))
      × (q.envelope ≡ fill_defaults e)
      × (get_payload q n ≡ payload)
      × (q.state ≡ waiting_sync_byte_1)
feed_all-serialize p buffer buffer_length e payload s r h k l hs ht =
    let (source, target) = fill_defaults-lt e hs ht in
    let (ns, env, read, waiting, _) =
      feed_all-frame p (fill_defaults e) payload s r h source target in
    rw (serialize-frame buffer buffer_length e payload h k l).1 (ns, env, read, waiting)
