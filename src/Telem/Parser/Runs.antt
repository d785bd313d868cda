-- ===== src/Telem/Parser/Runs.antt =====
-- Streams of bytes: how the parser collects a prefix, and what it answers on the way.
use obc.Common.{
  ℕ, ◌+◌, ◌-◌, ◌/◌, ◌≤◌, ◌<◌, bit_and, List, [], ◌∷◌, ◌++◌, get_or, set, take, length, length-set,
  take-set, replicate, ◌≡◌, refl, ap₂, ◌∙◌, arith, length-append,
}
use obc.Telem.Generic.{max_message_length, max_payload_length}
use obc.Telem.Parser.{
  State, Parser, waiting_sync_byte_1, waiting_sync_byte_2, reading_header, reading_payload,
  reading_checksum, feed_in, feed, finish, feed_all,
}
use obc.Crc.{crc_ccitt}
use native.Mathlib.Numerals.{add-one}
use mathlib.Core.List.{append_assoc}

pub feed_all-append :
    (xs ys : List ℕ) (p : Parser)
    → let (ns, q) = feed_all p xs in
      feed_all p (xs ++ ys) ≡ (ns ++ (feed_all q ys).0, (feed_all q ys).1)
unfolding feed_all
feed_all-append [] ys p = refl
feed_all-append (x ∷ xs) ys p = rw (feed_all-append xs ys (feed p x).1)

-- The parser is in state `s` with exactly the bytes `bs` collected and its end pointer at `e`.
pub record Holds (p : Parser) (s : State) (bs : List ℕ) (e : ℕ) : Type 0 where
  pub state : p.state ≡ s
  pub bytes : take p.write_ptr p.message ≡ bs
  pub count : p.write_ptr ≡ length bs
  pub stop : p.end ≡ e
  pub room : length p.message ≡ max_message_length + 1

-- Storing a byte appends it to what is collected.
store-bytes :
    {p : Parser} {s : State} {bs : List ℕ} {e : ℕ} (ch : ℕ)
    → Holds p s bs e
    → length bs < 72
    → (take (p.write_ptr + 1) (set p.message p.write_ptr ch) ≡ bs ++ (ch ∷ []))
      × (p.write_ptr + 1 ≡ length (bs ++ (ch ∷ [])))
      × (length (set p.message p.write_ptr ch) ≡ 72)
store-bytes {p} {bs} ch h l = (
  rw (add-one p.write_ptr)
      (rw (take-set p.message p.write_ptr ch (omega (arith, h.count, h.room)), h.bytes) refl),
  omega (arith, length-append bs (ch ∷ [])),
  length-set p.message p.write_ptr ch ∙ h.room,
)

-- One byte takes the parser to the state `s`, with the answer `n`.
abbrev pub Steps : Parser → ℕ → ℕ → State → List ℕ → ℕ → Type 0
Steps p ch n s bs e = ((feed p ch).0 ≡ n) × Holds (feed p ch).1 s bs e

module _ (p : Parser) where
  pub step_sync_1 :
      p.state ≡ waiting_sync_byte_1
      → length p.message ≡ 72
      → Steps p 0xca 0 waiting_sync_byte_2 (0xca ∷ []) 0
  unfolding feed feed_in finish
  step_sync_1 s r =
      ground (arith, take-set p.message 0 0xca (omega arith), length-set p.message 0 0xca)

  pub step_sync_2 :
      (e : ℕ)
      → Holds p waiting_sync_byte_2 (0xca ∷ []) e
      → Steps p 0xfe 0 reading_header (0xca ∷ 0xfe ∷ []) 6
  unfolding feed feed_in finish
  step_sync_2 e h = ground (arith, store-bytes 0xfe h)

  module _ (bs : List ℕ) (e ch : ℕ) where
    pub step_header :
        Holds p reading_header bs e
        → length bs + 1 < e
        → e ≤ 71
        → Steps p ch 0 reading_header (bs ++ (ch ∷ [])) e
    unfolding feed feed_in finish
    step_header h l m = ground (arith, store-bytes ch h)

    pub step_header_empty :
        Holds p reading_header bs e
        → length bs + 1 ≡ e
        → e ≤ 71
        → ch ≡ 0
        → Steps p ch 0 reading_checksum (bs ++ (ch ∷ [])) (e + 2)
    unfolding feed feed_in finish
    step_header_empty h l m z = ground (arith, store-bytes ch h)

    pub step_header_last :
        Holds p reading_header bs e
        → length bs + 1 ≡ e
        → e ≤ 71
        → 0 < ch
        → ch ≤ max_payload_length
        → Steps p ch 0 reading_payload (bs ++ (ch ∷ [])) (e + ch)
    unfolding feed feed_in finish
    step_header_last h l m z k = ground (arith, store-bytes ch h)

    pub step_payload :
        Holds p reading_payload bs e
        → length bs + 1 < e
        → e ≤ 71
        → Steps p ch 0 reading_payload (bs ++ (ch ∷ [])) e
    unfolding feed feed_in finish
    step_payload h l m = ground (arith, store-bytes ch h)

    pub step_payload_last :
        Holds p reading_payload bs e
        → length bs + 1 ≡ e
        → e ≤ 71
        → Steps p ch 0 reading_checksum (bs ++ (ch ∷ [])) (e + 2)
    unfolding feed feed_in finish
    step_payload_last h l m = ground (arith, store-bytes ch h)

    pub step_checksum :
        Holds p reading_checksum bs e
        → length bs + 1 < e
        → e ≤ 71
        → Steps p ch 0 reading_checksum (bs ++ (ch ∷ [])) e
    unfolding feed feed_in finish
    step_checksum h l m = ground (arith, store-bytes ch h)

    -- The last byte of a message whose checksum is zero.
    pub step_done :
        Holds p reading_checksum bs e
        → length bs + 1 ≡ e
        → 7 ≤ e
        → e ≤ 71
        → crc_ccitt 0 (bs ++ (ch ∷ [])) ≡ 0
        → let (n, q) = feed p ch in
          (n ≡ e - 7)
          × (take e q.message ≡ bs ++ (ch ∷ []))
          × (q.state ≡ waiting_sync_byte_1)
          × (length q.message ≡ 72)
          × (q.envelope ≡ record {
            seq_no = get_or q.message 2 0;
            frame_type = get_or q.message 3 0;
            source = get_or q.message 4 0 / 16;
            target = bit_and (get_or q.message 4 0) 0x0f;
          })
    unfolding feed feed_in finish
    step_done h l m k z = ground (arith, store-bytes ch h)

-- A stream that is taken in without an answer.
abbrev pub Quiet : Parser → List ℕ → State → List ℕ → ℕ → Type 0
Quiet p chs s bs e =
    ((feed_all p chs).0 ≡ replicate (length chs) 0) × Holds (feed_all p chs).1 s bs e

pub Quiet-cons :
    (p : Parser) (ch : ℕ) (chs : List ℕ) (s : State) (bs : List ℕ) (e : ℕ)
    → (feed p ch).0 ≡ 0
    → Quiet (feed p ch).1 chs s bs e
    → Quiet p (ch ∷ chs) s bs e
unfolding feed_all
Quiet-cons p ch chs s bs e z (ns, h) = (ap₂ ◌∷◌ z ns, h)

pub Quiet-nil : (p : Parser) (s : State) (bs : List ℕ) (e : ℕ) → Holds p s bs e → Quiet p [] s bs e
unfolding feed_all
Quiet-nil p s bs e h = (refl, h)

-- The payload: its last byte starts the checksum.
pub Quiet-payload :
    (x : ℕ) (xs : List ℕ) (p : Parser) (bs : List ℕ) (e : ℕ)
    → Holds p reading_payload bs e
    → length bs + length (x ∷ xs) ≡ e
    → e ≤ 71
    → Quiet p (x ∷ xs) reading_checksum (bs ++ x ∷ xs) (e + 2)
Quiet-payload x [] p bs e h l m =
    let (z, h') = step_payload_last p bs e x h (omega arith) m in
    Quiet-cons p x [] _ _ _ z (Quiet-nil _ _ _ _ h')
Quiet-payload x (y ∷ ys) p bs e h l m =
    let (z, h') = step_payload p bs e x h (omega arith) m in
    Quiet-cons p x (y ∷ ys) _ _ _ z (
      rw (← append_assoc bs (x ∷ []) (y ∷ ys)) (
        Quiet-payload y ys (feed p x).1 (bs ++ (x ∷ [])) e h'
          (omega (arith, length-append bs (x ∷ []))) m))
