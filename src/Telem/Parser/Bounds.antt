-- ===== src/Telem/Parser/Bounds.antt =====
-- The state of the parser of src/core/telem/parser.cpp between two bytes.
use obc.Common.{
  ℕ, suc, ◌+◌, ◌/◌, ◌≤◌, ◌<◌, bit_and, List, [], ◌∷◌, get_or, set, take, length, length-set,
  get_or-set_self, get_or-set_ne, ◌≡◌, ◌≢◌, refl, sym, ◌∙◌, arith,
}
use obc.Telem.Generic.{max_message_length, max_payload_length}
use obc.Telem.Parser.{
  State, Parser, waiting_sync_byte_1, waiting_sync_byte_2, reading_header, reading_payload,
  reading_checksum, done, feed_in, feed, finish, feed_all,
}
use obc.Crc.{crc_ccitt}

-- Where the pointers may stand and which bytes are known, state by state.
abbrev pub Progress : State → (ℕ → ℕ) → ℕ → ℕ → Type 0
Progress waiting_sync_byte_1 at ptr end = Unit {0}
Progress waiting_sync_byte_2 at ptr end = (ptr ≡ 1) × (at 0 ≡ 0xca)
Progress reading_header at ptr end =
    (2 ≤ ptr) × (ptr < end) × (end ≡ 6) × (at 0 ≡ 0xca) × (at 1 ≡ 0xfe)
Progress reading_payload at ptr end =
    (6 ≤ ptr)
    × (ptr < end)
    × (end ≡ at 5 + 6)
    × (at 5 ≤ max_payload_length)
    × (at 0 ≡ 0xca)
    × (at 1 ≡ 0xfe)
Progress reading_checksum at ptr end =
    (end ≤ ptr + 2)
    × (ptr < end)
    × (end ≡ at 5 + 8)
    × (at 5 ≤ max_payload_length)
    × (at 0 ≡ 0xca)
    × (at 1 ≡ 0xfe)
Progress done at ptr end = ⊥

pub record IsValid (p : Parser) : Type 0 where
  pub room : length p.message ≡ max_message_length + 1
  pub progress : Progress p.state (λ i. get_or p.message i 0) p.write_ptr p.end

module _ (p : Parser) (ch : ℕ) (room : length p.message ≡ max_message_length + 1) where
  kept :
      (i : ℕ) → i ≢ p.write_ptr → get_or (set p.message p.write_ptr ch) i 0 ≡ get_or p.message i 0
  kept i h = get_or-set_ne p.message ch 0 (λ e. h (sym e))

  stored : p.write_ptr < 72 → get_or (set p.message p.write_ptr ch) p.write_ptr 0 ≡ ch
  stored h = get_or-set_self p.message p.write_ptr ch 0 (omega arith)

  still_room : length (set p.message p.write_ptr ch) ≡ 72
  still_room = length-set p.message p.write_ptr ch ∙ room

  first : get_or (set p.message 0 ch) 0 0 ≡ ch
  first = get_or-set_self p.message 0 ch 0 (omega arith)

  first_room : length (set p.message 0 ch) ≡ 72
  first_room = length-set p.message 0 ch ∙ room

  -- A byte in the given state leads to a valid parser.
  feed_in-IsValid :
      (s : State)
      → Progress s (λ i. get_or p.message i 0) p.write_ptr p.end
      → let (s', p') = feed_in s p ch in IsValid (finish s' p').1
  unfolding feed_in finish
  feed_in-IsValid waiting_sync_byte_1 h = ground (arith, first, first_room)
  feed_in-IsValid waiting_sync_byte_2 h = ground (arith, kept 0, stored, still_room)
  feed_in-IsValid reading_header h = ground (arith, kept 0, kept 1, stored, still_room)
  feed_in-IsValid reading_payload h = ground (arith, kept 0, kept 1, kept 5, still_room)
  feed_in-IsValid reading_checksum h = ground (arith, kept 0, kept 1, kept 5, still_room)
  feed_in-IsValid done h = absurd h

-- Feeding any byte keeps a parser valid: the pointers stay inside the array, and what the state says
-- about the bytes received so far stays true.
pub feed-IsValid : (p : Parser) (ch : ℕ) → IsValid p → IsValid (feed p ch).1
unfolding feed
feed-IsValid p ch h = feed_in-IsValid p ch h.room p.state h.progress

pub feed_all-IsValid : (chs : List ℕ) (p : Parser) → IsValid p → IsValid (feed_all p chs).1
unfolding feed_all
feed_all-IsValid [] p h = h
feed_all-IsValid (ch ∷ chs) p h = feed_all-IsValid chs (feed p ch).1 (feed-IsValid p ch h)

-- Every byte that `feed` stores goes to an index inside the array, the last cell kept free:
-- in a valid parser that is not waiting for the first sync byte (which is stored at index 0).
pub store_in_bounds :
    (p : Parser) → IsValid p → p.state ≢ waiting_sync_byte_1 → p.write_ptr < max_message_length
store_in_bounds p h n = bound p.state (λ i. get_or p.message i 0) p.write_ptr p.end n h.progress
  where
    bound :
        (s : State) (at : ℕ → ℕ) (ptr end : ℕ)
        → s ≢ waiting_sync_byte_1
        → Progress s at ptr end
        → ptr < 71
    bound waiting_sync_byte_1 at ptr end n h = absurd (n refl)
    bound waiting_sync_byte_2 at ptr end n h = omega arith
    bound reading_header at ptr end n h = omega arith
    bound reading_payload at ptr end n h = omega arith
    bound reading_checksum at ptr end n h = omega arith
    bound done at ptr end n h = absurd h

-- What a nonzero answer of `feed` says: the answer is one more than the length byte, the bytes of
-- the message are a frame with sync word and a zero checksum, and the envelope is read from them.
pub record Accepted (n : ℕ) (p : Parser) : Type 0 where
  pub short : n ≤ max_payload_length
  pub sync_1 : get_or p.message 0 0 ≡ 0xca
  pub sync_2 : get_or p.message 1 0 ≡ 0xfe
  pub size : get_or p.message 5 0 ≡ n
  pub intact : crc_ccitt 0 (take (n + 8) p.message) ≡ 0
  pub seq_no : p.envelope.seq_no ≡ get_or p.message 2 0
  pub frame_type : p.envelope.frame_type ≡ get_or p.message 3 0
  pub source : p.envelope.source ≡ get_or p.message 4 0 / 16
  pub target : p.envelope.target ≡ bit_and (get_or p.message 4 0) 0x0f
  pub ready : p.state ≡ waiting_sync_byte_1

module _ (p : Parser) (ch n : ℕ) (room : length p.message ≡ max_message_length + 1) where
  feed_in-Accepted :
      (s : State)
      → Progress s (λ i. get_or p.message i 0) p.write_ptr p.end
      → let (s', p') = feed_in s p ch in (finish s' p').0 ≡ suc n → Accepted n (finish s' p').1
  unfolding feed_in finish
  feed_in-Accepted waiting_sync_byte_1 h e = absurd (ground arith)
  feed_in-Accepted waiting_sync_byte_2 h e = absurd (ground arith)
  feed_in-Accepted reading_header h e = absurd (ground arith)
  feed_in-Accepted reading_payload h e = absurd (ground arith)
  feed_in-Accepted reading_checksum h e =
      ground (arith, kept p ch room 0, kept p ch room 1, kept p ch room 5)
  feed_in-Accepted done h e = absurd h

-- A valid parser that answers one more than `n` to a byte has received a message of `n` bytes of
-- payload with the sync word, that length and a zero checksum, and reports the envelope read from it.
pub feed-Accepted :
    (p : Parser) (ch n : ℕ) → IsValid p → (feed p ch).0 ≡ suc n → Accepted n (feed p ch).1
unfolding feed
feed-Accepted p ch n h = feed_in-Accepted p ch n h.room p.state h.progress
