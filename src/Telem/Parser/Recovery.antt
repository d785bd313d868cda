-- ===== src/Telem/Parser/Recovery.antt =====
-- The parser of src/core/telem/parser.cpp on a pause of zero bytes.
use obc.Common.{
  ℕ, zero, suc, ◌+◌, ◌-◌, ◌≤◌, ◌<◌, List, [], ◌∷◌, ◌++◌, length, get_or, replicate, ◌≡◌, refl, ap,
  arith,
}
use obc.Telem.Generic.{Envelope, max_payload_length}
use obc.Telem.Serialize.Wire.{frame}
use obc.Telem.Parser.{
  State, Parser, waiting_sync_byte_1, waiting_sync_byte_2, reading_header, reading_payload,
  reading_checksum, done, feed_in, finish, feed, feed_all, get_payload,
}
use obc.Telem.Parser.Bounds.{Progress, IsValid, feed-IsValid, feed_all-IsValid}
use obc.Telem.Parser.Runs.{feed_all-append}
use obc.Telem.Parser.Framing.{feed_all-frame}

-- How many zero bytes the parser takes at most until it waits for a message again.
abbrev left : State → ℕ → ℕ → ℕ
left waiting_sync_byte_1 ptr end = 0
left waiting_sync_byte_2 ptr end = 1
left reading_header ptr end = end - ptr + 2
left reading_payload ptr end = end - ptr + 2
left reading_checksum ptr end = end - ptr
left done ptr end = 0

abbrev left_of : Parser → ℕ
left_of p = left p.state p.write_ptr p.end

module _ (p : Parser) where
  feed_in_zero :
      (s : State)
      → Progress s (λ i. get_or p.message i 0) p.write_ptr p.end
      → let (s', p') = feed_in s p 0 in left_of (finish s' p').1 ≤ left s p.write_ptr p.end - 1
  unfolding feed_in finish
  feed_in_zero waiting_sync_byte_1 h = ground arith
  feed_in_zero waiting_sync_byte_2 h = ground arith
  feed_in_zero reading_header h = ground arith
  feed_in_zero reading_payload h = ground arith
  feed_in_zero reading_checksum h = ground arith
  feed_in_zero done h = absurd h

feed_zero : (p : Parser) → IsValid p → left_of (feed p 0).1 ≤ left_of p - 1
unfolding feed
feed_zero p h = feed_in_zero p p.state h.progress

left-le : (s : State) (at : ℕ → ℕ) (ptr end : ℕ) → Progress s at ptr end → left s ptr end ≤ 65
left-le waiting_sync_byte_1 at ptr end h = omega arith
left-le waiting_sync_byte_2 at ptr end h = omega arith
left-le reading_header at ptr end h = omega arith
left-le reading_payload at ptr end h = omega arith
left-le reading_checksum at ptr end h = omega arith
left-le done at ptr end h = absurd h

left_none :
    (s : State) (at : ℕ → ℕ) (ptr end : ℕ)
    → Progress s at ptr end
    → left s ptr end ≤ 0
    → s ≡ waiting_sync_byte_1
left_none waiting_sync_byte_1 at ptr end h l = refl
left_none waiting_sync_byte_2 at ptr end h l = absurd (omega arith)
left_none reading_header at ptr end h l = absurd (omega arith)
left_none reading_payload at ptr end h l = absurd (omega arith)
left_none reading_checksum at ptr end h l = absurd (omega arith)
left_none done at ptr end h l = absurd h

zeros_settle :
    (k : ℕ) (p : Parser)
    → IsValid p
    → left_of p ≤ k
    → (feed_all p (replicate k 0)).1.state ≡ waiting_sync_byte_1
unfolding feed_all
zeros_settle zero p h l =
    left_none p.state (λ i. get_or p.message i 0) p.write_ptr p.end h.progress l
zeros_settle (suc k) p h l =
    zeros_settle k (feed p 0).1 (feed-IsValid p 0 h) (omega (arith, feed_zero p h))

-- From any valid state, whatever was cut off before, 65 or more zero bytes followed by the frame
-- of a payload of at most 63 bytes, with ends of the envelope below 4: the frame's bytes are
-- answered with 0 but for the last, which is answered with the payload's length plus one, and the
-- parser holds the envelope and the payload.
pub feed_all_recovers :
    (p : Parser) (k : ℕ) (e : Envelope) (payload : List ℕ)
    → IsValid p
    → 65 ≤ k
    → length payload ≤ max_payload_length
    → e.source < 4
    → e.target < 4
    → let n = length payload in
      let (ns, q) = feed_all p (replicate k 0 ++ frame e payload) in
      (ns ≡ (feed_all p (replicate k 0)).0 ++ (replicate (n + 7) 0 ++ ((n + 1) ∷ [])))
      × (q.envelope ≡ e)
      × (get_payload q n ≡ payload)
      × (q.state ≡ waiting_sync_byte_1)
feed_all_recovers p k e payload v h m hs ht =
    let settled =
      zeros_settle k p v
        (omega (arith, left-le p.state (λ i. get_or p.message i 0) p.write_ptr p.end v.progress)) in
    let room = (feed_all-IsValid (replicate k 0) p v).room in
    let (ns, env, read, waiting, _) =
      feed_all-frame (feed_all p (replicate k 0)).1 e payload settled room m hs ht in
    rw (feed_all-append (replicate k 0) (frame e payload) p)
      (ap (λ t. (feed_all p (replicate k 0)).0 ++ t) ns, env, read, waiting)
