-- ===== src/Transmit/Delivery.antt =====
-- Messages of src/modules/telem.cpp from `sendTo` to the wire.
use obc.Common.{
  ℕ, ◌+◌, ◌<◌, ◌≤◌, ◌≡◌, sym, ap, ◌∙◌, ◌||◌, length, replicate, take, List, [], ◌∷◌, ◌++◌, true,
  some, arith,
}
use obc.Common.Words.{u8}
use obc.Telem.Generic.{Envelope, max_payload_length, max_message_length}
use obc.Telem.Serialize.{get_message_size_for_payload_length, fill_defaults, serialize}
use obc.Telem.Serialize.Wire.{serialize-frame}
use obc.Telem.Parser.{Parser, State, get_payload}
use obc.Telem.Parser.Framing.{feed_all-serialize}
use obc.Telem.Parser.{feed_all}
use obc.Transmit.{
  OutboundMessage, Transmitter, queue_size, is_full, is_essential_frame_type, Heap, send_allocated,
  send_serialized, send_to,
}

-- The message that is queued for an envelope and a payload, in a buffer.
abbrev pub queued : List ℕ → ℕ → Envelope → List ℕ → OutboundMessage
queued buffer targets e payload =
    let n = length payload in
    record {
      targets = targets;
      data_bytes = (serialize buffer (n + 8) e (some payload) n).1;
      size = n + 8;
    }

send_serialized-queues :
    (targets n : ℕ) (r : ℕ × List ℕ) (x : Transmitter)
    → r.0 ≡ n + 8
    → n ≤ max_payload_length
    → length x.out_queue < queue_size
    → let m : OutboundMessage = record { targets = targets; data_bytes = r.1; size = n + 8 } in
      send_serialized targets n r x ≡ (true, record x { out_queue = x.out_queue ++ (m ∷ []) })
send_serialized-queues targets n (used, buf) x h l q = ground arith

get_message_size-fits :
    (n : ℕ) → n ≤ max_payload_length → get_message_size_for_payload_length n ≡ n + 8
unfolding get_message_size_for_payload_length
get_message_size-fits n h = ground arith

send_to-queues :
    (heap : Heap) (buffer : List ℕ) (targets : ℕ) (e : Envelope) (payload : List ℕ)
    (x : Transmitter)
    → heap (length payload + 8) ≡ some buffer
    → length payload ≤ max_payload_length
    → length x.out_queue < queue_size
    → (is_full x.telemetry_level || is_essential_frame_type e.frame_type) ≡ true
    → let n = length payload in
      let e' = record e { seq_no = x.seq_no } in
      (serialize buffer (n + 8) e' (some payload) n).0 ≡ n + 8
      → send_to heap targets e (some payload) n x ≡ (
        true,
        record x {
          out_queue = x.out_queue ++ (queued buffer targets e' payload ∷ []);
          allocated = x.allocated + 1;
          seq_no = u8 (x.seq_no + 1);
        },
      )
unfolding send_to
send_to-queues heap buffer targets e payload x hm hn hq hl h =
    let n = length payload in
    let e' = record e { seq_no = x.seq_no } in
    let x' : Transmitter = record x { allocated = x.allocated + 1; seq_no = u8 (x.seq_no + 1) } in
    let r = serialize buffer (n + 8) e' (some payload) n in
    let queues = send_serialized-queues targets n r x' h hn hq in
    let got = ap (λ o. send_allocated targets e (some payload) n (n + 8) o x) hm in
    ground (arith, hl, get_message_size-fits n hn, got, queues)

-- A message of at most 63 bytes that is not dropped by the level, with room in the queue and a buffer
-- of the size that was asked for: it is put at the end of the queue with the next sequence number,
-- and a parser that waits for a message and reads the bytes that are to be written finds in them
-- the envelope, with unknown ends filled in, and the payload.
pub send_to_delivers :
    (heap : Heap) (buffer : List ℕ) (targets : ℕ) (e : Envelope) (payload : List ℕ)
    (x : Transmitter) (p : Parser)
    → heap (length payload + 8) ≡ some buffer
    → length buffer ≡ length payload + 8
    → length payload ≤ max_payload_length
    → length x.out_queue < queue_size
    → (is_full x.telemetry_level || is_essential_frame_type e.frame_type) ≡ true
    → e.source < 4
    → e.target < 4
    → p.state ≡ State.waiting_sync_byte_1
    → length p.message ≡ max_message_length + 1
    → let n = length payload in
      let e' = record e { seq_no = x.seq_no } in
      let m = queued buffer targets e' payload in
      let r = send_to heap targets e (some payload) n x in
      let (ns, q) = feed_all p (take m.size m.data_bytes) in
      (r.0 ≡ true)
      × ((r.1).out_queue ≡ x.out_queue ++ (m ∷ []))
      × ((r.1).seq_no ≡ u8 (x.seq_no + 1))
      × (ns ≡ replicate (n + 7) 0 ++ ((n + 1) ∷ []))
      × (q.envelope ≡ fill_defaults e')
      × (get_payload q n ≡ payload)
send_to_delivers heap buffer targets e payload x p hm room hn hq hl hs ht ps pm =
    let n = length payload in
    let e' = record e { seq_no = x.seq_no } in
    let m = queued buffer targets e' payload in
    let written =
      serialize-frame buffer (n + 8) e' payload hn (omega arith) (omega (arith, room)) in
    let sent = send_to-queues heap buffer targets e payload x hm hn hq hl written.0 in
    let read =
      feed_all-serialize p buffer (n + 8) e' payload ps pm hn (omega arith) (omega (arith, room)) hs
        ht in
    let same = ap (λ k. feed_all p (take k m.data_bytes)) (sym written.0) in
    (
      ap (λ r. r.0) sent,
      ap (λ r. (r.1).out_queue) sent,
      ap (λ r. (r.1).seq_no) sent,
      ap (λ r. r.0) same ∙ read.0,
      ap (λ r. (r.1).envelope) same ∙ read.1,
      ap (λ r. get_payload r.1 n) same ∙ read.2,
    )

-- The buffers that are allocated are those of the messages that wait.
abbrev pub IsBalanced : Transmitter → Type 0
IsBalanced x = x.allocated ≡ length x.out_queue
