-- ===== src/Cmd/Payloads.antt =====
-- The payloads that src/modules/cmd.cpp allocates for the messages of its queue.
use obc.Common.{
  ℕ, suc, ◌+◌, ◌-◌, ◌&&◌, not, length, length-append, if◌then◌else◌, List, [], ◌∷◌, Bool, ◌≡◌, ap,
  arith,
}
use obc.Telem.Generic.{Envelope}
use obc.Cmd.Process.{Inbox, feed, feed_nonblocking, take_next, destroy, prepare_message}

-- A payload is allocated for every message in the queue, and nothing else.
abbrev pub IsBalanced : Inbox → Type 0
IsBalanced b = b.allocated ≡ length b.in_queue

-- If each message of the queue has one allocated payload and there are no others, this is so
-- after `feed`, and after `process_next` takes a message; `destroy` leaves no message and no
-- allocated payload.
pub inbox-IsBalanced :
    (has_memory : Bool) (index : ℕ) (e : Envelope) (payload : List ℕ) (size : ℕ) (b : Inbox)
    → IsBalanced b
    → IsBalanced (feed has_memory index e payload size b)
      × IsBalanced (take_next b.in_queue b.allocated).0
      × (destroy b ≡ record { in_queue = []; allocated = 0 })
unfolding feed destroy
inbox-IsBalanced has_memory index e payload size b h =
    ground (arith, length-append b.in_queue (prepare_message index e payload size ∷ []))

-- A message as it arrives: whether there is memory for its payload, its channel, its envelope, its
-- payload and the size of the payload.
pub record Arrival : Type 0 where
  pub has_memory : Bool
  pub index : ℕ
  pub envelope : Envelope
  pub payload : List ℕ
  pub size : ℕ

abbrev pub feed_one : Arrival → Inbox → Inbox × Bool
feed_one m b = feed_nonblocking m.has_memory m.index m.envelope m.payload m.size b

-- The inbox behind a number of messages, and how many of them were dropped though there was memory.
abbrev pub feed_many : List Arrival → Inbox → Inbox × ℕ
feed_many [] b = (b, 0)
feed_many (m ∷ ms) b =
    let r = feed_one m b in
    let rest = feed_many ms r.0 in (rest.0, if m.has_memory && not r.1 then suc rest.1 else rest.1)

-- What was allocated for `n` messages that were dropped stays allocated.
abbrev HasLost : ℕ → Inbox → Type 0
HasLost n b = b.allocated ≡ length b.in_queue + n

feed_one-HasLost :
    (m : Arrival) (n : ℕ) (b : Inbox)
    → HasLost n b
    → HasLost (if m.has_memory && not (feed_one m b).1 then suc n else n) (feed_one m b).0
unfolding feed_nonblocking feed
feed_one-HasLost m n b h =
    ground (
      arith,
      h,
      length-append b.in_queue (prepare_message m.index m.envelope m.payload m.size ∷ []),
    )

feed_many-HasLost :
    (ms : List Arrival) (n : ℕ) (b : Inbox)
    → HasLost n b
    → HasLost (n + (feed_many ms b).1) (feed_many ms b).0
feed_many-HasLost [] n b h = omega (arith, h)
feed_many-HasLost (m ∷ ms) n b h =
    let b' = (feed_one m b).0 in
    let n' = if m.has_memory && not (feed_one m b).1 then suc n else n in
    ground (arith, feed_many-HasLost ms n' b' (feed_one-HasLost m n b h))

-- If each message of the queue has one allocated payload and there are no others, and any number of
-- messages then arrives by `feed_nonblocking`, with the queue full or not: after `destroy`, which
-- leaves no message, a payload is still allocated for each message that was dropped though there
-- was memory for it.
pub feed_nonblocking_leaks :
    (ms : List Arrival) (b : Inbox)
    → IsBalanced b
    → destroy (feed_many ms b).0 ≡ record { in_queue = []; allocated = (feed_many ms b).1 }
unfolding destroy
feed_nonblocking_leaks ms b h =
    let kept = feed_many-HasLost ms 0 b (omega (arith, h)) in
    let left : (feed_many ms b).0.allocated - length (feed_many ms b).0.in_queue
        ≡ (feed_many ms b).1 =
      omega (arith, kept) in
    ap (λ n. record { in_queue = []; allocated = n }) left
