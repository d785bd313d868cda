-- ===== src/Cmd/Process.antt =====
-- src/modules/cmd.cpp: which handler a packet gets, and the queue of the messages.
use obc.Common.{
  ℕ, suc, ◌-◌, ◌==◌, ltb, take, length, if◌then◌else◌, List, [], ◌∷◌, ◌++◌, Bool, true, false, none,
  some,
}
use obc.Telem.Generic.Component.{ground_station, onboard_computer}
use obc.Telem.Generic.FrameType
use obc.Telem.Generic.{Envelope}
use obc.Cmd.{InboundMessage, Effect, Answers, Outcome}
use obc.Cmd.Handlers.{
  process_clock_sync_packet, process_lcl_reset_request_packet, process_calibration_packet,
  process_debug_packet, process_echo_packet, send_response,
}
use obc.Cmd.StorageHandlers.{
  process_storage_packet, process_directory_listing_packet, process_file_download_packet,
}

-- The effects of a statement, then those of the rest of the `switch`.
abbrev pub after : Effect → Outcome → Outcome
after e (Outcome.returned es r) = Outcome.returned (e ∷ es) r
after e Outcome.hung = Outcome.hung
after e Outcome.out_of_bounds = Outcome.out_of_bounds

-- The `default` case.
unfoldable pub unhandled : InboundMessage → Outcome
unhandled m = Outcome.returned (Effect.warning_unhandled m.envelope.frame_type ∷ []) none

-- `IGNORE_UNLESS_FROM_GCS`: `handle` runs for the ground station, and `rest` is where the control
-- goes after the warning: out of the `switch`, or on to the next case where there is no `break`.
unfoldable pub ignore_unless_from_gcs : InboundMessage → ℕ → Outcome → Outcome → Outcome
ignore_unless_from_gcs m what rest handle =
    if m.envelope.source == ground_station
    then handle
    else after (Effect.warning_ignored what m.envelope.source) rest

-- The cases of the `switch`, from `ECHO` on and from `CALIBRATION` on: the cases before them fall
-- through.
unfoldable pub calibration_case : InboundMessage → Outcome
calibration_case m =
    ignore_unless_from_gcs m FrameType.calibration (process_echo_packet m)
      (process_calibration_packet m)

unfoldable pub lcl_reset_case : InboundMessage → Outcome
lcl_reset_case m =
    ignore_unless_from_gcs m FrameType.lcl_reset (calibration_case m)
      (process_lcl_reset_request_packet m)

abbrev stop : Outcome
stop = Outcome.returned [] none

unfoldable pub process_packet : Answers → InboundMessage → Outcome
process_packet a m =
    let t = m.envelope.frame_type in
    if t == FrameType.clock_sync
    then ignore_unless_from_gcs m t stop (process_clock_sync_packet a m)
    else (if t == FrameType.reset
        then ignore_unless_from_gcs m t stop (Outcome.returned (Effect.request_reset ∷ []) none)
        else (if t == FrameType.storage
            then ignore_unless_from_gcs m t stop (process_storage_packet a m)
            else (if t == FrameType.directory_listing
                then ignore_unless_from_gcs m t stop (process_directory_listing_packet a m)
                else (if t == FrameType.file_download
                    then ignore_unless_from_gcs m t stop (process_file_download_packet a m)
                    else (if t == FrameType.lcl_reset
                        then lcl_reset_case m
                        else (if t == FrameType.calibration
                            then calibration_case m
                            else (if t == FrameType.echo
                                then process_echo_packet m
                                else (if t == FrameType.debug
                                    then ignore_unless_from_gcs m t (unhandled m)
                                        (process_debug_packet a m)
                                    else unhandled m))))))))

-- The queue of the messages, and how many of the blocks allocated for payloads are not freed.
pub record Inbox : Type 0 where
  pub in_queue : List InboundMessage
  pub allocated : ℕ

abbrev pub queue_size : ℕ
queue_size = 64

unfoldable pub prepare_message : ℕ → Envelope → List ℕ → ℕ → InboundMessage
prepare_message index envelope payload size = record {
  index = index;
  envelope = envelope;
  payload = take size payload;
  size = size;
}

-- `feed`, which waits for room in the queue; `has_memory` tells whether `malloc` succeeds.
unfoldable pub feed : Bool → ℕ → Envelope → List ℕ → ℕ → Inbox → Inbox
feed has_memory index envelope payload size b =
    if has_memory
    then record {
      in_queue = b.in_queue ++ (prepare_message index envelope payload size ∷ []);
      allocated = suc b.allocated;
    }
    else b

-- `feedNonblocking`, which drops the message if the queue is full.
unfoldable pub feed_nonblocking : Bool → ℕ → Envelope → List ℕ → ℕ → Inbox → Inbox × Bool
feed_nonblocking has_memory index envelope payload size b =
    if has_memory
    then (if ltb (length b.in_queue) queue_size
        then (feed has_memory index envelope payload size b, true)
        else (record b { allocated = suc b.allocated }, false))
    else (b, false)

-- The response that `processNext` sends at the end.
abbrev pub respond_to : InboundMessage → Outcome → Outcome
respond_to m (Outcome.returned es (some r)) =
    Outcome.returned (es ++ (send_response m.index m.envelope r ∷ [])) none
respond_to m o = o

-- `processNext` for the message that it receives.
unfoldable pub process_message : Answers → InboundMessage → Outcome
process_message a m =
    if m.envelope.target == onboard_computer then respond_to m (process_packet a m) else stop

-- The inbox after `processNext`, if the handler returns; `false`: there was no message.
abbrev pub take_next : List InboundMessage → ℕ → Inbox × Bool
take_next [] n = (record { in_queue = []; allocated = n }, false)
take_next (m ∷ ms) n = (record { in_queue = ms; allocated = n - 1 }, true)

abbrev pub process_next : Answers → Inbox → Inbox × Bool × Outcome
process_next a b =
    let (b', received) = take_next b.in_queue b.allocated in (b', received, outcome_of b.in_queue)
  where
    outcome_of : List InboundMessage → Outcome
    outcome_of [] = stop
    outcome_of (m ∷ _) = process_message a m

-- The loop of `destroy`.
unfoldable pub destroy : Inbox → Inbox
destroy b = record { in_queue = []; allocated = b.allocated - length b.in_queue }
