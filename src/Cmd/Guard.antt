-- ===== src/Cmd/Guard.antt =====
-- What src/modules/cmd.cpp does for whom.

use obc.Common.{◌-◌, ◌^◌, ◌≤◌, length, take, drop, ◌∷◌, none, ◌≡◌, ◌≢◌, ap, arith, All}
use obc.Common.Words.{u8, read8}
use obc.Frames.Request.{encode_echo_frame, validate_encoded_echo_frame}
use obc.Cmd.Handlers.{channel_mask}
use obc.Cmd.Reads.{process_echo_packet-whole}
use obc.Telem.Generic.Component.{ground_station, onboard_computer}
use obc.Telem.Generic.{max_payload_length}
use obc.Frames.Request.{decode_echo_frame}
use obc.Cmd.{InboundMessage, Effect, Answers, Outcome}
use obc.Cmd.Handlers.{process_echo_packet}
use obc.Cmd.Process.{
  process_packet, unhandled, ignore_unless_from_gcs, lcl_reset_case, calibration_case,
}

-- Log records, and the reply to an echo request that is no reply itself: the bytes behind the first
-- one of the packet, behind a one, to whoever asked, on the channel of the question.
abbrev pub IsHarmless : InboundMessage → Effect → Type 0
IsHarmless m (Effect.warning_ignored _ _) = Unit
IsHarmless m (Effect.warning_unhandled _) = Unit
IsHarmless m (Effect.send_to channels frame_type source target payload) =
    (channels ≡ u8 (2 ^ m.index))
    × (frame_type ≡ m.envelope.frame_type)
    × (source ≡ onboard_computer)
    × (target ≡ m.envelope.source)
    × (read8 m.payload 0 ≡ 0)
    × (payload ≡ 1 ∷ take (m.size - 1) (drop 1 m.payload))
IsHarmless m _ = ⊥

abbrev pub OnlyHarmless : InboundMessage → Outcome → Type 0
OnlyHarmless m (Outcome.returned es none) = All (IsHarmless m) es
OnlyHarmless m _ = ⊥

echo-OnlyHarmless :
    (m : InboundMessage)
    → m.size ≤ max_payload_length
    → m.size ≤ length m.payload
    → OnlyHarmless m (process_echo_packet m)
unfolding decode_echo_frame encode_echo_frame channel_mask validate_encoded_echo_frame
echo-OnlyHarmless m h k =
    let same : u8 (m.size - 1) ≡ m.size - 1 = ground (arith, h) in
    rw (process_echo_packet-whole m k) (ground (arith, h, ap (λ n. take n (drop 1 m.payload)) same))

-- A packet with a payload of at most 63 bytes, which has all bytes of its size, that does not come
-- from the ground station gets no response, and does nothing but leave log records and, unless its
-- first byte says that it is a reply, be echoed to its source, with its content and on its channel.
pub process_packet-OnlyHarmless :
    (a : Answers) (m : InboundMessage)
    → m.size ≤ max_payload_length
    → m.size ≤ length m.payload
    → m.envelope.source ≢ ground_station
    → OnlyHarmless m (process_packet a m)
unfolding process_packet ignore_unless_from_gcs lcl_reset_case calibration_case unhandled
process_packet-OnlyHarmless a m h k n = ground (arith, echo-OnlyHarmless m h k)
