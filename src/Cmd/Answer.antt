-- ===== src/Cmd/Answer.antt =====
-- What src/modules/cmd.cpp does with the commands that the ground station encodes, and with echoes.
use obc.Common.{
  ℕ, ◌≤◌, ◌<◌, ◌%◌, length, List, [], ◌∷◌, none, some, ◌≡◌, ◌≢◌, refl, arith, if◌then◌else◌, ◌==◌,
}
use obc.Common.Words.{IsU16, IsU32, IsU64}
use obc.Telem.Generic.Component.{ground_station, onboard_computer}
use obc.Telem.Generic.FrameType
use obc.Telem.Generic.{max_payload_length}
use obc.Frames.Clock.{encode_clock_sync_frame}
use obc.Frames.Clock.Laws.{decode-encode_clock_sync}
use obc.Frames.Request.{
  StorageCommandData, encode_storage_command_frame, encode_lcl_reset_request_frame,
  num_storage_areas, validate_encoded_lcl_reset_request_frame, num_storage_commands,
  max_read_length, encode_echo_frame,
}
use obc.Frames.Request.Laws.{decode-encode_storage, decode-encode_lcl_reset, decode-encode_echo}
use obc.Frames.Storage.{
  DirectoryListingRequestData, FileDownloadRequestData, encode_directory_listing_request_frame,
  encode_file_download_request_frame,
}
use obc.Frames.Storage.Laws.{IsText, decode-encode_directory_listing, decode-encode_file_download}
use obc.Cmd.{InboundMessage, Effect, Answers, Outcome, ok, failed, respond}
use obc.Cmd.Handlers.{process_echo_packet, send_response, channel_mask}
use obc.Cmd.StorageHandlers.{storage_with, storage_command_of}
use obc.Cmd.Reads.{
  process_clock_sync_packet-whole, process_lcl_reset_request_packet-whole,
  process_echo_packet-whole, process_storage_packet-whole, process_directory_listing_packet-whole,
  process_file_download_packet-whole,
}
use obc.Cmd.Process.{
  process_packet, process_message, ignore_unless_from_gcs, lcl_reset_case, respond_to,
}

-- A message of the ground station for the computer.
abbrev pub from_gcs : ℕ → ℕ → ℕ → List ℕ → InboundMessage
from_gcs index seq_no frame_type payload = record {
  index = index;
  envelope = record {
    seq_no = seq_no;
    frame_type = frame_type;
    source = ground_station;
    target = onboard_computer;
  };
  payload = payload;
  size = length payload;
}

-- A request of the ground station to list a directory, encoded from a known area, a 16-bit start,
-- at most 256 entries and a name without zero characters, starts that listing for the channel and
-- with the sequence number of the request, and its result is sent back.
pub process_message-directory_listing :
    (a : Answers) (index seq_no : ℕ) (d : DirectoryListingRequestData) (bs : List ℕ)
    → d.area < num_storage_areas
    → IsU16 d.start
    → d.count ≤ 256
    → IsText d.name
    → encode_directory_listing_request_frame d ≡ some bs
    → let m = from_gcs index seq_no FrameType.directory_listing bs in
      process_message a m
      ≡ Outcome.returned
          (Effect.start_directory_listing d (channel_mask index) seq_no
            ∷ send_response index m.envelope (respond (a.start_directory_listing d) 0)
            ∷ [])
          none
unfolding process_message process_packet ignore_unless_from_gcs
process_message-directory_listing a index seq_no d bs ha hs hc ht e =
    let m = from_gcs index seq_no FrameType.directory_listing bs in
    ground (
      arith,
      process_directory_listing_packet-whole m (omega arith) a,
      decode-encode_directory_listing d bs ha hs hc ht e,
    )

-- A request of the ground station to download a part of a file, encoded from a known area, a
-- 32-bit start, a length from 1 to 8192 and a path without zero characters, starts that download
-- for the channel and with the sequence number of the request; the response has the size of the
-- file if the download could be started, and the error if not.
pub process_message-file_download :
    (a : Answers) (index seq_no : ℕ) (d : FileDownloadRequestData) (bs : List ℕ)
    → d.area < num_storage_areas
    → IsU32 d.start
    → d.size ≢ 0
    → d.size ≤ max_read_length
    → IsText d.path
    → encode_file_download_request_frame d ≡ some bs
    → let m = from_gcs index seq_no FrameType.file_download bs in
      process_message a m
      ≡ Outcome.returned
          (Effect.start_file_download d (channel_mask index) seq_no
            ∷ send_response index m.envelope (
                if (a.start_file_download d).0 == 0
                then ok (a.start_file_download d).1
                else failed (a.start_file_download d).0)
            ∷ [])
          none
unfolding process_message process_packet ignore_unless_from_gcs respond
process_message-file_download a index seq_no d bs ha hs hz hn ht e =
    let m = from_gcs index seq_no FrameType.file_download bs in
    ground (
      arith,
      process_file_download_packet-whole m (omega arith) a,
      decode-encode_file_download d bs ha hs hz hn ht e,
    )

-- A storage command of the ground station, encoded from a known area and command, a 32-bit offset
-- and a length from 1 to 8192, is carried out with the fields it was encoded from, and answered.
pub process_message-storage :
    (a : Answers) (index seq_no : ℕ) (d : StorageCommandData)
    → d.area < num_storage_areas
    → d.command < num_storage_commands
    → IsU32 d.offset
    → d.size ≢ 0
    → d.size ≤ max_read_length
    → let m = from_gcs index seq_no FrameType.storage (encode_storage_command_frame d) in
      process_message a m ≡ respond_to m (storage_with a m d (storage_command_of d.command))
unfolding process_message process_packet ignore_unless_from_gcs
process_message-storage a index seq_no d ha hc ho hz hs =
    let m = from_gcs index seq_no FrameType.storage (encode_storage_command_frame d) in
    grind (
      arith,
      process_storage_packet-whole m (omega arith) a,
      decode-encode_storage d ha hc ho hz hs,
    )

length-encode_lcl_reset : (lcls : ℕ) → length (encode_lcl_reset_request_frame lcls) ≡ 1
unfolding encode_lcl_reset_request_frame
length-encode_lcl_reset lcls = refl

-- A request of the ground station to reset limiters, encoded from any set, resets the six
-- limiters that the set can name, and is acknowledged.
pub process_message-lcl_reset :
    (a : Answers) (index seq_no lcls : ℕ)
    → let m = from_gcs index seq_no FrameType.lcl_reset (encode_lcl_reset_request_frame lcls) in
      process_message a m
      ≡ Outcome.returned
          (Effect.reset_lcls (lcls % 64) ∷ send_response index m.envelope (ok 0) ∷ [])
          none
unfolding process_message process_packet ignore_unless_from_gcs lcl_reset_case
    validate_encoded_lcl_reset_request_frame
process_message-lcl_reset a index seq_no lcls =
    let m = from_gcs index seq_no FrameType.lcl_reset (encode_lcl_reset_request_frame lcls) in
    ground (
      arith,
      process_lcl_reset_request_packet-whole m (omega arith),
      decode-encode_lcl_reset lcls,
      length-encode_lcl_reset lcls,
    )

-- A request of the ground station with a 64-bit time sets the clock to that time; the status of
-- the clock is sent and the request acknowledged if that succeeds, and the failure is reported if
-- not.
pub process_message-clock_sync :
    (a : Answers) (index seq_no time : ℕ)
    → IsU64 time
    → let m = from_gcs index seq_no FrameType.clock_sync (encode_clock_sync_frame time) in
      process_message a m ≡ (
        if a.set_time_succeeds time
        then Outcome.returned
            (Effect.set_time_msec time
              ∷ Effect.send_clock_status_soon
              ∷ send_response index m.envelope (ok 0)
              ∷ [])
            none
        else Outcome.returned
            (Effect.set_time_msec time ∷ send_response index m.envelope (failed 0) ∷ [])
            none)
unfolding process_message process_packet ignore_unless_from_gcs
process_message-clock_sync a index seq_no time h =
    let m = from_gcs index seq_no FrameType.clock_sync (encode_clock_sync_frame time) in
    ground
      (arith, process_clock_sync_packet-whole m (omega arith) a, decode-encode_clock_sync time h)

-- Of at most 62 bytes of content: an echo request of any sender is answered with one frame of the
-- same content for that sender, on its channel, and a packet that carries that frame is answered
-- with nothing.
pub process_echo_twice :
    (m m' : InboundMessage) (content : List ℕ)
    → length content < max_payload_length
    → m.payload ≡ encode_echo_frame (record { is_reply = 0; content = content })
    → m.size ≡ length m.payload
    → m'.payload ≡ encode_echo_frame (record { is_reply = 1; content = content })
    → m'.size ≡ length m'.payload
    → (process_echo_packet m
        ≡ Outcome.returned
            (Effect.send_to
                (channel_mask m.index)
                m.envelope.frame_type
                onboard_computer
                m.envelope.source
                m'.payload
              ∷ [])
            none)
      × (process_echo_packet m' ≡ Outcome.returned [] none)
process_echo_twice m m' content h e z e' z' = grind (
  arith,
  process_echo_packet-whole m (omega arith),
  process_echo_packet-whole m' (omega arith),
  decode-encode_echo (record { is_reply = 0; content = content }) (omega arith),
  decode-encode_echo (record { is_reply = 1; content = content }) (omega arith),
)
