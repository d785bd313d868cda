-- ===== src/Cmd/Bounds.antt =====
-- src/modules/cmd.cpp stays within the payloads that it reads, the arrays that it decodes into, and the
-- buffer that it encodes its answers into.
use obc.Common.{
  ℕ, ◌-◌, ◌≤◌, ◌==◌, not, length, length-take, drop, if◌then◌else◌, List, [], ◌∷◌, ◌++◌, Bool, true,
  false, Option, none, some, ◌≡◌, ◌≢◌, refl, arith, All,
}
use obc.Common.Words.{u8}
use obc.Frames.Ack.{encode_ack_frame}
use obc.Frames.Request.{
  encode_echo_frame, validate_encoded_calibration_request_frame,
  validate_encoded_debug_command_frame, validate_encoded_storage_command_frame,
}
use obc.Cmd.{Response}
use obc.Cmd.Handlers.{send_response}
use obc.Cmd.Process.{respond_to}
use obc.Cmd.Reads.{
  process_clock_sync_packet-whole, process_lcl_reset_request_packet-whole,
  process_calibration_packet-whole, process_debug_packet-whole, process_echo_packet-whole,
  process_storage_packet-whole, process_directory_listing_packet-whole,
  process_file_download_packet-whole,
}
use obc.Telem.Generic.Component.{onboard_computer}
use obc.Telem.Generic.{Envelope, max_payload_length}
use obc.Frames.Request.{
  StorageCommandData, decode_storage_command_frame, decode_calibration_request_frame,
  decode_debug_command_frame, decode_echo_frame,
}
use obc.Frames.Storage.{
  DirectoryListingRequestData, FileDownloadRequestData, decode_directory_listing_request_frame,
  validate_encoded_directory_listing_request_frame, decode_file_download_request_frame,
  validate_encoded_file_download_request_frame,
}
use obc.Frames.Storage.Laws.{decode_valid_requests}
use obc.Cmd.{InboundMessage, Effect, Answers, Outcome}
use obc.Cmd.Handlers.{
  process_clock_sync_packet, process_lcl_reset_request_packet, process_calibration_packet,
  process_debug_packet, process_echo_packet, calibrate, debug_with, debug_command_of, procedure_of,
  DebugCommand, CalibrationProcedure,
}
use obc.Cmd.StorageHandlers.{
  process_storage_packet, process_directory_listing_packet, process_file_download_packet,
  list_decoded, download_decoded, storage_with, StorageCommand, storage_command_of,
}
use obc.Cmd.Process.{
  process_packet, process_message, unhandled, ignore_unless_from_gcs, lcl_reset_case,
  calibration_case, after,
}

-- A frame that is sent fits `responseBuffer`, in which it is encoded.
abbrev pub FitsBuffer : Effect → Type 0
FitsBuffer (Effect.send_to _ _ _ _ payload) = length payload ≤ max_payload_length
FitsBuffer _ = Unit

-- No access is out of bounds.
abbrev pub InBounds : Outcome → Type 0
InBounds (Outcome.returned es r) = All FitsBuffer es
InBounds Outcome.hung = Unit
InBounds Outcome.out_of_bounds = ⊥

calibrate-InBounds : (c : CalibrationProcedure) → InBounds (calibrate c)
calibrate-InBounds c = ground arith

debug_with-InBounds : (a : Answers) (c : DebugCommand) → InBounds (debug_with a c)
debug_with-InBounds a c = ground arith

storage_with-InBounds :
    (a : Answers) (m : InboundMessage) (d : StorageCommandData) (c : StorageCommand)
    → InBounds (storage_with a m d c)
storage_with-InBounds a m d c = ground arith

list_decoded-InBounds :
    (a : Answers) (m : InboundMessage) (d : Option DirectoryListingRequestData)
    → d ≢ none
    → InBounds (list_decoded a m d)
list_decoded-InBounds a m none h = absurd (h refl)
list_decoded-InBounds a m (some d) h = (tt, tt)

download_decoded-InBounds :
    (a : Answers) (m : InboundMessage) (d : Option FileDownloadRequestData)
    → d ≢ none
    → InBounds (download_decoded a m d)
download_decoded-InBounds a m none h = absurd (h refl)
download_decoded-InBounds a m (some d) h = (tt, tt)

refused-InBounds :
    (valid : Bool) (o : Outcome) (r : Option Response)
    → (valid ≡ true → InBounds o)
    → InBounds (if not valid then Outcome.returned [] r else o)
refused-InBounds true o r h = h refl
refused-InBounds false o r h = tt

after-InBounds : (e : Effect) (o : Outcome) → FitsBuffer e → InBounds o → InBounds (after e o)
after-InBounds e (Outcome.returned es r) f h = (f, h)
after-InBounds e Outcome.hung f h = tt
after-InBounds e Outcome.out_of_bounds f h = elim h [ ]

guard-InBounds :
    (m : InboundMessage) (what : ℕ) (rest handle : Outcome)
    → InBounds rest
    → InBounds handle
    → InBounds (ignore_unless_from_gcs m what rest handle)
unfolding ignore_unless_from_gcs
guard-InBounds m what rest handle h k =
    ground (arith, after-InBounds (Effect.warning_ignored what m.envelope.source) rest tt h)

if-InBounds :
    (b : Bool) (o o' : Outcome) → InBounds o → InBounds o' → InBounds (if b then o else o')
if-InBounds true o o' h k = h
if-InBounds false o o' h k = k

response-FitsBuffer :
    (channel : ℕ) (e : Envelope) (r : Response) → FitsBuffer (send_response channel e r)
unfolding send_response encode_ack_frame
response-FitsBuffer channel e r = ground arith

respond_to-InBounds : (m : InboundMessage) (o : Outcome) → InBounds o → InBounds (respond_to m o)
respond_to-InBounds m (Outcome.returned es none) h = h
respond_to-InBounds m (Outcome.returned es (some r)) h = all es h
  where
    all :
        (es : List Effect)
        → All FitsBuffer es
        → All FitsBuffer (es ++ (send_response m.index m.envelope r ∷ []))
    all [] h = (response-FitsBuffer m.index m.envelope r, tt)
    all (e ∷ es) h = (h.0, all es h.1)
respond_to-InBounds m Outcome.hung h = tt
respond_to-InBounds m Outcome.out_of_bounds h = elim h [ ]

module _ (m : InboundMessage) (short : m.size ≤ max_payload_length)
    (whole : m.size ≤ length m.payload) where
  echo-InBounds : InBounds (process_echo_packet m)
  unfolding decode_echo_frame encode_echo_frame
  echo-InBounds =
      let n = u8 (m.size - 1) in
      rw (process_echo_packet-whole m whole)
        (ground (arith, short, length-take n (drop 1 m.payload), length-take 0 (drop 1 m.payload)))

  listing-InBounds : (a : Answers) → InBounds (process_directory_listing_packet a m)
  listing-InBounds a = rw (process_directory_listing_packet-whole m whole a) (
      refused-InBounds (validate_encoded_directory_listing_request_frame m.payload m.size) _ _ (λ v.
        list_decoded-InBounds a m (decode_directory_listing_request_frame m.payload m.size)
          ((decode_valid_requests m.payload m.size short).0 v)))

  download-InBounds : (a : Answers) → InBounds (process_file_download_packet a m)
  download-InBounds a = rw (process_file_download_packet-whole m whole a) (
      refused-InBounds (validate_encoded_file_download_request_frame m.payload m.size) _ _ (λ v.
        download_decoded-InBounds a m (decode_file_download_request_frame m.payload m.size)
          ((decode_valid_requests m.payload m.size short).1 v)))

  clock_sync-InBounds : (a : Answers) → InBounds (process_clock_sync_packet a m)
  clock_sync-InBounds a = rw (process_clock_sync_packet-whole m whole a) (ground arith)

  calibration-InBounds : InBounds (process_calibration_packet m)
  calibration-InBounds = rw (process_calibration_packet-whole m whole) (
      refused-InBounds (validate_encoded_calibration_request_frame m.size) _ _
        (λ v. calibrate-InBounds (procedure_of (decode_calibration_request_frame m.payload))))

  debug-InBounds : (a : Answers) → InBounds (process_debug_packet a m)
  debug-InBounds a = rw (process_debug_packet-whole m whole a) (
      refused-InBounds (validate_encoded_debug_command_frame m.size) _ _
        (λ v. debug_with-InBounds a (debug_command_of (decode_debug_command_frame m.payload))))

  storage-InBounds : (a : Answers) → InBounds (process_storage_packet a m)
  storage-InBounds a =
      let d = decode_storage_command_frame m.payload in
      rw (process_storage_packet-whole m whole a) (
        refused-InBounds (validate_encoded_storage_command_frame m.size) _ _
          (λ v. storage_with-InBounds a m d (storage_command_of d.command)))

  lcl_reset-InBounds : InBounds (process_lcl_reset_request_packet m)
  lcl_reset-InBounds = rw (process_lcl_reset_request_packet-whole m whole) (ground arith)

  packet-InBounds : (a : Answers) → InBounds (process_packet a m)
  unfolding process_packet lcl_reset_case calibration_case unhandled
  packet-InBounds a =
      search
        (
          if-InBounds, guard-InBounds, echo-InBounds, listing-InBounds, download-InBounds,
          calibration-InBounds, debug-InBounds, storage-InBounds, clock_sync-InBounds,
          lcl_reset-InBounds,
        )
        depth 30

-- A packet with a payload of at most 63 bytes, which has all bytes of its size: neither the
-- handlers, nor `processNext` with the response that it sends, read behind the end of the payload,
-- write behind the end of the array that the payload is decoded into, or encode a reply that is
-- longer than its buffer.
pub process_packet-InBounds :
    (a : Answers) (m : InboundMessage)
    → m.size ≤ max_payload_length
    → m.size ≤ length m.payload
    → InBounds (process_packet a m) × InBounds (process_message a m)
unfolding process_message
process_packet-InBounds a m h k =
    let one = packet-InBounds m h k a in
    (
      one,
      if-InBounds (m.envelope.target == onboard_computer) (respond_to m (process_packet a m))
          (Outcome.returned [] none) (respond_to-InBounds m (process_packet a m) one) tt,
    )
