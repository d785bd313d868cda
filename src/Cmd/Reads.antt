-- ===== src/Cmd/Reads.antt =====
-- The handlers of src/modules/cmd.cpp on messages whose payload has all the bytes of its size: none of
-- their reads is out of bounds.
use obc.Common.{
  ℕ, ◌≤◌, ◌≡◌, ◌∙◌, leb, not, if◌then◌else◌, length, List, [], ◌∷◌, Bool, Bool-cases, inl, inr,
  true, none, some, ap, arith,
}
use obc.Frames.Clock.{decode_clock_sync_frame, validate_encoded_clock_sync_frame}
use obc.Frames.Request.{
  decode_lcl_reset_request_frame, validate_encoded_lcl_reset_request_frame,
  decode_calibration_request_frame, validate_encoded_calibration_request_frame,
  decode_debug_command_frame, validate_encoded_debug_command_frame, decode_echo_frame,
  validate_encoded_echo_frame, decode_storage_command_frame, validate_encoded_storage_command_frame,
}
use obc.Frames.Storage.{
  decode_directory_listing_request_frame, validate_encoded_directory_listing_request_frame,
  decode_file_download_request_frame, validate_encoded_file_download_request_frame,
}
use obc.Cmd.{InboundMessage, Effect, Answers, Outcome, reading, invalid, ok, failed}
use obc.Cmd.Handlers.{
  process_clock_sync_packet, process_lcl_reset_request_packet, process_calibration_packet,
  process_debug_packet, process_echo_packet, calibrate, debug_with, debug_command_of, procedure_of,
  echo_decoded,
}
use obc.Cmd.StorageHandlers.{
  process_storage_packet, process_directory_listing_packet, process_file_download_packet,
  list_decoded, download_decoded, storage_with, storage_command_of,
}

reading-whole :
    (m : InboundMessage) (n : ℕ) (rest : Outcome) → n ≤ length m.payload → reading m n rest ≡ rest
unfolding reading
reading-whole m n rest h = ground arith

listing-size :
    (bs : List ℕ) (n : ℕ) → validate_encoded_directory_listing_request_frame bs n ≡ true → 5 ≤ n
unfolding validate_encoded_directory_listing_request_frame
listing-size bs n h = ground arith

download-size :
    (bs : List ℕ) (n : ℕ) → validate_encoded_file_download_request_frame bs n ≡ true → 7 ≤ n
unfolding validate_encoded_file_download_request_frame
download-size bs n h = ground arith

reads_at_most : (k n : ℕ) → (if leb k n then k else 0) ≤ n
reads_at_most k n = ground arith

module _ (m : InboundMessage) (whole : m.size ≤ length m.payload) where
  pub process_clock_sync_packet-whole :
      (a : Answers)
      → let timestamp = decode_clock_sync_frame m.payload in
        process_clock_sync_packet a m ≡ (
          if not (validate_encoded_clock_sync_frame m.size)
          then Outcome.returned [] (some (invalid 0))
          else (if a.set_time_succeeds timestamp
              then Outcome.returned
                  (Effect.set_time_msec timestamp ∷ Effect.send_clock_status_soon ∷ [])
                  (some (ok 0))
              else Outcome.returned (Effect.set_time_msec timestamp ∷ []) (some (failed 0))))
  unfolding process_clock_sync_packet reading validate_encoded_clock_sync_frame
  process_clock_sync_packet-whole a = ground (arith, whole)

  pub process_lcl_reset_request_packet-whole : process_lcl_reset_request_packet m ≡ (
      if not (validate_encoded_lcl_reset_request_frame m.size)
      then Outcome.returned [] (some (invalid 0))
      else Outcome.returned
          (Effect.reset_lcls (decode_lcl_reset_request_frame m.payload) ∷ [])
          (some (ok 0)))
  unfolding process_lcl_reset_request_packet reading validate_encoded_lcl_reset_request_frame
  process_lcl_reset_request_packet-whole = ground (arith, whole)

  pub process_calibration_packet-whole : process_calibration_packet m ≡ (
      if not (validate_encoded_calibration_request_frame m.size)
      then Outcome.returned [] (some (invalid 0))
      else calibrate (procedure_of (decode_calibration_request_frame m.payload)))
  unfolding process_calibration_packet reading validate_encoded_calibration_request_frame
  process_calibration_packet-whole = ground (arith, whole)

  pub process_debug_packet-whole :
      (a : Answers)
      → process_debug_packet a m ≡ (
          if not (validate_encoded_debug_command_frame m.size)
          then Outcome.returned [] (some (invalid 0))
          else debug_with a (debug_command_of (decode_debug_command_frame m.payload)))
  unfolding process_debug_packet reading validate_encoded_debug_command_frame
  process_debug_packet-whole a = ground (arith, whole)

  pub process_echo_packet-whole : process_echo_packet m ≡ (
      if not (validate_encoded_echo_frame m.size)
      then Outcome.returned [] none
      else echo_decoded m (decode_echo_frame m.payload m.size))
  unfolding process_echo_packet reading validate_encoded_echo_frame
  process_echo_packet-whole = ground (arith, whole)

  pub process_storage_packet-whole :
      (a : Answers)
      → let d = decode_storage_command_frame m.payload in
        process_storage_packet a m ≡ (
          if not (validate_encoded_storage_command_frame m.size)
          then Outcome.returned [] (some (invalid 0))
          else storage_with a m d (storage_command_of d.command))
  unfolding process_storage_packet reading validate_encoded_storage_command_frame
  process_storage_packet-whole a = ground (arith, whole)

  pub process_directory_listing_packet-whole :
      (a : Answers)
      → process_directory_listing_packet a m ≡ (
          if not (validate_encoded_directory_listing_request_frame m.payload m.size)
          then Outcome.returned [] (some (invalid 0))
          else list_decoded a m (decode_directory_listing_request_frame m.payload m.size))
  unfolding process_directory_listing_packet
  process_directory_listing_packet-whole a =
      reading-whole m (if leb 5 m.size then 5 else 0) _
        (omega (arith, whole, reads_at_most 5 m.size))
      ∙ elim (Bool-cases valid) [
        | inl v ↦
            let o = list_decoded a m (decode_directory_listing_request_frame m.payload m.size) in
            let long = listing-size m.payload m.size v in
            let read = reading-whole m m.size o whole in
            ap (λ o'. if not valid then refused else reading m 5 o') read
            ∙ ap (λ o'. if not valid then refused else o')
                (reading-whole m 5 o (omega (arith, whole)))
        | inr v ↦ ground (arith, v)
      ]
    where
      valid : Bool
      valid = validate_encoded_directory_listing_request_frame m.payload m.size

      refused : Outcome
      refused = Outcome.returned [] (some (invalid 0))

  pub process_file_download_packet-whole :
      (a : Answers)
      → process_file_download_packet a m ≡ (
          if not (validate_encoded_file_download_request_frame m.payload m.size)
          then Outcome.returned [] (some (invalid 0))
          else download_decoded a m (decode_file_download_request_frame m.payload m.size))
  unfolding process_file_download_packet
  process_file_download_packet-whole a =
      reading-whole m (if leb 7 m.size then 7 else 0) _
        (omega (arith, whole, reads_at_most 7 m.size))
      ∙ elim (Bool-cases valid) [
        | inl v ↦
            let o = download_decoded a m (decode_file_download_request_frame m.payload m.size) in
            let long = download-size m.payload m.size v in
            let read = reading-whole m m.size o whole in
            ap (λ o'. if not valid then refused else reading m 7 o') read
            ∙ ap (λ o'. if not valid then refused else o')
                (reading-whole m 7 o (omega (arith, whole)))
        | inr v ↦ ground (arith, v)
      ]
    where
      valid : Bool
      valid = validate_encoded_file_download_request_frame m.payload m.size

      refused : Outcome
      refused = Outcome.returned [] (some (invalid 0))
