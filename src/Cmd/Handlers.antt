-- ===== src/Cmd/Handlers.antt =====
-- src/modules/cmd.cpp: the handlers of the commands, but for those about storage.
use obc.Common.{
  ℕ, ◌==◌, ◌^◌, get_or, not, if◌then◌else◌, List, [], ◌∷◌, Bool, true, false, Option, none, some,
}
use obc.Common.Words.{u8}
use obc.Telem.Generic.Component.{ground_station, onboard_computer}
use obc.Telem.Generic.FrameType.{ack}
use obc.Telem.Generic.Area.{storage_area_flash_memory, storage_area_sd_card}
use obc.Telem.Generic.{Envelope}
use obc.Frames.Ack.{encode_ack_frame}
use obc.Frames.Clock.{decode_clock_sync_frame, validate_encoded_clock_sync_frame}
use obc.Frames.Request.{
  EchoData, decode_echo_frame, encode_echo_frame, validate_encoded_echo_frame,
  decode_lcl_reset_request_frame, validate_encoded_lcl_reset_request_frame,
  decode_calibration_request_frame, validate_encoded_calibration_request_frame,
  decode_debug_command_frame, validate_encoded_debug_command_frame,
}
use obc.Cmd.{
  InboundMessage, Response, ok, failed, invalid, unsupported, Effect, Answers, Outcome, reading,
  respond,
}

-- In each handler `reading` stands for the reads of the decoder, and of the validator where it reads.
unfoldable pub process_clock_sync_packet : Answers → InboundMessage → Outcome
unfolding reading
process_clock_sync_packet a m =
    let timestamp = decode_clock_sync_frame m.payload in
    if not (validate_encoded_clock_sync_frame m.size)
    then Outcome.returned [] (some (invalid 0))
    else reading m 8 (
        if a.set_time_succeeds timestamp
        then Outcome.returned (Effect.set_time_msec timestamp ∷ Effect.send_clock_status_soon ∷ [])
            (some (ok 0))
        else Outcome.returned (Effect.set_time_msec timestamp ∷ []) (some (failed 0)))

unfoldable pub process_lcl_reset_request_packet : InboundMessage → Outcome
unfolding reading
process_lcl_reset_request_packet m =
    if not (validate_encoded_lcl_reset_request_frame m.size)
    then Outcome.returned [] (some (invalid 0))
    else reading m 1 (
        Outcome.returned (Effect.reset_lcls (decode_lcl_reset_request_frame m.payload) ∷ [])
          (some (ok 0)))

-- `calibration_procedure_t`.
pub data CalibrationProcedure : Type 0 where
  calibration_nop calibration_gyro calibration_accel unknown_procedure : CalibrationProcedure

unfoldable pub procedure_of : ℕ → CalibrationProcedure
procedure_of n =
    get_or
      (CalibrationProcedure.calibration_nop ∷ CalibrationProcedure.calibration_gyro
        ∷ CalibrationProcedure.calibration_accel ∷ [])
      n CalibrationProcedure.unknown_procedure

-- `performCalibration`: its effects and its result.
abbrev pub perform_calibration : CalibrationProcedure → List Effect × Bool
perform_calibration CalibrationProcedure.calibration_nop = ([], true)
perform_calibration CalibrationProcedure.calibration_gyro =
    (Effect.start_gyro_calibration ∷ [], true)
perform_calibration CalibrationProcedure.calibration_accel =
    (Effect.start_accelerometer_calibration ∷ [], true)
perform_calibration CalibrationProcedure.unknown_procedure = ([], false)

abbrev pub perform_and_respond : List Effect × Bool → Outcome
perform_and_respond (effects, success) =
    Outcome.returned effects (some (respond (if success then 0 else 1) 0))

-- The `switch` of `processCalibrationPacket`.
abbrev pub calibrate : CalibrationProcedure → Outcome
calibrate CalibrationProcedure.calibration_nop =
    perform_and_respond (perform_calibration CalibrationProcedure.calibration_nop)
calibrate CalibrationProcedure.calibration_gyro =
    perform_and_respond (perform_calibration CalibrationProcedure.calibration_gyro)
calibrate CalibrationProcedure.calibration_accel = Outcome.returned [] (some (unsupported 0))
calibrate CalibrationProcedure.unknown_procedure = Outcome.returned [] (some (invalid 0))

unfoldable pub process_calibration_packet : InboundMessage → Outcome
unfolding reading
process_calibration_packet m =
    if not (validate_encoded_calibration_request_frame m.size)
    then Outcome.returned [] (some (invalid 0))
    else reading m 1 (calibrate (procedure_of (decode_calibration_request_frame m.payload)))

-- `debug_command_t`.
pub data DebugCommand : Type 0 where
  debug_nop debug_start_clock debug_stop_clock debug_reset_clock : DebugCommand
  debug_toggle_camera debug_trigger_watchdog debug_report_storage_status : DebugCommand
  debug_toggle_simulated_error debug_report_edr_status debug_toggle_telemetry_level : DebugCommand
  debug_report_memory_usage debug_simulate_flashmem_error debug_simulate_sdcard_error : DebugCommand
  unknown_debug_command : DebugCommand

unfoldable pub debug_command_of : ℕ → DebugCommand
debug_command_of n =
    get_or
      (DebugCommand.debug_nop ∷ DebugCommand.debug_start_clock ∷ DebugCommand.debug_stop_clock
        ∷ DebugCommand.debug_reset_clock ∷ DebugCommand.debug_toggle_camera
        ∷ DebugCommand.debug_trigger_watchdog ∷ DebugCommand.debug_report_storage_status
        ∷ DebugCommand.debug_toggle_simulated_error ∷ DebugCommand.debug_report_edr_status
        ∷ DebugCommand.debug_toggle_telemetry_level ∷ DebugCommand.debug_report_memory_usage
        ∷ DebugCommand.debug_simulate_flashmem_error ∷ DebugCommand.debug_simulate_sdcard_error
        ∷ [])
      n DebugCommand.unknown_debug_command

-- `STORAGE_AREA_SD_CARD` and `STORAGE_AREA_FLASH_MEMORY`.
abbrev pub returned_ok : List Effect → Outcome
returned_ok effects = Outcome.returned effects (some (ok 0))

-- The `switch` of `processDebugPacket`; `retval` stays 0.
abbrev pub debug_with : Answers → DebugCommand → Outcome
debug_with a DebugCommand.debug_nop = returned_ok []
debug_with a DebugCommand.debug_start_clock =
    returned_ok (Effect.start_clock ∷ Effect.send_clock_status_soon ∷ [])
debug_with a DebugCommand.debug_stop_clock =
    returned_ok (Effect.stop_clock ∷ Effect.send_clock_status_soon ∷ [])
debug_with a DebugCommand.debug_reset_clock =
    returned_ok (Effect.reset_clock ∷ Effect.send_clock_status_soon ∷ [])
debug_with a DebugCommand.debug_toggle_camera = returned_ok (Effect.send_camera_pulse ∷ [])
debug_with a DebugCommand.debug_trigger_watchdog = Outcome.hung
debug_with a DebugCommand.debug_report_storage_status =
    returned_ok (Effect.report_storage_status ∷ [])
debug_with a DebugCommand.debug_toggle_simulated_error =
    returned_ok (Effect.set_simulated_error (not a.has_simulated_error) ∷ [])
debug_with a DebugCommand.debug_report_edr_status = returned_ok (Effect.report_edr_status ∷ [])
debug_with a DebugCommand.debug_toggle_telemetry_level =
    returned_ok (Effect.set_telemetry_level_full (not a.telemetry_level_is_full) ∷ [])
debug_with a DebugCommand.debug_report_memory_usage = returned_ok (Effect.report_memory_usage ∷ [])
debug_with a DebugCommand.debug_simulate_flashmem_error =
    returned_ok (Effect.simulate_io_error storage_area_flash_memory ∷ [])
debug_with a DebugCommand.debug_simulate_sdcard_error =
    returned_ok (Effect.simulate_io_error storage_area_sd_card ∷ [])
debug_with a DebugCommand.unknown_debug_command = Outcome.returned [] (some (invalid 0))

unfoldable pub process_debug_packet : Answers → InboundMessage → Outcome
unfolding reading
process_debug_packet a m =
    if not (validate_encoded_debug_command_frame m.size)
    then Outcome.returned [] (some (invalid 0))
    else reading m 1 (debug_with a (debug_command_of (decode_debug_command_frame m.payload)))

-- `1 << message.index` as a set of channels, which has eight bits.
unfoldable pub channel_mask : ℕ → ℕ
channel_mask index = u8 (2 ^ index)

-- `processEchoPacket` once the frame is decoded; a reply is not replied to.
abbrev pub echo_decoded : InboundMessage → Option EchoData → Outcome
echo_decoded m none = Outcome.out_of_bounds
echo_decoded m (some d) =
    if d.is_reply == 0
    then Outcome.returned
        (Effect.send_to (channel_mask m.index) m.envelope.frame_type onboard_computer
            m.envelope.source (encode_echo_frame (record d { is_reply = 1 }))
          ∷ [])
        none
    else Outcome.returned [] none

unfoldable pub process_echo_packet : InboundMessage → Outcome
unfolding reading
process_echo_packet m =
    if not (validate_encoded_echo_frame m.size)
    then Outcome.returned [] none
    else reading m 1 (reading m m.size (echo_decoded m (decode_echo_frame m.payload m.size)))

unfoldable pub send_response : ℕ → Envelope → Response → Effect
send_response channel envelope response =
    Effect.send_to (channel_mask channel) ack onboard_computer ground_station (
      encode_ack_frame (record {
        frame_type = envelope.frame_type;
        seq_no = envelope.seq_no;
        result = response.result;
        error = response.error;
        value = response.value;
      }))
