-- ===== src/Cmd.antt =====
-- src/modules/cmd.cpp: the commands that arrive over telemetry. This file has the messages, the
-- responses and what the module asks of the others; log records of other kinds are left out.
pub mod Handlers
pub mod StorageHandlers
pub mod Process
pub mod Reads
pub mod Guard
pub mod Bounds
pub mod Payloads
pub mod Answer
mod Tests
use obc.Common.{ℕ, List, length, leb, Bool, Option, ◌==◌, if◌then◌else◌}
use obc.Telem.Generic.{Envelope}
use obc.Frames.Storage.{DirectoryListingRequestData, FileDownloadRequestData}
use obc.Frames.Ack.{ack_accepted, nak_denied, nak_failed, nak_invalid, nak_unsupported}

-- `InboundMessage`; the payload is never null here.
pub record InboundMessage : Type 0 where
  pub index : ℕ
  pub envelope : Envelope
  pub payload : List ℕ
  pub size : ℕ

-- `Response`.
pub record Response : Type 0 where
  pub result : ℕ
  pub error : ℕ
  pub value : ℕ

unfoldable pub ok : ℕ → Response
ok value = record { result = ack_accepted; error = 0; value = value }

unfoldable pub denied : ℕ → Response
denied error = record { result = nak_denied; error = error; value = 0 }

unfoldable pub failed : ℕ → Response
failed error = record { result = nak_failed; error = error; value = 0 }

unfoldable pub invalid : ℕ → Response
invalid error = record { result = nak_invalid; error = error; value = 0 }

unfoldable pub unsupported : ℕ → Response
unsupported error = record { result = nak_unsupported; error = error; value = 0 }

-- The calls of other modules that have an effect, with their arguments. `send_to` has the channels,
-- and the envelope without its sequence number, which `sendTo` fills in.
pub data Effect : Type 0 where
  warning_ignored : ℕ → ℕ → Effect
  warning_unhandled : ℕ → Effect
  request_reset : Effect
  set_time_msec : ℕ → Effect
  send_clock_status_soon : Effect
  reset_lcls : ℕ → Effect
  start_gyro_calibration start_accelerometer_calibration : Effect
  start_clock stop_clock reset_clock : Effect
  send_camera_pulse report_storage_status report_edr_status report_memory_usage : Effect
  set_simulated_error set_telemetry_level_full : Bool → Effect
  simulate_io_error : ℕ → Effect
  mount_storage request_stop_and_unmount erase_storage : ℕ → Effect
  start_raw_storage_download : ℕ → ℕ → ℕ → ℕ → ℕ → Effect
  start_directory_listing : DirectoryListingRequestData → ℕ → ℕ → Effect
  start_file_download : FileDownloadRequestData → ℕ → ℕ → Effect
  send_to : ℕ → ℕ → ℕ → ℕ → List ℕ → Effect

-- What the calls answer. A number that stands for an `int` is its 32-bit pattern.
pub record Answers : Type 0 where
  pub set_time_succeeds : ℕ → Bool
  pub has_simulated_error : Bool
  pub telemetry_level_is_full : Bool
  pub mount_storage : ℕ → ℕ
  pub stop_and_unmount_succeeds : ℕ → Bool
  pub erase_storage : ℕ → ℕ
  pub start_raw_storage_download : ℕ → ℕ → ℕ → ℕ
  pub get_storage_size : ℕ → ℕ
  pub is_storage_configured : ℕ → Bool
  pub is_storage_mounted : ℕ → Bool
  pub is_storage_errored : ℕ → Bool
  pub start_directory_listing : DirectoryListingRequestData → ℕ
  pub start_file_download : FileDownloadRequestData → ℕ × ℕ

-- How a handler ends: it returns, it loops for ever (so that the watchdog resets the computer), or
-- it accesses an array out of bounds.
pub data Outcome : Type 0 where
  returned : List Effect → Option Response → Outcome
  hung : Outcome
  out_of_bounds : Outcome

-- A handler goes on behind a read of the first `n` bytes of the payload, if they exist.
unfoldable pub reading : InboundMessage → ℕ → Outcome → Outcome
reading m n rest = if leb n (length m.payload) then rest else Outcome.out_of_bounds

-- `retval` at the end of a handler.
unfoldable pub respond : ℕ → ℕ → Response
respond retval value = if retval == 0 then ok value else failed retval
