-- ===== src/Cmd/StorageHandlers.antt =====
-- src/modules/cmd.cpp: the handlers of the commands about storage areas, directories and files.
use obc.Common.{ℕ, leb, bit_or, get_or, not, if◌then◌else◌, [], ◌∷◌, Option, none, some}
use obc.Frames.Request.{
  StorageCommandData, decode_storage_command_frame, validate_encoded_storage_command_frame,
}
use obc.Frames.Storage.{
  DirectoryListingRequestData, FileDownloadRequestData, decode_directory_listing_request_frame,
  validate_encoded_directory_listing_request_frame, decode_file_download_request_frame,
  validate_encoded_file_download_request_frame,
}
use obc.Cmd.{InboundMessage, ok, invalid, Effect, Answers, Outcome, reading, respond}
use obc.Cmd.Handlers.{channel_mask}

-- `storage_command_t`.
pub data StorageCommand : Type 0 where
  storage_nop storage_mount storage_unmount storage_erase storage_read : StorageCommand
  storage_get_size storage_get_status unknown_storage_command : StorageCommand

unfoldable pub storage_command_of : ℕ → StorageCommand
storage_command_of n =
    get_or
      (StorageCommand.storage_nop ∷ StorageCommand.storage_mount ∷ StorageCommand.storage_unmount
        ∷ StorageCommand.storage_erase ∷ StorageCommand.storage_read
        ∷ StorageCommand.storage_get_size ∷ StorageCommand.storage_get_status ∷ [])
      n StorageCommand.unknown_storage_command

-- The error number `EIO`.
abbrev pub eio : ℕ
eio = 5

-- The value of `STORAGE_COMMAND_GET_STATUS`.
unfoldable pub storage_status : Answers → ℕ → ℕ
storage_status a area =
    bit_or
      (bit_or (if a.is_storage_configured area then 1 else 0)
        (if a.is_storage_mounted area then 2 else 0))
      (if a.is_storage_errored area then 4 else 0)

-- The `switch` of `processStoragePacket`.
abbrev pub storage_with : Answers → InboundMessage → StorageCommandData → StorageCommand → Outcome
storage_with a m d StorageCommand.storage_mount =
    Outcome.returned (Effect.mount_storage d.area ∷ []) (some (respond (a.mount_storage d.area) 0))
storage_with a m d StorageCommand.storage_unmount =
    Outcome.returned (Effect.request_stop_and_unmount d.area ∷ [])
      (some (respond (if a.stop_and_unmount_succeeds d.area then 0 else eio) 0))
storage_with a m d StorageCommand.storage_erase =
    Outcome.returned (Effect.erase_storage d.area ∷ []) (some (respond (a.erase_storage d.area) 0))
storage_with a m d StorageCommand.storage_nop = Outcome.returned [] (some (respond 0 0))
storage_with a m d StorageCommand.storage_read =
    Outcome.returned
      (Effect.start_raw_storage_download d.area d.offset d.size (channel_mask m.index)
          m.envelope.seq_no
        ∷ [])
      (some (respond (a.start_raw_storage_download d.area d.offset d.size) 0))
storage_with a m d StorageCommand.storage_get_size =
    Outcome.returned [] (some (ok (a.get_storage_size d.area)))
storage_with a m d StorageCommand.storage_get_status =
    Outcome.returned [] (some (ok (storage_status a d.area)))
storage_with a m d StorageCommand.unknown_storage_command = Outcome.returned [] (some (invalid 0))

unfoldable pub process_storage_packet : Answers → InboundMessage → Outcome
unfolding reading
process_storage_packet a m =
    let d = decode_storage_command_frame m.payload in
    if not (validate_encoded_storage_command_frame m.size)
    then Outcome.returned [] (some (invalid 0))
    else reading m 7 (storage_with a m d (storage_command_of d.command))

-- `processDirectoryListingPacket` once the frame is decoded.
abbrev pub list_decoded : Answers → InboundMessage → Option DirectoryListingRequestData → Outcome
list_decoded a m none = Outcome.out_of_bounds
list_decoded a m (some d) =
    Outcome.returned
      (Effect.start_directory_listing d (channel_mask m.index) m.envelope.seq_no ∷ [])
      (some (respond (a.start_directory_listing d) 0))

unfoldable pub process_directory_listing_packet : Answers → InboundMessage → Outcome
unfolding reading
process_directory_listing_packet a m = reading m (if leb 5 m.size then 5 else 0) (
    if not (validate_encoded_directory_listing_request_frame m.payload m.size)
    then Outcome.returned [] (some (invalid 0))
    else reading m 5 (
        reading m m.size
          (list_decoded a m (decode_directory_listing_request_frame m.payload m.size))))

-- `processFileDownloadPacket` once the frame is decoded; the size of the file is reported.
abbrev pub download_decoded : Answers → InboundMessage → Option FileDownloadRequestData → Outcome
download_decoded a m none = Outcome.out_of_bounds
download_decoded a m (some d) =
    Outcome.returned (Effect.start_file_download d (channel_mask m.index) m.envelope.seq_no ∷ [])
      (some (respond (a.start_file_download d).0 (a.start_file_download d).1))

unfoldable pub process_file_download_packet : Answers → InboundMessage → Outcome
unfolding reading
process_file_download_packet a m = reading m (if leb 7 m.size then 7 else 0) (
    if not (validate_encoded_file_download_request_frame m.payload m.size)
    then Outcome.returned [] (some (invalid 0))
    else reading m 7 (
        reading m m.size
          (download_decoded a m (decode_file_download_request_frame m.payload m.size))))
