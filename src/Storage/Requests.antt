-- ===== src/Storage/Requests.antt =====
-- src/modules/storage.cpp: the functions of the module that act on the filesystems.
use obc.Common.{ℕ, if◌then◌else◌, Bool, true, false, Option, none, some}
use obc.Telem.Generic.Area.{storage_area_flash_memory, storage_area_sd_card}
use obc.Storage.Filesystem.{
  LfsError, Errno, convert_littlefs_error_code, Littlefs, StorageOperation, Drivers,
  FilesystemState, configure, ensure_mounted, ensure_unmounted, format, mark_errored, clear_errors,
  get_current_storage_operation, get_size,
}
use obc.Storage.Areas.{
  Filesystems, all_mounted, any_errored, any_mounted, get_state, put_state, format_all,
  format_at_boot, mount_at_boot,
}

-- `InitMode`.
pub data InitMode : Type 0 where
  init_mode_normal init_mode_format_if_needed init_mode_format : InitMode

-- `subsystem_status_t`.
pub data SubsystemStatus : Type 0 where
  status_critical status_error status_warning status_ok : SubsystemStatus

module _ {Disk : Type 0} where
  unfoldable pub get_subsystem_status : Filesystems Disk → SubsystemStatus
  unfolding any_errored all_mounted any_mounted
  get_subsystem_status fs =
      if any_errored fs
      then SubsystemStatus.status_error
      else (if all_mounted fs
          then SubsystemStatus.status_ok
          else (if any_mounted fs
              then SubsystemStatus.status_warning
              else SubsystemStatus.status_critical))

  -- A test of a filesystem that is false for an area without one.
  abbrev pub holds : (FilesystemState Disk → Bool) → Option (FilesystemState Disk) → Bool
  holds p none = false
  holds p (some s) = p s

  unfoldable pub is_storage_configured : Filesystems Disk → ℕ → Bool
  unfolding get_state
  is_storage_configured fs area = holds (λ s. s.configured) (get_state fs area)

  unfoldable pub is_storage_errored : Filesystems Disk → ℕ → Bool
  unfolding get_state
  is_storage_errored fs area = holds (λ s. s.errored) (get_state fs area)

  unfoldable pub is_storage_mounted : Filesystems Disk → ℕ → Bool
  unfolding get_state
  is_storage_mounted fs area = holds (λ s. s.mounted) (get_state fs area)

  -- Puts a filesystem and the error code of its operation back.
  abbrev pub put_result :
      Filesystems Disk → ℕ → Errno × FilesystemState Disk → Errno × Filesystems Disk
  put_result fs area (e, s) = (e, put_state fs area s)

  abbrev pub mark_found :
      Filesystems Disk → ℕ → Errno → Option (FilesystemState Disk) → Filesystems Disk
  mark_found fs area e none = fs
  mark_found fs area e (some s) = (put_result fs area (mark_errored s e)).1

  unfoldable pub mark_storage_as_errored : Filesystems Disk → ℕ → Errno → Filesystems Disk
  unfolding get_state mark_errored
  mark_storage_as_errored fs area e = mark_found fs area e (get_state fs area)

  abbrev pub operation_of : Drivers → Option (FilesystemState Disk) → StorageOperation
  operation_of drivers none = StorageOperation.op_unconfigured
  operation_of drivers (some s) = get_current_storage_operation drivers s

  unfoldable pub current_storage_operation : Drivers → Filesystems Disk → ℕ → StorageOperation
  unfolding get_state get_current_storage_operation
  current_storage_operation drivers fs area = operation_of drivers (get_state fs area)

  abbrev pub size_of : Drivers → Option (FilesystemState Disk) → ℕ
  size_of drivers none = 0
  size_of drivers (some s) = get_size drivers s

  unfoldable pub get_storage_size : Drivers → Filesystems Disk → ℕ → ℕ
  unfolding get_state get_size
  get_storage_size drivers fs area = size_of drivers (get_state fs area)

  -- Success, or the error flag with the given code.
  abbrev pub eio_unless : Bool × FilesystemState Disk → Errno × FilesystemState Disk
  eio_unless (true, s) = (Errno.success, s)
  eio_unless (false, s) = mark_errored s Errno.eio

  abbrev pub check_format : Option LfsError × FilesystemState Disk → Errno × FilesystemState Disk
  check_format (none, s) = (Errno.success, s)
  check_format (some e, s) = mark_errored s (convert_littlefs_error_code (some e))

  abbrev pub put_configured :
      Filesystems Disk → ℕ → Bool × FilesystemState Disk → Bool × Filesystems Disk
  put_configured fs area (b, s) = (b, put_state fs area s)

module _ {Config Disk : Type 0} (lfs : Littlefs Config Disk) where
  abbrev pub configure_found :
      Filesystems Disk → ℕ → Config → Option (FilesystemState Disk) → Bool × Filesystems Disk
  configure_found fs area cfg none = (false, fs)
  configure_found fs area cfg (some s) =
      if s.configured then (false, fs) else put_configured fs area (configure lfs cfg s)

  unfoldable pub configure_storage : Filesystems Disk → ℕ → Config → Bool × Filesystems Disk
  unfolding get_state configure
  configure_storage fs area cfg = configure_found fs area cfg (get_state fs area)

  abbrev pub erase_found :
      Filesystems Disk → ℕ → Option (FilesystemState Disk) → Errno × Filesystems Disk
  erase_found fs area none = (Errno.einval, fs)
  erase_found fs area (some s) =
      if s.mounted then (Errno.eio, fs) else put_result fs area (check_format (format lfs s))

  unfoldable pub erase_storage : Filesystems Disk → ℕ → Errno × Filesystems Disk
  unfolding get_state format mark_errored convert_littlefs_error_code
  erase_storage fs area = erase_found fs area (get_state fs area)

  abbrev pub mount_found :
      Filesystems Disk → ℕ → Bool → Option (FilesystemState Disk) → Errno × Filesystems Disk
  mount_found fs area force none = (Errno.einval, fs)
  mount_found fs area force (some s) =
      let s' = if force then clear_errors s else s in
      put_result fs area (eio_unless (ensure_mounted lfs s'))

  unfoldable pub mount_storage : Filesystems Disk → ℕ → Bool → Errno × Filesystems Disk
  unfolding get_state clear_errors ensure_mounted mark_errored
  mount_storage fs area force = mount_found fs area force (get_state fs area)

  abbrev pub unmount_found :
      Filesystems Disk → ℕ → Option (FilesystemState Disk) → Errno × Filesystems Disk
  unmount_found fs area none = (Errno.einval, fs)
  unmount_found fs area (some s) = put_result fs area (eio_unless (ensure_unmounted lfs s))

  unfoldable pub unmount_storage : Filesystems Disk → ℕ → Errno × Filesystems Disk
  unfolding get_state ensure_unmounted mark_errored
  unmount_storage fs area = unmount_found fs area (get_state fs area)

  abbrev pub configure_if : Filesystems Disk → ℕ → Option Config → Filesystems Disk
  configure_if fs area none = fs
  configure_if fs area (some cfg) = (configure_storage fs area cfg).1

  abbrev pub retry : InitMode → Bool × Filesystems Disk → Filesystems Disk
  retry InitMode.init_mode_format_if_needed (false, fs) =
      (mount_at_boot lfs (format_at_boot lfs fs).1).1
  retry mode (success, fs) = fs

  abbrev pub mount_formatted : Bool × Filesystems Disk → Filesystems Disk
  mount_formatted (false, fs) = fs
  mount_formatted (true, fs) = retry InitMode.init_mode_format (mount_at_boot lfs fs)

  abbrev pub mount_for : InitMode → Filesystems Disk → Filesystems Disk
  mount_for InitMode.init_mode_format fs = mount_formatted (format_all lfs fs)
  mount_for mode fs = retry mode (mount_at_boot lfs fs)

  -- The configurations are what the set-up of the drivers answers.
  unfoldable pub setup :
      InitMode → Option Config → Option Config → Filesystems Disk → Filesystems Disk
  unfolding configure_storage format_all mount_at_boot format_at_boot
  setup mode flash_cfg sd_cfg fs = mount_for mode (
      configure_if (configure_if fs storage_area_flash_memory flash_cfg) storage_area_sd_card
        sd_cfg)
