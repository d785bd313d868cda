-- ===== src/Storage/Filesystem.antt =====
-- src/modules/storage.cpp: `FilesystemState`. The littlefs library is a parameter: a filesystem
-- object is a value of the type `Disk`, which every call gives back as the call leaves it.
use obc.Common.{ℕ, ◌==◌, not, if◌then◌else◌, Bool, true, false, Option, none, some}
use obc.Telem.Generic.Area.{storage_area_flash_memory, storage_area_sd_card}

-- `littlefs::Error`, by the names that `convertLittleFSErrorCode` has; the rest is `other`.
pub data LfsError : Type 0 where
  badf exist fbig inval io isdir nametoolong no_dd_entry no_fd_entry noent nomem nospc notdir
        notempty other :
      LfsError

-- The POSIX error codes that the module returns, by name; `success` is 0.
pub data Errno : Type 0 where
  success : Errno
  ebadf eexist efbig einval eio eisdir enametoolong enoent enomem enospc enotdir enotempty ebusy :
      Errno

unfoldable pub convert_littlefs_error_code : Option LfsError → Errno
convert_littlefs_error_code none = Errno.success
convert_littlefs_error_code (some LfsError.badf) = Errno.ebadf
convert_littlefs_error_code (some LfsError.exist) = Errno.eexist
convert_littlefs_error_code (some LfsError.fbig) = Errno.efbig
convert_littlefs_error_code (some LfsError.inval) = Errno.einval
convert_littlefs_error_code (some LfsError.io) = Errno.eio
convert_littlefs_error_code (some LfsError.isdir) = Errno.eisdir
convert_littlefs_error_code (some LfsError.nametoolong) = Errno.enametoolong
convert_littlefs_error_code (some LfsError.no_dd_entry) = Errno.enoent
convert_littlefs_error_code (some LfsError.no_fd_entry) = Errno.enoent
convert_littlefs_error_code (some LfsError.noent) = Errno.enoent
convert_littlefs_error_code (some LfsError.nomem) = Errno.enomem
convert_littlefs_error_code (some LfsError.nospc) = Errno.enospc
convert_littlefs_error_code (some LfsError.notdir) = Errno.enotdir
convert_littlefs_error_code (some LfsError.notempty) = Errno.enotempty
convert_littlefs_error_code (some LfsError.other) = Errno.eio

-- What the module calls on a `littlefs::Filesystem`; `create` is `new` with a configuration.
pub record Littlefs (Config Disk : Type 0) : Type 0 where
  pub create : Config → Option Disk
  pub mount : Disk → Option LfsError × Disk
  pub unmount : Disk → Option LfsError × Disk
  pub format : Disk → Option LfsError × Disk

-- `StorageOperation`.
pub data StorageOperation : Type 0 where
  op_unconfigured op_unmounted op_unknown op_idle op_read op_write op_erase op_sync op_error :
      StorageOperation

-- What the drivers of the flash memory and of the card say of themselves.
pub record Drivers : Type 0 where
  pub flash_operation : StorageOperation
  pub sd_card_operation : StorageOperation
  pub flash_size : ℕ
  pub sd_card_size : ℕ

-- `FilesystemState`: the bits of `_flags` and of `_events` one by one.
pub record FilesystemState (Disk : Type 0) : Type 0 where
  pub area : ℕ
  pub fs : Option Disk
  pub configured : Bool
  pub mounted : Bool
  pub errored : Bool
  pub evt_mounted : Bool
  pub evt_unmounted : Bool

module _ {Disk : Type 0} where
  unfoldable pub new : ℕ → FilesystemState Disk
  new area = record {
    area = area;
    fs = none;
    configured = false;
    mounted = false;
    errored = false;
    evt_mounted = false;
    evt_unmounted = false;
  }

  abbrev pub keep_created : Option Disk → FilesystemState Disk → Bool × FilesystemState Disk
  keep_created none s = (false, record s { fs = none })
  keep_created (some d) s = (true, record s { fs = some d; configured = true })

  abbrev pub after_mount :
      Option LfsError × Disk → FilesystemState Disk → Bool × FilesystemState Disk
  after_mount (none, d) s = (true, record s { fs = some d; mounted = true; evt_mounted = true })
  after_mount (some e, d) s = (false, record s { fs = some d })

  abbrev pub after_unmount :
      Option LfsError × Disk → FilesystemState Disk → Bool × FilesystemState Disk
  after_unmount (none, d) s =
      (true, record s { fs = some d; mounted = false; evt_unmounted = true })
  after_unmount (some e, d) s = (false, record s { fs = some d })

  abbrev pub after_format :
      Option LfsError × Disk → FilesystemState Disk → Option LfsError × FilesystemState Disk
  after_format (e, d) s = (e, record s { fs = some d })

  unfoldable pub mark_errored : FilesystemState Disk → Errno → Errno × FilesystemState Disk
  mark_errored s e = (e, if s.errored then s else record s { errored = true })

  unfoldable pub clear_errors : FilesystemState Disk → FilesystemState Disk
  clear_errors s = record s { errored = false }

  unfoldable pub get_current_storage_operation : Drivers → FilesystemState Disk → StorageOperation
  get_current_storage_operation drivers s =
      if not s.configured
      then StorageOperation.op_unconfigured
      else (if not s.mounted
          then StorageOperation.op_unmounted
          else (if s.errored
              then StorageOperation.op_error
              else (if s.area == storage_area_flash_memory
                  then drivers.flash_operation
                  else (if s.area == storage_area_sd_card
                      then drivers.sd_card_operation
                      else StorageOperation.op_unknown))))

  unfoldable pub get_size : Drivers → FilesystemState Disk → ℕ
  get_size drivers s =
      if s.area == storage_area_flash_memory
      then drivers.flash_size
      else (if s.area == storage_area_sd_card then drivers.sd_card_size else 0)

module _ {Config Disk : Type 0} (lfs : Littlefs Config Disk) where
  unfoldable pub configure : Config → FilesystemState Disk → Bool × FilesystemState Disk
  configure cfg s = if s.configured then (false, s) else keep_created (lfs.create cfg) s

  abbrev pub mount_unmounted : Option Disk → FilesystemState Disk → Bool × FilesystemState Disk
  mount_unmounted none s = (false, s)
  mount_unmounted (some d) s = if s.errored then (false, s) else after_mount (lfs.mount d) s

  unfoldable pub ensure_mounted : FilesystemState Disk → Bool × FilesystemState Disk
  ensure_mounted s = if s.mounted then (true, s) else mount_unmounted s.fs s

  abbrev pub unmount_mounted : Option Disk → FilesystemState Disk → Bool × FilesystemState Disk
  unmount_mounted none s = (true, s)
  unmount_mounted (some d) s = after_unmount (lfs.unmount d) s

  unfoldable pub ensure_unmounted : FilesystemState Disk → Bool × FilesystemState Disk
  ensure_unmounted s = if s.mounted then unmount_mounted s.fs s else (true, s)

  abbrev pub format_present :
      Option Disk → FilesystemState Disk → Option LfsError × FilesystemState Disk
  format_present none s = (some LfsError.inval, s)
  format_present (some d) s = after_format (lfs.format d) s

  unfoldable pub format : FilesystemState Disk → Option LfsError × FilesystemState Disk
  format s = format_present s.fs s
