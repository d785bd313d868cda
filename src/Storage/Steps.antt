-- ===== src/Storage/Steps.antt =====
-- The histories of the filesystems of src/modules/storage.cpp: the set-up, the calls of the module and
-- its end, in any order.
use obc.Common.{ℕ, Bool, Option}
use obc.Storage.Filesystem.{Errno, Littlefs}
use obc.Storage.Areas.{Filesystems, init, destroy, get_mounted_state, clear_all_errors}
use obc.Storage.Requests.{
  InitMode, mark_storage_as_errored, configure_storage, erase_storage, mount_storage,
  unmount_storage, setup,
}

-- The calls of the module that change the state of a filesystem; `shut_down` is `destroy`, and
-- `start_again` is `init`.
pub data Call (Config : Type 0) : Type 0 where
  configure : ℕ → Config → Call Config
  erase unmount ensure_mounted : ℕ → Call Config
  mount : ℕ → Bool → Call Config
  mark : ℕ → Errno → Call Config
  clear_errors shut_down start_again : Call Config
  setup_again : InitMode → Option Config → Option Config → Call Config

abbrev pub perform :
    {Config Disk : Type 0}
    → Littlefs Config Disk
    → Filesystems Disk
    → Call Config
    → Filesystems Disk
perform lfs fs (Call.configure area cfg) = (configure_storage lfs fs area cfg).1
perform lfs fs (Call.erase area) = (erase_storage lfs fs area).1
perform lfs fs (Call.unmount area) = (unmount_storage lfs fs area).1
perform lfs fs (Call.ensure_mounted area) = (get_mounted_state lfs fs area).1
perform lfs fs (Call.mount area force) = (mount_storage lfs fs area force).1
perform lfs fs (Call.mark area e) = mark_storage_as_errored fs area e
perform lfs fs Call.clear_errors = clear_all_errors fs
perform lfs fs Call.shut_down = destroy fs
perform lfs fs Call.start_again = init
perform lfs fs (Call.setup_again mode flash_cfg sd_cfg) = setup lfs mode flash_cfg sd_cfg fs

-- The states that calls lead to, from the one after `init`.
pub data Reachable {Config Disk : Type 0} (lfs : Littlefs Config Disk)
    : Filesystems Disk → Type 0 where
  started : Reachable lfs init
  called :
      {fs : Filesystems Disk}
      → Reachable lfs fs
      → (call : Call Config) → Reachable lfs (perform lfs fs call)
