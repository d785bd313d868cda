-- ===== src/Storage/Areas.antt =====
-- src/modules/storage.cpp: `Filesystems`, with an entry for each storage area, and its loops.
use obc.Common.{
  ℕ, suc, ◌==◌, not, ◌&&◌, ◌||◌, if◌then◌else◌, ltb, get_or, set, map, List, [], ◌∷◌, Bool, true,
  false, Option, none, some,
}
use obc.Telem.Generic.Area.{storage_area_unknown, storage_area_flash_memory, storage_area_sd_card}
use obc.Frames.Request.{num_storage_areas}
use obc.Storage.Filesystem.{
  LfsError, Littlefs, FilesystemState, new, clear_errors, ensure_mounted, ensure_unmounted, format,
}

unfoldable pub is_storage_area_mandatory : ℕ → Bool
is_storage_area_mandatory area = area == storage_area_flash_memory || area == storage_area_sd_card

unfoldable pub should_mount_storage_area_at_boot : ℕ → Bool
should_mount_storage_area_at_boot area =
    area == storage_area_flash_memory || area == storage_area_sd_card

-- `Filesystems`: `none` is a null pointer.
abbrev pub Filesystems : Type 0 → Type 0
Filesystems Disk = List (Option (FilesystemState Disk))

module _ {Disk : Type 0} where
  -- The body of the loop of `init`.
  abbrev pub initial : ℕ → Option (FilesystemState Disk)
  initial area = if area == storage_area_unknown then none else some (new area)

  unfoldable pub init : Filesystems Disk
  unfolding new
  init = map initial (storage_area_unknown ∷ storage_area_flash_memory ∷ storage_area_sd_card ∷ [])

  unfoldable pub destroy : Filesystems Disk → Filesystems Disk
  destroy fs = map (λ s. none) fs

  abbrev pub all_mounted_from : ℕ → Filesystems Disk → Bool
  all_mounted_from i [] = true
  all_mounted_from i (some s ∷ fs) =
      if not s.mounted || s.errored then false else all_mounted_from (suc i) fs
  all_mounted_from i (none ∷ fs) =
      if is_storage_area_mandatory i then false else all_mounted_from (suc i) fs

  unfoldable pub all_mounted : Filesystems Disk → Bool
  unfolding is_storage_area_mandatory
  all_mounted fs = all_mounted_from 0 fs

  unfoldable pub any_errored : Filesystems Disk → Bool
  any_errored [] = false
  any_errored (some s ∷ fs) = if s.errored then true else any_errored fs
  any_errored (none ∷ fs) = any_errored fs

  unfoldable pub any_mounted : Filesystems Disk → Bool
  any_mounted [] = false
  any_mounted (some s ∷ fs) = if s.mounted && not s.errored then true else any_mounted fs
  any_mounted (none ∷ fs) = any_mounted fs

  unfoldable pub clear_all_errors : Filesystems Disk → Filesystems Disk
  unfolding clear_errors
  clear_all_errors [] = []
  clear_all_errors (some s ∷ fs) = some (clear_errors s) ∷ clear_all_errors fs
  clear_all_errors (none ∷ fs) = none ∷ clear_all_errors fs

  -- `getState` without mounting.
  unfoldable pub get_state : Filesystems Disk → ℕ → Option (FilesystemState Disk)
  get_state fs area = if ltb area num_storage_areas then get_or fs area none else none

  -- An entry is changed through its pointer.
  abbrev pub put_state : Filesystems Disk → ℕ → FilesystemState Disk → Filesystems Disk
  put_state fs area s = set fs area (some s)

  abbrev pub put_mounted :
      Filesystems Disk
      → ℕ
      → Bool × FilesystemState Disk
      → Option (FilesystemState Disk) × Filesystems Disk
  put_mounted fs area (true, s) = (some s, put_state fs area s)
  put_mounted fs area (false, s) = (none, put_state fs area s)

  abbrev pub succeeds : Option LfsError × FilesystemState Disk → Bool × FilesystemState Disk
  succeeds (none, s) = (true, s)
  succeeds (some e, s) = (false, s)

  -- What a loop over the filesystems answers: whether all went well, and the filesystems.
  abbrev pub cons_result :
      Bool × FilesystemState Disk → Bool × Filesystems Disk → Bool × Filesystems Disk
  cons_result (ok, s) (success, fs) = (ok && success, some s ∷ fs)

  abbrev pub cons_null : Bool × Filesystems Disk → Bool × Filesystems Disk
  cons_null (success, fs) = (success, none ∷ fs)

module _ {Config Disk : Type 0} (lfs : Littlefs Config Disk) where
  abbrev pub mount_state :
      Filesystems Disk
      → ℕ
      → Option (FilesystemState Disk)
      → Option (FilesystemState Disk) × Filesystems Disk
  mount_state fs area none = (none, fs)
  mount_state fs area (some s) = put_mounted fs area (ensure_mounted lfs s)

  -- `getState` with `ensureMounted`.
  unfoldable pub get_mounted_state :
      Filesystems Disk → ℕ → Option (FilesystemState Disk) × Filesystems Disk
  unfolding get_state ensure_mounted
  get_mounted_state fs area = mount_state fs area (get_state fs area)

  -- `ensureUnmounted` failed: the filesystem is not formatted.
  abbrev pub format_unmounted : Bool × FilesystemState Disk → Bool × FilesystemState Disk
  format_unmounted (false, s) = (false, s)
  format_unmounted (true, s) = succeeds (format lfs s)

  unfoldable pub format_all : Filesystems Disk → Bool × Filesystems Disk
  unfolding ensure_unmounted format
  format_all [] = (true, [])
  format_all (none ∷ fs) = cons_null (format_all fs)
  format_all (some s ∷ fs) = cons_result (format_unmounted (ensure_unmounted lfs s)) (format_all fs)

  -- A filesystem without an object is passed over.
  abbrev pub format_if_present : FilesystemState Disk → Option Disk → Bool × FilesystemState Disk
  format_if_present s none = (true, s)
  format_if_present s (some d) = succeeds (format lfs s)

  abbrev pub format_one_at_boot : ℕ → FilesystemState Disk → Bool × FilesystemState Disk
  format_one_at_boot i s =
      if not s.mounted && should_mount_storage_area_at_boot i
      then format_if_present s s.fs
      else (true, s)

  abbrev pub format_at_boot_from : ℕ → Filesystems Disk → Bool × Filesystems Disk
  format_at_boot_from i [] = (true, [])
  format_at_boot_from i (none ∷ fs) = cons_null (format_at_boot_from (suc i) fs)
  format_at_boot_from i (some s ∷ fs) =
      cons_result (format_one_at_boot i s) (format_at_boot_from (suc i) fs)

  unfoldable pub format_at_boot : Filesystems Disk → Bool × Filesystems Disk
  unfolding format should_mount_storage_area_at_boot
  format_at_boot fs = format_at_boot_from 0 fs

  abbrev pub mount_one_at_boot : ℕ → FilesystemState Disk → Bool × FilesystemState Disk
  mount_one_at_boot i s =
      if should_mount_storage_area_at_boot i then ensure_mounted lfs s else (true, s)

  abbrev pub mount_at_boot_from : ℕ → Filesystems Disk → Bool × Filesystems Disk
  mount_at_boot_from i [] = (true, [])
  mount_at_boot_from i (none ∷ fs) = cons_null (mount_at_boot_from (suc i) fs)
  mount_at_boot_from i (some s ∷ fs) =
      cons_result (mount_one_at_boot i s) (mount_at_boot_from (suc i) fs)

  unfoldable pub mount_at_boot : Filesystems Disk → Bool × Filesystems Disk
  unfolding ensure_mounted should_mount_storage_area_at_boot
  mount_at_boot fs = mount_at_boot_from 0 fs
