-- ===== src/Storage/Reached.antt =====
-- The calls of src/modules/storage.cpp, but for its end, keep the filesystems valid.
use obc.Common.{ℕ, Bool, true, false, Option, none, some, ◌≡◌, refl, if◌then◌else◌, arith}
use obc.Telem.Generic.Area.{storage_area_flash_memory, storage_area_sd_card}
use obc.Storage.Filesystem.{
  Errno, Littlefs, FilesystemState, configure, ensure_mounted, ensure_unmounted, format,
  clear_errors,
}
use obc.Storage.Areas.{
  Filesystems, get_state, get_mounted_state, put_mounted, mount_state, format_all, format_at_boot,
  mount_at_boot,
}
use obc.Storage.Requests.{
  InitMode, mark_storage_as_errored, put_configured, configure_found, configure_storage, eio_unless,
  check_format, erase_found, erase_storage, mount_found, mount_storage, unmount_found,
  unmount_storage, configure_if, retry, mount_formatted, mount_for, setup,
}
use obc.Storage.Validity.{
  IsSound, IsValid, put_state-IsValid, clear_errors-IsSound, configure-IsSound,
  ensure_mounted-IsSound, ensure_unmounted-IsSound, format-IsSound,
}
use obc.Storage.Invariant.{
  eio_unless-IsSound, check_format-IsSound, put_result-IsValid, mark_found-IsValid,
  format_all-IsSoundFrom, format_at_boot-IsSoundFrom, mount_at_boot-IsSoundFrom,
}

pub mark_storage_as_errored-IsValid :
    {Disk : Type 0} (fs : Filesystems Disk) (area : ℕ) (e : Errno)
    → IsValid fs
    → IsValid (mark_storage_as_errored fs area e)
unfolding mark_storage_as_errored
mark_storage_as_errored-IsValid fs area e h =
    mark_found-IsValid fs area e (get_state fs area) h refl

module _ {Config Disk : Type 0} (lfs : Littlefs Config Disk) where
  pub configure_storage-IsValid :
      (fs : Filesystems Disk) (area : ℕ) (cfg : Config)
      → IsValid fs
      → IsValid (configure_storage lfs fs area cfg).1
  unfolding configure_storage
  configure_storage-IsValid fs area cfg h = found (get_state fs area) refl
    where
      put_configured-IsValid :
          (s : FilesystemState Disk) (r : Bool × FilesystemState Disk)
          → get_state fs area ≡ some s
          → (IsSound area s → IsSound area r.1)
          → IsValid (put_configured fs area r).1
      put_configured-IsValid s (b, s') f g = put_state-IsValid fs area s s' h f g

      found :
          (o : Option (FilesystemState Disk))
          → get_state fs area ≡ o
          → IsValid (configure_found lfs fs area cfg o).1
      found none f = h
      found (some s) f = ground (
        arith,
        h,
        put_configured-IsValid s (configure lfs cfg s) f (configure-IsSound lfs area s cfg),
      )

  pub erase_storage-IsValid :
      (fs : Filesystems Disk) (area : ℕ) → IsValid fs → IsValid (erase_storage lfs fs area).1
  unfolding erase_storage
  erase_storage-IsValid fs area h = found (get_state fs area) refl
    where
      found :
          (o : Option (FilesystemState Disk))
          → get_state fs area ≡ o
          → IsValid (erase_found lfs fs area o).1
      found none f = h
      found (some s) f = ground (
        arith,
        h,
        put_result-IsValid fs area s (check_format (format lfs s)) h f
            (λ g. check_format-IsSound area (format lfs s) (format-IsSound lfs area s g)),
      )

  pub mount_storage-IsValid :
      (fs : Filesystems Disk) (area : ℕ) (force : Bool)
      → IsValid fs
      → IsValid (mount_storage lfs fs area force).1
  unfolding mount_storage
  mount_storage-IsValid fs area force h = found (get_state fs area) refl
    where
      cleared-IsSound :
          (s : FilesystemState Disk)
          → IsSound area s
          → IsSound area (if force then clear_errors s else s)
      cleared-IsSound s g = ground (arith, g, clear_errors-IsSound area s g)

      found :
          (o : Option (FilesystemState Disk))
          → get_state fs area ≡ o
          → IsValid (mount_found lfs fs area force o).1
      found none f = h
      found (some s) f =
          let s' = if force then clear_errors s else s in
          put_result-IsValid fs area s (eio_unless (ensure_mounted lfs s')) h f (λ g.
            eio_unless-IsSound area (ensure_mounted lfs s')
              (ensure_mounted-IsSound lfs area s' (cleared-IsSound s g)))

  pub unmount_storage-IsValid :
      (fs : Filesystems Disk) (area : ℕ) → IsValid fs → IsValid (unmount_storage lfs fs area).1
  unfolding unmount_storage
  unmount_storage-IsValid fs area h = found (get_state fs area) refl
    where
      found :
          (o : Option (FilesystemState Disk))
          → get_state fs area ≡ o
          → IsValid (unmount_found lfs fs area o).1
      found none f = h
      found (some s) f =
          put_result-IsValid fs area s (eio_unless (ensure_unmounted lfs s)) h f (λ g.
            eio_unless-IsSound area (ensure_unmounted lfs s)
              (ensure_unmounted-IsSound lfs area s g))

  pub get_mounted_state-IsValid :
      (fs : Filesystems Disk) (area : ℕ) → IsValid fs → IsValid (get_mounted_state lfs fs area).1
  unfolding get_mounted_state
  get_mounted_state-IsValid fs area h = found (get_state fs area) refl
    where
      put_mounted-IsValid :
          (s : FilesystemState Disk) (r : Bool × FilesystemState Disk)
          → get_state fs area ≡ some s
          → (IsSound area s → IsSound area r.1)
          → IsValid (put_mounted fs area r).1
      put_mounted-IsValid s (true, s') f g = put_state-IsValid fs area s s' h f g
      put_mounted-IsValid s (false, s') f g = put_state-IsValid fs area s s' h f g

      found :
          (o : Option (FilesystemState Disk))
          → get_state fs area ≡ o
          → IsValid (mount_state lfs fs area o).1
      found none f = h
      found (some s) f =
          put_mounted-IsValid s (ensure_mounted lfs s) f (ensure_mounted-IsSound lfs area s)

  pub setup-IsValid :
      (mode : InitMode) (flash_cfg sd_cfg : Option Config) (fs : Filesystems Disk)
      → IsValid fs
      → IsValid (setup lfs mode flash_cfg sd_cfg fs)
  unfolding setup mount_at_boot format_at_boot
  setup-IsValid mode flash_cfg sd_cfg fs h =
      mount_for-IsValid mode
        (configure_if lfs (configure_if lfs fs storage_area_flash_memory flash_cfg)
          storage_area_sd_card sd_cfg)
        (configure_if-IsValid (configure_if lfs fs storage_area_flash_memory flash_cfg)
          storage_area_sd_card sd_cfg
          (configure_if-IsValid fs storage_area_flash_memory flash_cfg h))
    where
      configure_if-IsValid :
          (fs : Filesystems Disk) (area : ℕ) (o : Option Config)
          → IsValid fs
          → IsValid (configure_if lfs fs area o)
      configure_if-IsValid fs area none h = h
      configure_if-IsValid fs area (some cfg) h = configure_storage-IsValid fs area cfg h

      mount_at_boot-IsValid :
          (fs : Filesystems Disk) → IsValid fs → IsValid (mount_at_boot lfs fs).1
      mount_at_boot-IsValid fs h = mount_at_boot-IsSoundFrom lfs 0 fs h

      retry-IsValid :
          (mode : InitMode) (r : Bool × Filesystems Disk) → IsValid r.1 → IsValid (retry lfs mode r)
      retry-IsValid InitMode.init_mode_normal (b, fs) h = h
      retry-IsValid InitMode.init_mode_format (b, fs) h = h
      retry-IsValid InitMode.init_mode_format_if_needed (true, fs) h = h
      retry-IsValid InitMode.init_mode_format_if_needed (false, fs) h =
          mount_at_boot-IsValid (format_at_boot lfs fs).1 (format_at_boot-IsSoundFrom lfs 0 fs h)

      mount_formatted-IsValid :
          (r : Bool × Filesystems Disk) → IsValid r.1 → IsValid (mount_formatted lfs r)
      mount_formatted-IsValid (false, fs) h = h
      mount_formatted-IsValid (true, fs) h =
          retry-IsValid InitMode.init_mode_format (mount_at_boot lfs fs)
            (mount_at_boot-IsValid fs h)

      mount_for-IsValid :
          (mode : InitMode) (fs : Filesystems Disk) → IsValid fs → IsValid (mount_for lfs mode fs)
      mount_for-IsValid InitMode.init_mode_format fs h =
          mount_formatted-IsValid (format_all lfs fs) (format_all-IsSoundFrom lfs 0 fs h)
      mount_for-IsValid InitMode.init_mode_normal fs h =
          retry-IsValid InitMode.init_mode_normal (mount_at_boot lfs fs)
            (mount_at_boot-IsValid fs h)
      mount_for-IsValid InitMode.init_mode_format_if_needed fs h =
          retry-IsValid InitMode.init_mode_format_if_needed (mount_at_boot lfs fs)
            (mount_at_boot-IsValid fs h)
