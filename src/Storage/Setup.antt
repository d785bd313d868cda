-- ===== src/Storage/Setup.antt =====
-- The set-up of src/modules/storage.cpp: what it mounts and what it formats.
use obc.Common.{ℕ, zero, suc, ◌≡◌, get_or, [], ◌∷◌, Bool, true, false, Option, none, some, arith}
use obc.Telem.Generic.Area.{storage_area_flash_memory, storage_area_sd_card}
use obc.Storage.Filesystem.{Littlefs, FilesystemState, ensure_mounted}
use obc.Storage.Areas.{
  Filesystems, get_state, format_at_boot_from, format_at_boot, mount_at_boot_from, mount_at_boot,
}
use obc.Storage.Requests.{InitMode, retry, setup, configure_if}

module _ {Config Disk : Type 0} (lfs : Littlefs Config Disk) where
  -- A filesystem that is mounted is passed over when others are formatted at boot.
  pub format_at_boot-mounted :
      (i j : ℕ) (fs : Filesystems Disk) (s : FilesystemState Disk)
      → get_or fs j none ≡ some s
      → s.mounted ≡ true
      → get_or (format_at_boot_from lfs i fs).1 j none ≡ some s
  format_at_boot-mounted i j [] s e m = absurd (cc)
  format_at_boot-mounted i zero (none ∷ fs) s e m = absurd (cc)
  format_at_boot-mounted i zero (some s' ∷ fs) s e m = ground arith
  format_at_boot-mounted i (suc j) (none ∷ fs) s e m =
      ground (arith, format_at_boot-mounted (suc i) j fs s e m)
  format_at_boot-mounted i (suc j) (some s' ∷ fs) s e m =
      ground (arith, format_at_boot-mounted (suc i) j fs s e m)

  -- A filesystem that is mounted is left as it is when others are mounted.
  pub mount_at_boot-mounted :
      (i j : ℕ) (fs : Filesystems Disk) (s : FilesystemState Disk)
      → get_or fs j none ≡ some s
      → s.mounted ≡ true
      → get_or (mount_at_boot_from lfs i fs).1 j none ≡ some s
  unfolding ensure_mounted
  mount_at_boot-mounted i j [] s e m = absurd (cc)
  mount_at_boot-mounted i zero (none ∷ fs) s e m = absurd (cc)
  mount_at_boot-mounted i zero (some s' ∷ fs) s e m = ground arith
  mount_at_boot-mounted i (suc j) (none ∷ fs) s e m =
      ground (arith, mount_at_boot-mounted (suc i) j fs s e m)
  mount_at_boot-mounted i (suc j) (some s' ∷ fs) s e m =
      ground (arith, mount_at_boot-mounted (suc i) j fs s e m)

  -- The filesystems that the set-up mounts, before it does.
  abbrev pub configured_with : Option Config → Option Config → Filesystems Disk → Filesystems Disk
  configured_with flash_cfg sd_cfg fs =
      configure_if lfs (configure_if lfs fs storage_area_flash_memory flash_cfg)
        storage_area_sd_card sd_cfg

  -- Where the first attempt of the set-up to mount an area succeeds, the set-up that formats if
  -- needed leaves the area as that attempt did: it is not formatted.
  pub setup_keeps_mounted :
      (flash_cfg sd_cfg : Option Config) (fs : Filesystems Disk) (area : ℕ)
      (s : FilesystemState Disk)
      → get_state (mount_at_boot lfs (configured_with flash_cfg sd_cfg fs)).1 area ≡ some s
      → s.mounted ≡ true
      → get_state (setup lfs InitMode.init_mode_format_if_needed flash_cfg sd_cfg fs) area ≡ some s
  unfolding setup get_state mount_at_boot format_at_boot
  setup_keeps_mounted flash_cfg sd_cfg fs area s e m =
      kept (mount_at_boot lfs (configured_with flash_cfg sd_cfg fs)) e
    where
      kept :
          (r : Bool × Filesystems Disk)
          → get_state r.1 area ≡ some s
          → get_state (retry lfs InitMode.init_mode_format_if_needed r) area ≡ some s
      kept (true, fs') e = e
      kept (false, fs') e =
          let found : get_or fs' area none ≡ some s = ground arith in
          let formatted = format_at_boot-mounted 0 area fs' s found m in
          ground
            (arith, mount_at_boot-mounted 0 area (format_at_boot_from lfs 0 fs').1 s formatted m)
