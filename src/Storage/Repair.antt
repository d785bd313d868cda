-- ===== src/Storage/Repair.antt =====
-- The set-up of src/modules/storage.cpp on storage that cannot be mounted before it is formatted.
use obc.Common.{
  ℕ, ◌≡◌, ◌≢◌, ◌⊎◌, inl, inr, refl, [], ◌∷◌, Bool, true, false, Option, none, some, arith,
}
use obc.Telem.Generic.Area.{storage_area_flash_memory, storage_area_sd_card}
use obc.Storage.Filesystem.{Littlefs, FilesystemState, new, configure, ensure_mounted, format}
use obc.Storage.Areas.{
  Filesystems, init, get_state, succeeds, cons_result, cons_null, format_one_at_boot,
  format_at_boot, mount_one_at_boot, mount_at_boot, should_mount_storage_area_at_boot,
}
use obc.Storage.Requests.{
  InitMode, SubsystemStatus, get_subsystem_status, is_storage_mounted, retry, setup,
  configure_storage,
}
use obc.Storage.Mounting.{ensure_mounted-result}

module _ {Disk : Type 0} where
  abbrev pub IsUp : FilesystemState Disk → Type 0
  IsUp s = (s.mounted ≡ true) × (s.errored ≡ false)

  abbrev pub IsReady : FilesystemState Disk → Type 0
  IsReady s = (s.mounted ≡ false) × (s.errored ≡ false) × (s.fs ≢ none)

  -- Both areas are mounted and the status is OK.
  abbrev pub AllUp : Filesystems Disk → Type 0
  AllUp fs =
      (is_storage_mounted fs storage_area_flash_memory ≡ true)
      × (is_storage_mounted fs storage_area_sd_card ≡ true)
      × (get_subsystem_status fs ≡ SubsystemStatus.status_ok)

  pub up-AllUp :
      (s s' : FilesystemState Disk) → IsUp s → IsUp s' → AllUp (none ∷ some s ∷ some s' ∷ [])
  unfolding is_storage_mounted get_subsystem_status
  up-AllUp s s' h h' = ground arith

module _ {Config Disk : Type 0} (lfs : Littlefs Config Disk)
    (creates : (cfg : Config) → lfs.create cfg ≢ none)
    (formats : (d : Disk) → (lfs.format d).0 ≡ none)
    (mounts : (d : Disk) → (lfs.mount (lfs.format d).1).0 ≡ none) where
  configured-IsReady : (area : ℕ) (cfg : Config) → IsReady (configure lfs cfg (new area)).1
  unfolding configure new
  configured-IsReady area cfg = ground (arith, creates cfg)

  ensure_mounted-tries :
      (s : FilesystemState Disk)
      → IsReady s
      → IsUp (ensure_mounted lfs s).1 ⊎ IsReady (ensure_mounted lfs s).1
  unfolding ensure_mounted
  ensure_mounted-tries s h = ground arith

  format-Ready :
      (d : Disk) (s : FilesystemState Disk)
      → IsReady s
      → s.fs ≡ some d
      → IsUp (ensure_mounted lfs (succeeds (format lfs s)).1).1
  unfolding ensure_mounted format
  format-Ready d s h e = ground (arith, formats d, mounts d)

  formatted-IsUp :
      (i : ℕ) (s : FilesystemState Disk)
      → should_mount_storage_area_at_boot i ≡ true
      → IsUp s ⊎ IsReady s
      → IsUp (mount_one_at_boot lfs i (format_one_at_boot lfs i s).1).1
  unfolding ensure_mounted
  formatted-IsUp i s b (inl h) = ground arith
  formatted-IsUp i s b (inr h) = present s.fs refl
    where
      present :
          (o : Option Disk)
          → s.fs ≡ o
          → IsUp (mount_one_at_boot lfs i (format_one_at_boot lfs i s).1).1
      present none e = absurd (h.2 e)
      present (some d) e = ground (arith, format-Ready d s h e)

  retry-AllUp :
      (r r' : Bool × FilesystemState Disk)
      → (r.1).mounted ≡ r.0
      → (r'.1).mounted ≡ r'.0
      → IsUp r.1 ⊎ IsReady r.1
      → IsUp r'.1 ⊎ IsReady r'.1
      → AllUp (
          retry lfs InitMode.init_mode_format_if_needed
            (cons_null (cons_result r (cons_result r' (true, [])))))
  unfolding mount_at_boot format_at_boot should_mount_storage_area_at_boot
  retry-AllUp (true, s) (true, s') m m' h h' = up-AllUp s s' (ground arith) (ground arith)
  retry-AllUp (false, s) (b, s') m m' h h' =
      up-AllUp _ _ (formatted-IsUp 1 s refl h) (formatted-IsUp 2 s' refl h')
  retry-AllUp (true, s) (false, s') m m' h h' =
      up-AllUp _ _ (formatted-IsUp 1 s refl h) (formatted-IsUp 2 s' refl h')

  -- With drivers that are configured, a library that creates a filesystem for each, formats any and
  -- mounts what it has formatted: after init and the set-up that formats if needed, both areas are
  -- mounted and the status is OK, whatever was on them.
  pub setup_recovers :
      (flash_cfg sd_cfg : Config)
      → let fs =
          setup lfs InitMode.init_mode_format_if_needed (some flash_cfg) (some sd_cfg) init in
        (is_storage_mounted fs storage_area_flash_memory ≡ true)
        × (is_storage_mounted fs storage_area_sd_card ≡ true)
        × (get_subsystem_status fs ≡ SubsystemStatus.status_ok)
  unfolding setup init configure_storage get_state mount_at_boot
  setup_recovers flash_cfg sd_cfg =
      let flash = (configure lfs flash_cfg (new storage_area_flash_memory)).1 in
      let card = (configure lfs sd_cfg (new storage_area_sd_card)).1 in
      retry-AllUp (ensure_mounted lfs flash) (ensure_mounted lfs card)
        (ensure_mounted-result lfs flash) (ensure_mounted-result lfs card)
        (ensure_mounted-tries flash (configured-IsReady storage_area_flash_memory flash_cfg))
        (ensure_mounted-tries card (configured-IsReady storage_area_sd_card sd_cfg))
