-- ===== src/Storage/Tests.antt =====
-- Storage areas and their set-up with small concrete drivers.
use obc.Common.{ℕ, ◌≡◌, refl, [], ◌∷◌, Bool, true, false, if◌then◌else◌, none, some, arith}
use obc.Telem.Generic.Area.{storage_area_flash_memory, storage_area_sd_card}
use obc.Storage.Filesystem.{LfsError, Littlefs, FilesystemState}
use obc.Storage.Areas.{Filesystems, init, get_state, mount_at_boot}
use obc.Storage.Requests.{
  InitMode, SubsystemStatus, get_subsystem_status, is_storage_mounted, setup,
}
use obc.Storage.Steps.{Call, perform}
use obc.Storage.Validity.{IsValid}
use obc.Storage.Boot.{expected_status, get_subsystem_status_areas}
use obc.Storage.Setup.{setup_keeps_mounted}
use obc.Storage.Repair.{setup_recovers}

-- A library whose filesystems, once formatted, can be mounted: an object is whether it is formatted.
abbrev lfs : Littlefs ℕ Bool
lfs = record {
  create = λ cfg. some false;
  mount = λ d. (if d then none else some LfsError.io, d);
  unmount = λ d. (none, d);
  format = λ d. (none, true);
}

abbrev pub mounted_at : ℕ → FilesystemState Bool
mounted_at area = record {
  area = area;
  fs = some true;
  configured = true;
  mounted = true;
  errored = false;
  evt_mounted = true;
  evt_unmounted = false;
}

abbrev pub up : Filesystems Bool
up = none ∷ some (mounted_at 1) ∷ some (mounted_at 2) ∷ []

abbrev failed_card : FilesystemState Bool
failed_card = record (mounted_at 2) { fs = some false; mounted = false; errored = true }

abbrev half_up : Filesystems Bool
half_up = none ∷ some (mounted_at 1) ∷ some failed_card ∷ []

pub up-flash : get_state up 1 ≡ some (mounted_at 1)
unfolding get_state
up-flash = refl

pub up-card : get_state up 2 ≡ some (mounted_at 2)
unfolding get_state
up-card = refl

up-IsValid : IsValid up
up-IsValid = ground arith

half_up-IsValid : IsValid half_up
half_up-IsValid = ground arith

-- Shut down, started again and mounted.
abbrev history : Filesystems Bool → Filesystems Bool
history fs =
    perform lfs
      (perform lfs (perform lfs (perform lfs fs Call.shut_down) Call.start_again)
        (Call.configure 1 0))
      (Call.mount 1 true)

get_subsystem_status_areas_example : get_subsystem_status half_up ≡ expected_status half_up
get_subsystem_status_areas_example = get_subsystem_status_areas half_up half_up-IsValid

-- The flash memory mounts at once, the card does not.
abbrev first_boot : Filesystems Bool
first_boot =
    none
    ∷ some (record (mounted_at 1) { mounted = false })
    ∷ some (record failed_card { errored = false })
    ∷ []

flash_mounts : get_state (mount_at_boot lfs first_boot).1 1 ≡ some (mounted_at 1)
unfolding get_state mount_at_boot
flash_mounts = refl

setup_keeps_mounted_example :
    get_state (setup lfs InitMode.init_mode_format_if_needed none none first_boot) 1
    ≡ some (mounted_at 1)
setup_keeps_mounted_example =
    setup_keeps_mounted lfs none none first_boot 1 (mounted_at 1) flash_mounts refl

setup_recovers_example :
    let fs = setup lfs InitMode.init_mode_format_if_needed (some 0) (some 0) init in
    (is_storage_mounted fs storage_area_flash_memory ≡ true)
    × (is_storage_mounted fs storage_area_sd_card ≡ true)
    × (get_subsystem_status fs ≡ SubsystemStatus.status_ok)
setup_recovers_example = setup_recovers lfs (λ cfg. ground arith) (λ d. refl) (λ d. refl) 0 0
