-- ===== src/Storage/Boot.antt =====
-- What the set-up of src/modules/storage.cpp does to the filesystems, and the status it leads to.
use obc.Common.{
  ℕ, suc, ◌+◌, ◌≡◌, not, ◌∙◌, ◌⊎◌, ◌&&◌, ◌||◌, inl, inr, refl, length, [], ◌∷◌, Bool, true, false,
  Option, none, some, arith, if◌then◌else◌,
}
use obc.Telem.Generic.Area.{storage_area_flash_memory, storage_area_sd_card}
use obc.Frames.Request.{num_storage_areas}
use obc.Storage.Filesystem.{Littlefs, FilesystemState, Errno, ensure_unmounted, mark_errored}
use obc.Storage.Areas.{Filesystems, get_state}
use obc.Storage.Requests.{
  SubsystemStatus, get_subsystem_status, is_storage_errored, is_storage_mounted, put_result,
  eio_unless, unmount_found, unmount_storage,
}
use obc.Storage.Validity.{IsSound, IsSoundFrom, IsValid, get_or-IsSound}
use obc.Storage.Mounting.{
  put_result_lem, mark_errored-flags, mark_errored_code, ensure_unmounted-result,
}

module _ {Disk : Type 0} where
  -- How an unmount may end: the area is unmounted, or it stays mounted and is marked, or there is
  -- none.
  abbrev pub UnmountEnds : Filesystems Disk → ℕ → Errno × Filesystems Disk → Type 0
  UnmountEnds fs area r =
      ((r.0 ≡ Errno.success) × (is_storage_mounted r.1 area ≡ false))
      ⊎ (((r.0 ≡ Errno.eio)
            × (is_storage_mounted r.1 area ≡ true)
            × (is_storage_errored r.1 area ≡ true))
          ⊎ ((r.0 ≡ Errno.einval) × (get_state fs area ≡ none) × (r.1 ≡ fs)))

  pub get_state-IsSound :
      (fs : Filesystems Disk) (area : ℕ) (s : FilesystemState Disk)
      → IsValid fs
      → get_state fs area ≡ some s
      → IsSound area s
  unfolding get_state
  get_state-IsSound fs area s h e = get_or-IsSound 0 area area fs s (omega arith) h (ground arith)

  pub IsSoundFrom-length :
      (i : ℕ) (fs : Filesystems Disk) → IsSoundFrom i fs → i + length fs ≡ num_storage_areas
  IsSoundFrom-length i [] h = omega (arith, h)
  IsSoundFrom-length i (none ∷ fs) h = omega (arith, IsSoundFrom-length (suc i) fs h.1)
  IsSoundFrom-length i (some s ∷ fs) h = omega (arith, IsSoundFrom-length (suc i) fs h.2)

  -- Valid filesystems are a null pointer and two filesystems.
  pub valid_cases {ℓ} :
      (P : Filesystems Disk → Type ℓ)
      → ((s s' : FilesystemState Disk) → P (none ∷ some s ∷ some s' ∷ []))
      → (fs : Filesystems Disk) → IsValid fs
      → P fs
  valid_cases P f [] h = absurd (omega (arith, IsSoundFrom-length 0 [] h))
  valid_cases P f (some s ∷ fs) h = absurd (h.0 refl)
  valid_cases P f (none ∷ []) h = absurd (omega (arith, h.1))
  valid_cases P f (none ∷ none ∷ fs) h = absurd (omega (arith, h.1.0))
  valid_cases P f (none ∷ some s ∷ []) h = absurd (omega (arith, h.1.2))
  valid_cases P f (none ∷ some s ∷ none ∷ fs) h = absurd (omega (arith, h.1.2.0))
  valid_cases P f (none ∷ some s ∷ some s' ∷ []) h = f s s'
  valid_cases P f (none ∷ some s ∷ some s' ∷ o ∷ fs) h =
      absurd (omega (arith, IsSoundFrom-length 0 (none ∷ some s ∷ some s' ∷ o ∷ fs) h))

  -- The status of the subsystem, from what is known of the two areas.
  abbrev pub expected_status : Filesystems Disk → SubsystemStatus
  expected_status fs =
      let flash = is_storage_mounted fs storage_area_flash_memory in
      let card = is_storage_mounted fs storage_area_sd_card in
      if is_storage_errored fs storage_area_flash_memory
        || is_storage_errored fs storage_area_sd_card
      then SubsystemStatus.status_error
      else (if flash && card
          then SubsystemStatus.status_ok
          else (if flash || card
              then SubsystemStatus.status_warning
              else SubsystemStatus.status_critical))

  -- The status of valid filesystems: an error if an area is marked as errored, else OK if both are
  -- mounted, a warning if one is, and critical if none is.
  pub get_subsystem_status_areas :
      (fs : Filesystems Disk) → IsValid fs → get_subsystem_status fs ≡ expected_status fs
  unfolding get_subsystem_status is_storage_mounted is_storage_errored
  get_subsystem_status_areas fs h =
      valid_cases (λ gs. get_subsystem_status gs ≡ expected_status gs) (λ s s'. ground arith) fs h

module _ {Config Disk : Type 0} (lfs : Littlefs Config Disk) where
  -- An unmount of valid filesystems answers success and leaves the area unmounted, or answers EIO
  -- and leaves it mounted and marked as errored, or answers EINVAL, when there is no such area, and
  -- changes nothing.
  pub unmount_storage-UnmountEnds :
      (fs : Filesystems Disk) (area : ℕ)
      → IsValid fs
      → UnmountEnds fs area (unmount_storage lfs fs area)
  unfolding unmount_storage
  unmount_storage-UnmountEnds fs area h = found (get_state fs area) refl
    where
      ended :
          (s : FilesystemState Disk) (r : Bool × FilesystemState Disk)
          → get_state fs area ≡ some s
          → not (r.1).mounted ≡ r.0
          → UnmountEnds fs area (put_result fs area (eio_unless r))
      ended s (true, s') f m =
          inl (refl, ground (arith, (put_result_lem fs area s (Errno.success, s') f).1))
      ended s (false, s') f m =
          let flags = mark_errored-flags s' Errno.eio in
          let put = put_result_lem fs area s (mark_errored s' Errno.eio) f in
          inr (
            inl (
              put.0 ∙ mark_errored_code s' Errno.eio,
              ground (arith, put.1, flags.1),
              put.2 ∙ flags.0,
            ))

      found :
          (o : Option (FilesystemState Disk))
          → get_state fs area ≡ o
          → UnmountEnds fs area (unmount_found lfs fs area o)
      found none f = inr (inr (refl, f, refl))
      found (some s) f =
          ended s (ensure_unmounted lfs s) f
            (ensure_unmounted-result lfs s (get_state-IsSound fs area s h f))
