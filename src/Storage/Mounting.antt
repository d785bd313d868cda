-- ===== src/Storage/Mounting.antt =====
-- Mounting, unmounting and erasing a storage area of src/modules/storage.cpp.
use obc.Common.{
  ℕ, zero, suc, ◌<◌, ◌≡◌, ◌≢◌, ap, not, ◌∙◌, ◌⊎◌, inl, inr, refl, sym, get_or, set, get_or-set_self,
  length, [], ◌∷◌, Bool, true, false, Option, none, some, arith, if◌then◌else◌,
}
use obc.Storage.Filesystem.{
  Littlefs, FilesystemState, Errno, LfsError, ensure_mounted, ensure_unmounted, format,
  mark_errored, clear_errors, convert_littlefs_error_code,
}
use obc.Storage.Validity.{IsSound}
use obc.Storage.Areas.{Filesystems, get_state, put_state}
use obc.Storage.Requests.{
  is_storage_errored, is_storage_mounted, holds, put_result, eio_unless, check_format, erase_found,
  erase_storage, mount_found, mount_storage,
}

module _ {Disk : Type 0} where
  pub get_or-bound :
      (fs : Filesystems Disk) (j : ℕ) (s : FilesystemState Disk)
      → get_or fs j none ≡ some s
      → j < length fs
  get_or-bound [] j s e = absurd (cc)
  get_or-bound (x ∷ fs) zero s e = omega arith
  get_or-bound (x ∷ fs) (suc j) s e = omega (arith, get_or-bound fs j s e)

  -- A filesystem that is put back is found.
  pub get_state-put :
      (fs : Filesystems Disk) (area : ℕ) (s s' : FilesystemState Disk)
      → get_state fs area ≡ some s
      → get_state (put_state fs area s') area ≡ some s'
  unfolding get_state
  get_state-put fs area s s' e =
      let found : get_or fs area none ≡ some s = ground arith in
      ground (arith, get_or-set_self fs area (some s') none (get_or-bound fs area s found))

  pub set-get_or :
      (fs : Filesystems Disk) (j : ℕ) (s : FilesystemState Disk)
      → get_or fs j none ≡ some s
      → set fs j (some s) ≡ fs
  set-get_or [] j s e = refl
  set-get_or (x ∷ fs) zero s e = ap (λ y. y ∷ fs) (sym e)
  set-get_or (x ∷ fs) (suc j) s e = ap (λ ys. x ∷ ys) (set-get_or fs j s e)

  -- Putting a filesystem back as it was changes nothing.
  pub put_state-same :
      (fs : Filesystems Disk) (area : ℕ) (s : FilesystemState Disk)
      → get_state fs area ≡ some s
      → put_state fs area s ≡ fs
  unfolding get_state
  put_state-same fs area s e = set-get_or fs area s (ground arith)

  pub is_storage_mounted-put :
      (fs : Filesystems Disk) (area : ℕ) (s s' : FilesystemState Disk)
      → get_state fs area ≡ some s
      → is_storage_mounted (put_state fs area s') area ≡ s'.mounted
  unfolding is_storage_mounted
  is_storage_mounted-put fs area s s' e = ap (holds (λ t. t.mounted)) (get_state-put fs area s s' e)

  pub is_storage_errored-put :
      (fs : Filesystems Disk) (area : ℕ) (s s' : FilesystemState Disk)
      → get_state fs area ≡ some s
      → is_storage_errored (put_state fs area s') area ≡ s'.errored
  unfolding is_storage_errored
  is_storage_errored-put fs area s s' e = ap (holds (λ t. t.errored)) (get_state-put fs area s s' e)

  pub mark_errored-flags :
      (s : FilesystemState Disk) (e : Errno)
      → let s' = (mark_errored s e).1 in
        (s'.errored ≡ true) × (s'.mounted ≡ s.mounted) × (s'.fs ≡ s.fs)
  unfolding mark_errored
  mark_errored-flags s e = ground arith

  pub mark_errored_code : (s : FilesystemState Disk) (e : Errno) → (mark_errored s e).0 ≡ e
  unfolding mark_errored
  mark_errored_code s e = refl

  pub put_result_lem :
      (fs : Filesystems Disk) (area : ℕ) (s : FilesystemState Disk)
      (r : Errno × FilesystemState Disk)
      → get_state fs area ≡ some s
      → let r' = put_result fs area r in
        (r'.0 ≡ r.0)
        × (is_storage_mounted r'.1 area ≡ (r.1).mounted)
        × (is_storage_errored r'.1 area ≡ (r.1).errored)
  put_result_lem fs area s (e, s') f =
      (refl, is_storage_mounted-put fs area s s' f, is_storage_errored-put fs area s s' f)

  -- How a mount may end: the area is mounted, or it is not and marked, or there is none.
  abbrev pub MountEnds : Filesystems Disk → ℕ → Errno × Filesystems Disk → Type 0
  MountEnds fs area r =
      ((r.0 ≡ Errno.success) × (is_storage_mounted r.1 area ≡ true))
      ⊎ (((r.0 ≡ Errno.eio)
            × (is_storage_mounted r.1 area ≡ false)
            × (is_storage_errored r.1 area ≡ true))
          ⊎ ((r.0 ≡ Errno.einval) × (get_state fs area ≡ none) × (r.1 ≡ fs)))

module _ {Config Disk : Type 0} (lfs : Littlefs Config Disk) where
  pub ensure_mounted-result :
      (s : FilesystemState Disk) → ((ensure_mounted lfs s).1).mounted ≡ (ensure_mounted lfs s).0
  unfolding ensure_mounted
  ensure_mounted-result s = ground arith

  pub ensure_unmounted-result :
      {area : ℕ} (s : FilesystemState Disk)
      → IsSound area s
      → not ((ensure_unmounted lfs s).1).mounted ≡ (ensure_unmounted lfs s).0
  unfolding ensure_unmounted
  ensure_unmounted-result s h = ground arith

  pub ensure_mounted_errored :
      (s : FilesystemState Disk)
      → s.errored ≡ true
      → s.mounted ≡ false
      → eio_unless (ensure_mounted lfs s) ≡ (Errno.eio, s)
  unfolding ensure_mounted mark_errored
  ensure_mounted_errored s e m = ground arith

  pub check_format-result :
      (r : Option LfsError × FilesystemState Disk)
      → ((check_format r).0 ≡ convert_littlefs_error_code r.0)
        × (r.0 ≢ none → ((check_format r).1).errored ≡ true)
  unfolding convert_littlefs_error_code
  check_format-result (none, s) = (refl, λ h. absurd (h refl))
  check_format-result (some e, s) =
      let code = convert_littlefs_error_code (some e) in
      (mark_errored_code s code, λ h. (mark_errored-flags s code).0)

  -- A mount, forced or not, answers success and leaves the area mounted, or answers EIO and leaves
  -- it unmounted and marked as errored, or answers EINVAL, when there is no such area, and changes
  -- nothing.
  pub mount_storage-MountEnds :
      (fs : Filesystems Disk) (area : ℕ) (force : Bool)
      → MountEnds fs area (mount_storage lfs fs area force)
  unfolding mount_storage
  mount_storage-MountEnds fs area force = found (get_state fs area) refl
    where
      ended :
          (s : FilesystemState Disk) (r : Bool × FilesystemState Disk)
          → get_state fs area ≡ some s
          → (r.1).mounted ≡ r.0
          → MountEnds fs area (put_result fs area (eio_unless r))
      ended s (true, s') f m = inl (refl, is_storage_mounted-put fs area s s' f ∙ m)
      ended s (false, s') f m =
          let s'' = (mark_errored s' Errno.eio).1 in
          let flags = mark_errored-flags s' Errno.eio in
          inr (
            inl (
              refl,
              is_storage_mounted-put fs area s s'' f ∙ flags.1 ∙ m,
              is_storage_errored-put fs area s s'' f ∙ flags.0,
            ))

      found :
          (o : Option (FilesystemState Disk))
          → get_state fs area ≡ o
          → MountEnds fs area (mount_found lfs fs area force o)
      found none f = inr (inr (refl, f, refl))
      found (some s) f =
          let s' = if force then clear_errors s else s in
          ended s (ensure_mounted lfs s') f (ensure_mounted-result s')

  -- An area that is not mounted and is marked as errored is only mounted by force: without it the
  -- answer is EIO and nothing changes, the filesystem object included.
  pub mount_storage-errored :
      (fs : Filesystems Disk) (area : ℕ) (s : FilesystemState Disk)
      → get_state fs area ≡ some s
      → s.errored ≡ true
      → s.mounted ≡ false
      → mount_storage lfs fs area false ≡ (Errno.eio, fs)
  unfolding mount_storage
  mount_storage-errored fs area s f e m =
      ap (mount_found lfs fs area false) f
      ∙ ap (put_result fs area) (ensure_mounted_errored s e m)
      ∙ ap (λ gs. (Errno.eio, gs)) (put_state-same fs area s f)

  -- Erasing a mounted area is refused with EIO and changes nothing. An area that is not mounted is
  -- formatted: the answer is the converted error of the library, and an error marks the area.
  pub erase_storage_result :
      (fs : Filesystems Disk) (area : ℕ) (s : FilesystemState Disk)
      → get_state fs area ≡ some s
      → let r = erase_storage lfs fs area in
        (s.mounted ≡ true → r ≡ (Errno.eio, fs))
        × (s.mounted ≡ false → r.0 ≡ convert_littlefs_error_code (format lfs s).0)
        × (s.mounted ≡ false → (format lfs s).0 ≢ none → is_storage_errored r.1 area ≡ true)
  unfolding erase_storage
  erase_storage_result fs area s f =
      let checked = check_format (format lfs s) in
      let put = put_result_lem fs area s checked f in
      let result = check_format-result (format lfs s) in
      let found = ap (erase_found lfs fs area) f in
      (
        λ m. found ∙ ap (λ b. if b then (Errno.eio, fs) else put_result fs area checked) m,
        λ m. ground (arith, found, put.0, result.0),
        λ m h. ground (arith, found, put.2, result.1 h),
      )
