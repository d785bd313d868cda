-- ===== src/Storage/Validity.antt =====
-- The invariant of the filesystems of src/modules/storage.cpp.
use obc.Common.{
  ℕ, zero, suc, ◌+◌, ◌≢◌, ◌≡◌, get_or, [], ◌∷◌, Bool, true, false, Option, none, some, arith,
}
use obc.Frames.Request.{num_storage_areas}
use obc.Storage.Filesystem.{
  Littlefs, FilesystemState, Errno, new, configure, ensure_mounted, ensure_unmounted, format,
  mark_errored, clear_errors,
}
use obc.Storage.Areas.{Filesystems, init, clear_all_errors, get_state, put_state}

module _ {Disk : Type 0} where
  abbrev pub is_present : Option Disk → Bool
  is_present none = false
  is_present (some d) = true

  -- A filesystem knows its area, is configured exactly when it has its object, and is mounted only
  -- when it is configured.
  abbrev pub IsSound : ℕ → FilesystemState Disk → Type 0
  IsSound area s =
      (s.area ≡ area) × (s.configured ≡ is_present s.fs) × (s.mounted ≡ true → s.configured ≡ true)

  abbrev pub IsSoundFrom : ℕ → Filesystems Disk → Type 0
  IsSoundFrom i [] = i ≡ num_storage_areas
  IsSoundFrom i (none ∷ fs) = (i ≡ 0) × IsSoundFrom (suc i) fs
  IsSoundFrom i (some s ∷ fs) = (i ≢ 0) × IsSound i s × IsSoundFrom (suc i) fs

  -- There is a sound filesystem for each area but the unknown one.
  abbrev pub IsValid : Filesystems Disk → Type 0
  IsValid fs = IsSoundFrom 0 fs

  pub get_or-IsSound :
      (i j k : ℕ) (fs : Filesystems Disk) (s : FilesystemState Disk)
      → k ≡ i + j
      → IsSoundFrom i fs
      → get_or fs j none ≡ some s
      → IsSound k s
  get_or-IsSound i j k [] s l h e = absurd (cc)
  get_or-IsSound i zero k (none ∷ fs) s l h e = absurd (cc)
  get_or-IsSound i zero k (some s' ∷ fs) s l h e = ground (arith, h.1)
  get_or-IsSound i (suc j) k (none ∷ fs) s l h e =
      get_or-IsSound (suc i) j k fs s (omega arith) h.1 e
  get_or-IsSound i (suc j) k (some s' ∷ fs) s l h e =
      get_or-IsSound (suc i) j k fs s (omega arith) h.2 e

  pub put_state-IsSoundFrom :
      (i j k : ℕ) (fs : Filesystems Disk) (s s' : FilesystemState Disk)
      → k ≡ i + j
      → IsSoundFrom i fs
      → get_or fs j none ≡ some s
      → IsSound k s'
      → IsSoundFrom i (put_state fs j s')
  put_state-IsSoundFrom i j k [] s s' l h e h' = h
  put_state-IsSoundFrom i zero k (none ∷ fs) s s' l h e h' = absurd (cc)
  put_state-IsSoundFrom i zero k (some t ∷ fs) s s' l h e h' = (h.0, ground (arith, h'), h.2)
  put_state-IsSoundFrom i (suc j) k (none ∷ fs) s s' l h e h' =
      (h.0, put_state-IsSoundFrom (suc i) j k fs s s' (omega arith) h.1 e h')
  put_state-IsSoundFrom i (suc j) k (some t ∷ fs) s s' l h e h' =
      (h.0, h.1, put_state-IsSoundFrom (suc i) j k fs s s' (omega arith) h.2 e h')

  -- A change of a filesystem that keeps it sound keeps all of them valid.
  pub put_state-IsValid :
      (fs : Filesystems Disk) (area : ℕ) (s s' : FilesystemState Disk)
      → IsValid fs
      → get_state fs area ≡ some s
      → (IsSound area s → IsSound area s')
      → IsValid (put_state fs area s')
  unfolding get_state
  put_state-IsValid fs area s s' h e f =
      let found : get_or fs area none ≡ some s = ground arith in
      put_state-IsSoundFrom 0 area area fs s s' (omega arith) h found
        (f (get_or-IsSound 0 area area fs s (omega arith) h found))

  pub mark_errored-IsSound :
      (area : ℕ) (s : FilesystemState Disk) (e : Errno)
      → IsSound area s
      → IsSound area (mark_errored s e).1
  unfolding mark_errored
  mark_errored-IsSound area s e h = ground arith

  pub clear_errors-IsSound :
      (area : ℕ) (s : FilesystemState Disk) → IsSound area s → IsSound area (clear_errors s)
  unfolding clear_errors
  clear_errors-IsSound area s h = h

  pub clear_all_errors-IsSoundFrom :
      (i : ℕ) (fs : Filesystems Disk) → IsSoundFrom i fs → IsSoundFrom i (clear_all_errors fs)
  unfolding clear_all_errors
  clear_all_errors-IsSoundFrom i [] h = h
  clear_all_errors-IsSoundFrom i (none ∷ fs) h = (h.0, clear_all_errors-IsSoundFrom (suc i) fs h.1)
  clear_all_errors-IsSoundFrom i (some s ∷ fs) h =
      (h.0, clear_errors-IsSound i s h.1, clear_all_errors-IsSoundFrom (suc i) fs h.2)

pub init-IsValid : (Disk : Type 0) → IsValid (init {Disk = Disk})
unfolding init new
init-IsValid Disk = ground arith

module _ {Config Disk : Type 0} (lfs : Littlefs Config Disk) (area : ℕ)
    (s : FilesystemState Disk) where
  pub configure-IsSound : (cfg : Config) → IsSound area s → IsSound area (configure lfs cfg s).1
  unfolding configure
  configure-IsSound cfg h = ground arith

  pub ensure_mounted-IsSound : IsSound area s → IsSound area (ensure_mounted lfs s).1
  unfolding ensure_mounted
  ensure_mounted-IsSound h = ground arith

  pub ensure_unmounted-IsSound : IsSound area s → IsSound area (ensure_unmounted lfs s).1
  unfolding ensure_unmounted
  ensure_unmounted-IsSound h = ground arith

  pub format-IsSound : IsSound area s → IsSound area (format lfs s).1
  unfolding format
  format-IsSound h = ground arith
