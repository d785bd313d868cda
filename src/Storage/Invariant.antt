-- ===== src/Storage/Invariant.antt =====
-- The functions of src/modules/storage.cpp keep the filesystems valid.
use obc.Common.{ℕ, suc, ◌≢◌, ◌≡◌, [], ◌∷◌, Bool, true, false, Option, none, some, arith}
use obc.Storage.Filesystem.{
  Littlefs, FilesystemState, Errno, LfsError, ensure_unmounted, format, mark_errored,
}
use obc.Storage.Areas.{
  Filesystems, get_state, format_all, succeeds, format_unmounted, cons_result, cons_null,
  format_if_present, format_one_at_boot, format_at_boot_from, mount_one_at_boot, mount_at_boot_from,
}
use obc.Storage.Requests.{mark_found, put_result, eio_unless, check_format}
use obc.Storage.Validity.{
  IsSound, IsSoundFrom, IsValid, put_state-IsValid, mark_errored-IsSound, ensure_mounted-IsSound,
  ensure_unmounted-IsSound, format-IsSound,
}

module _ {Disk : Type 0} where
  pub cons_result-IsSoundFrom :
      (i : ℕ) (r : Bool × FilesystemState Disk) (rs : Bool × Filesystems Disk)
      → i ≢ 0
      → IsSound i r.1
      → IsSoundFrom (suc i) rs.1
      → IsSoundFrom i (cons_result r rs).1
  cons_result-IsSoundFrom i (b, r) (bs, rs) h₀ h hs = (h₀, h, hs)

  pub cons_null-IsSoundFrom :
      (i : ℕ) (rs : Bool × Filesystems Disk)
      → i ≡ 0
      → IsSoundFrom (suc i) rs.1
      → IsSoundFrom i (cons_null rs).1
  cons_null-IsSoundFrom i (bs, rs) h₀ hs = (h₀, hs)

  pub succeeds-IsSound :
      (i : ℕ) (r : Option LfsError × FilesystemState Disk)
      → IsSound i r.1
      → IsSound i (succeeds r).1
  succeeds-IsSound i (none, s) h = h
  succeeds-IsSound i (some e, s) h = h

  pub eio_unless-IsSound :
      (i : ℕ) (r : Bool × FilesystemState Disk) → IsSound i r.1 → IsSound i (eio_unless r).1
  eio_unless-IsSound i (true, s) h = h
  eio_unless-IsSound i (false, s) h = mark_errored-IsSound i s Errno.eio h

  pub check_format-IsSound :
      (i : ℕ) (r : Option LfsError × FilesystemState Disk)
      → IsSound i r.1
      → IsSound i (check_format r).1
  check_format-IsSound i (none, s) h = h
  check_format-IsSound i (some e, s) h = mark_errored-IsSound i s _ h

  pub put_result-IsValid :
      (fs : Filesystems Disk) (area : ℕ) (s : FilesystemState Disk)
      (r : Errno × FilesystemState Disk)
      → IsValid fs
      → get_state fs area ≡ some s
      → (IsSound area s → IsSound area r.1)
      → IsValid (put_result fs area r).1
  put_result-IsValid fs area s (e, s') h f g = put_state-IsValid fs area s s' h f g

  pub mark_found-IsValid :
      (fs : Filesystems Disk) (area : ℕ) (e : Errno) (o : Option (FilesystemState Disk))
      → IsValid fs
      → get_state fs area ≡ o
      → IsValid (mark_found fs area e o)
  mark_found-IsValid fs area e none h f = h
  mark_found-IsValid fs area e (some s) h f =
      put_result-IsValid fs area s (mark_errored s e) h f (mark_errored-IsSound area s e)

module _ {Config Disk : Type 0} (lfs : Littlefs Config Disk) where
  pub format_all-IsSoundFrom :
      (i : ℕ) (fs : Filesystems Disk) → IsSoundFrom i fs → IsSoundFrom i (format_all lfs fs).1
  unfolding format_all
  format_all-IsSoundFrom i [] h = h
  format_all-IsSoundFrom i (none ∷ fs) h =
      cons_null-IsSoundFrom i (format_all lfs fs) h.0 (format_all-IsSoundFrom (suc i) fs h.1)
  format_all-IsSoundFrom i (some s ∷ fs) h =
      cons_result-IsSoundFrom i (format_unmounted lfs (ensure_unmounted lfs s)) (format_all lfs fs)
        h.0
        (format_unmounted-IsSound (ensure_unmounted lfs s) (ensure_unmounted-IsSound lfs i s h.1))
        (format_all-IsSoundFrom (suc i) fs h.2)
    where
      format_unmounted-IsSound :
          (r : Bool × FilesystemState Disk) → IsSound i r.1 → IsSound i (format_unmounted lfs r).1
      format_unmounted-IsSound (true, s') g =
          succeeds-IsSound i (format lfs s') (format-IsSound lfs i s' g)
      format_unmounted-IsSound (false, s') g = g

  pub format_at_boot-IsSoundFrom :
      (i : ℕ) (fs : Filesystems Disk)
      → IsSoundFrom i fs
      → IsSoundFrom i (format_at_boot_from lfs i fs).1
  format_at_boot-IsSoundFrom i [] h = h
  format_at_boot-IsSoundFrom i (none ∷ fs) h =
      cons_null-IsSoundFrom i (format_at_boot_from lfs (suc i) fs) h.0
        (format_at_boot-IsSoundFrom (suc i) fs h.1)
  format_at_boot-IsSoundFrom i (some s ∷ fs) h =
      cons_result-IsSoundFrom i (format_one_at_boot lfs i s) (format_at_boot_from lfs (suc i) fs)
        h.0 (ground (arith, format_if_present-IsSound s.fs))
        (format_at_boot-IsSoundFrom (suc i) fs h.2)
    where
      format_if_present-IsSound : (o : Option Disk) → IsSound i (format_if_present lfs s o).1
      format_if_present-IsSound none = h.1
      format_if_present-IsSound (some d) =
          succeeds-IsSound i (format lfs s) (format-IsSound lfs i s h.1)

  pub mount_at_boot-IsSoundFrom :
      (i : ℕ) (fs : Filesystems Disk)
      → IsSoundFrom i fs
      → IsSoundFrom i (mount_at_boot_from lfs i fs).1
  mount_at_boot-IsSoundFrom i [] h = h
  mount_at_boot-IsSoundFrom i (none ∷ fs) h =
      cons_null-IsSoundFrom i (mount_at_boot_from lfs (suc i) fs) h.0
        (mount_at_boot-IsSoundFrom (suc i) fs h.1)
  mount_at_boot-IsSoundFrom i (some s ∷ fs) h =
      cons_result-IsSoundFrom i (mount_one_at_boot lfs i s) (mount_at_boot_from lfs (suc i) fs) h.0
        (ground (arith, h.1, ensure_mounted-IsSound lfs i s h.1))
        (mount_at_boot-IsSoundFrom (suc i) fs h.2)
