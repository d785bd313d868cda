-- ===== src/Storage/Listings.antt =====
-- Directory listings of src/modules/storage.cpp: which entries are sent.
use obc.Common.{
  ℕ, zero, suc, ◌-◌, ◌≤◌, ◌≡◌, ◌≢◌, refl, List, [], ◌∷◌, length, Bool, true, false, none, some,
  arith, inr,
}
use obc.Storage.Filesystem.{Errno, FilesystemState}
use obc.Storage.Areas.{Filesystems, get_state}
use obc.Storage.Listing.{
  Entry, Dirs, SmartDirHandle, DirectoryListingOperation, new_handle, new, rewind, seek, begun,
  start, running,
}
use obc.Storage.ListingLoop.{named, iterate}
use obc.Storage.ListingRuns.{
  IsDirectory, Listing, messages, IsBefore, AllTaken, Lists, iterate-Lists, iterate-entry,
}

module _ {Disk Dir : Type 0} (dirs : Dirs Disk Dir) (rest : Dir → List Entry)
    (laws : IsDirectory dirs rest) (fs : Filesystems Disk) (area : ℕ) (s : FilesystemState Disk)
    (d₀ : Disk) (present : get_state fs area ≡ some s) (mounted : s.mounted ≡ true)
    (disk : s.fs ≡ some d₀) (path : List ℕ) (d : Dir) (opened : dirs.dir_open d₀ path ≡ inr d)
    (rewinds : dirs.dir_rewind d ≡ (none, d)) (n : ℕ) (positive : n ≢ 0) where
  seek-first : (fuel i : ℕ) → seek dirs fuel i (new_handle d) ≡ some (none, new_handle d)
  unfolding seek rewind
  seek-first zero i = ground (arith, rewinds)
  seek-first (suc fuel) i = ground (arith, rewinds)

  -- A listing of a mounted area whose directory opens and rewinds begins, for any index it is to
  -- start from, with any fuel for the search of that entry, and stands before the first entry.
  pub listing_starts_at_first :
      (fuel i seq_no : ℕ)
      → start dirs fuel fs area path i n seq_no new
        ≡ some (Errno.success, begun i n seq_no (record new { dir = some (new_handle d) }))
  unfolding start running
  listing_starts_at_first fuel i seq_no =
      ground (arith, present, mounted, disk, opened, positive, seek-first fuel i)

  -- A listing of 1 to 256 entries of a mounted area, whose directory opens and is read as it is,
  -- with a queue that takes a frame for each: it sends the entries of the directory from the first
  -- on, numbered from 0 and as many as were asked for, and behind the last one, if there is room, a
  -- message without a name that has the number of entries; it then no longer runs.
  pub listing-Lists :
      (i seq_no targets : ℕ) (answers : List Bool)
      → n ≤ 256
      → AllTaken answers
      → n ≤ length answers
      → let op = begun i n seq_no (record new { dir = some (new_handle d) }) in
        Lists
          (record { targets = targets; seq_no = seq_no; max_entry_index = n - 1 })
          0
          n
          (rest d)
          (iterate dirs answers (record op { targets = targets }))
  listing-Lists i seq_no targets answers h all m =
      let op = begun i n seq_no (record new { dir = some (new_handle d) }) in
      iterate-Lists dirs rest laws answers
        (record { targets = targets; seq_no = seq_no; max_entry_index = n - 1 }) 0 n (rest d)
        (new_handle d) (record op { targets = targets })
        (refl, refl, refl, refl, refl, refl, refl, omega (arith, h), refl) all m

module _ {Disk Dir : Type 0} (dirs : Dirs Disk Dir) (rest : Dir → List Entry)
    (laws : IsDirectory dirs rest) where
  -- When the queue is full for an entry, the entry is lost: the iteration sends nothing, and the
  -- next one, with a queue that takes all, sends what would be sent of a directory without it.
  pub listing_loses :
      (l : Listing) (k n : ℕ) (e : Entry) (es : List Entry) (h : SmartDirHandle Dir)
      (op : DirectoryListingOperation Dir) (answers : List Bool)
      → IsBefore dirs rest laws l k (suc n) (e ∷ es) h op
      → AllTaken answers
      → suc n ≤ length answers
      → let r = iterate dirs (false ∷ []) op in
        (r.2 ≡ []) × ((iterate dirs answers r.1).2 ≡ messages l k (suc n) es)
  listing_loses l k n e es h op answers b all m =
      let h' = record h { dd = (dirs.dir_read h.dd).1 } in
      let sent =
        iterate-Lists dirs rest laws answers l k (suc n) es h' (named op h' e)
          (refl, b.1, laws.read_rest h.dd e es b.2, b.3, b.4, b.5, b.6, b.7, b.8) all m in
      rw (iterate-entry dirs rest laws false [] l k n e es h op b) (refl, sent.2)
