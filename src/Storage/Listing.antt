-- ===== src/Storage/Listing.antt =====
-- src/core/utils/smart_dir_handle.cpp and `DirectoryListingOperation` of src/modules/storage.cpp. What
-- littlefs does with a directory is a parameter.
use obc.Common.{
  ℕ, zero, suc, ◌+◌, ◌-◌, ◌==◌, ◌&&◌, not, if◌then◌else◌, ltb, List, [], Bool, true, false, Option,
  none, some, ◌⊎◌, inl, inr,
}
use obc.Common.Words.{u8}
use obc.Telem.Generic.FrameType
use obc.Frames.Reply.{DirectoryEntryData}
use obc.Storage.Filesystem.{LfsError, Errno, convert_littlefs_error_code, FilesystemState}
use obc.Storage.Areas.{Filesystems, get_state}

-- What `dir_read` says of an entry.
pub record Entry : Type 0 where
  pub name : List ℕ
  pub is_dir : Bool
  pub size : ℕ

-- The calls on a mounted filesystem and on an open directory, which stands beside the answer.
pub record Dirs (Disk Dir : Type 0) : Type 0 where
  pub dir_open : Disk → List ℕ → LfsError ⊎ Dir
  pub dir_read : Dir → (LfsError ⊎ Entry) × Dir
  pub dir_rewind : Dir → Option LfsError × Dir

-- `SmartDirHandle`.
pub record SmartDirHandle (Dir : Type 0) : Type 0 where
  pub dd : Dir
  pub ended : Bool
  pub index : ℕ

-- `DirectoryListingOperation` and the targets of its base class; `none` is a handle that was reset.
pub record DirectoryListingOperation (Dir : Type 0) : Type 0 where
  pub targets : ℕ
  pub first : ℕ
  pub entries_left : ℕ
  pub entry_data : DirectoryEntryData
  pub dir : Option (SmartDirHandle Dir)

abbrev pub cleared_entry : DirectoryEntryData
cleared_entry = record {
  frame_type = 0;
  seq_no = 0;
  max_entry_index = 0;
  entry_index = 0;
  name = [];
}

module _ {Dir : Type 0} where
  abbrev pub new_handle : Dir → SmartDirHandle Dir
  new_handle d = record { dd = d; ended = false; index = 0 }

  abbrev pub has_more_entries : SmartDirHandle Dir → Bool
  has_more_entries h = not h.ended

  -- What `read` of the handle answers, after `dir_read`.
  abbrev pub after_dir_read :
      SmartDirHandle Dir → (LfsError ⊎ Entry) × Dir → (LfsError ⊎ Entry) × SmartDirHandle Dir
  after_dir_read h (inl LfsError.noent, d) = (inl LfsError.noent, record h { dd = d; ended = true })
  after_dir_read h (answer, d) = (answer, record h { dd = d })

  abbrev pub after_dir_rewind :
      SmartDirHandle Dir → Option LfsError × Dir → Option LfsError × SmartDirHandle Dir
  after_dir_rewind h (none, d) = (none, record { dd = d; ended = false; index = 0 })
  after_dir_rewind h (some e, d) = (some e, record h { dd = d })

module _ {Disk Dir : Type 0} (dirs : Dirs Disk Dir) where
  unfoldable pub read : SmartDirHandle Dir → (LfsError ⊎ Entry) × SmartDirHandle Dir
  read h = after_dir_read h (dirs.dir_read h.dd)

  unfoldable pub rewind : SmartDirHandle Dir → Option LfsError × SmartDirHandle Dir
  rewind h = after_dir_rewind h (dirs.dir_rewind h.dd)

  abbrev pub skip_next :
      (LfsError ⊎ Entry) × SmartDirHandle Dir
      → (SmartDirHandle Dir → Option (Option LfsError × SmartDirHandle Dir))
      → Option (Option LfsError × SmartDirHandle Dir)
  skip_next (inl e, h) rest = some (some e, h)
  skip_next (inr entry, h) rest = rest (record h { index = h.index + 1 })

  -- The loop of `seek`, with fuel for its passes; `none` is out of fuel.
  abbrev pub skip : ℕ → ℕ → SmartDirHandle Dir → Option (Option LfsError × SmartDirHandle Dir)
  skip zero i h = if ltb i h.index then none else some (none, h)
  skip (suc fuel) i h = if ltb i h.index then skip_next (read h) (skip fuel i) else some (none, h)

  abbrev pub skip_rewound :
      ℕ → ℕ → Option LfsError × SmartDirHandle Dir → Option (Option LfsError × SmartDirHandle Dir)
  skip_rewound fuel i (some e, h) = some (some e, h)
  skip_rewound fuel i (none, h) = skip fuel i h

  unfoldable pub seek : ℕ → ℕ → SmartDirHandle Dir → Option (Option LfsError × SmartDirHandle Dir)
  unfolding read rewind
  seek fuel i h = if ltb h.index i then skip_rewound fuel i (rewind h) else skip fuel i h

module _ {Dir : Type 0} where
  abbrev pub new : DirectoryListingOperation Dir
  new = record { targets = 0; first = 0; entries_left = 0; entry_data = cleared_entry; dir = none }

  abbrev pub handle_has_more : Option (SmartDirHandle Dir) → Bool
  handle_has_more none = false
  handle_has_more (some h) = has_more_entries h

  unfoldable pub running : DirectoryListingOperation Dir → Bool
  running op = ltb 0 op.entries_left && handle_has_more op.dir

  unfoldable pub cancel : DirectoryListingOperation Dir → DirectoryListingOperation Dir
  cancel op = record op { dir = none; entries_left = 0 }

  abbrev pub begun : ℕ → ℕ → ℕ → DirectoryListingOperation Dir → DirectoryListingOperation Dir
  begun i n seq_no op = record op {
    first = i;
    entries_left = n;
    entry_data = record cleared_entry {
      frame_type = FrameType.directory_listing;
      seq_no = seq_no;
      max_entry_index = u8 (n - 1);
    };
  }

  -- After the search for the first entry: an error is passed over where there are no more entries.
  abbrev pub start_sought :
      ℕ
      → ℕ
      → ℕ
      → DirectoryListingOperation Dir
      → Option LfsError × SmartDirHandle Dir
      → Errno × DirectoryListingOperation Dir
  start_sought i n seq_no op (none, h) =
      (Errno.success, begun i n seq_no (record op { dir = some h }))
  start_sought i n seq_no op (some e, h) =
      if has_more_entries h
      then (convert_littlefs_error_code (some e), record op { dir = some h })
      else (Errno.success, begun i n seq_no (record op { dir = some h }))

  -- `none`: the search does not end with the given fuel.
  abbrev pub start_found :
      ℕ
      → ℕ
      → ℕ
      → DirectoryListingOperation Dir
      → Option (Option LfsError × SmartDirHandle Dir)
      → Option (Errno × DirectoryListingOperation Dir)
  start_found i n seq_no op none = none
  start_found i n seq_no op (some r) = some (start_sought i n seq_no op r)

module _ {Disk Dir : Type 0} (dirs : Dirs Disk Dir) (fuel : ℕ) where
  abbrev pub start_opened :
      ℕ
      → ℕ
      → ℕ
      → DirectoryListingOperation Dir
      → LfsError ⊎ Dir
      → Option (Errno × DirectoryListingOperation Dir)
  start_opened i n seq_no op (inl e) = some (convert_littlefs_error_code (some e), op)
  start_opened i n seq_no op (inr d) = start_found i n seq_no op (seek dirs fuel i (new_handle d))

  abbrev pub start_mounted :
      List ℕ
      → ℕ
      → ℕ
      → ℕ
      → DirectoryListingOperation Dir
      → Option (FilesystemState Disk)
      → Option (Errno × DirectoryListingOperation Dir)
  start_mounted path i n seq_no op none = some (Errno.eio, op)
  start_mounted path i n seq_no op (some s) =
      if s.mounted then start_on s.fs else some (Errno.eio, op)
    where
      start_on : Option Disk → Option (Errno × DirectoryListingOperation Dir)
      start_on none = some (Errno.eio, op)
      start_on (some d) = start_opened i n seq_no op (dirs.dir_open d path)

  unfoldable pub start :
      Filesystems Disk
      → ℕ
      → List ℕ
      → ℕ
      → ℕ
      → ℕ
      → DirectoryListingOperation Dir
      → Option (Errno × DirectoryListingOperation Dir)
  unfolding running get_state seek
  start fs area path i n seq_no op =
      if running op
      then some (Errno.ebusy, op)
      else (if n == 0
          then some (Errno.einval, op)
          else start_mounted path i n seq_no op (get_state fs area))
