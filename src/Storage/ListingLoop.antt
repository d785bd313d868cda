-- ===== src/Storage/ListingLoop.antt =====
-- `DirectoryListingOperation::iterate` of src/modules/storage.cpp.
use obc.Common.{
  ℕ, ◌+◌, ◌-◌, if◌then◌else◌, take, List, [], ◌∷◌, ◌++◌, Bool, true, false, Option, none, some, ◌⊎◌,
  inl, inr,
}
use obc.Common.Words.{u8}
use obc.Telem.Generic.FrameType
use obc.Frames.Reply.{encode_directory_entry_frame, max_directory_entry_name_length}
use obc.Storage.Filesystem.{LfsError, Errno, convert_littlefs_error_code}
use obc.Storage.Raw.{Sent}
use obc.Storage.Listing.{
  Entry, Dirs, SmartDirHandle, DirectoryListingOperation, has_more_entries, read, running, cancel,
}

-- The error code, the operation afterwards and the frames that were taken.
abbrev pub Listed : Type 0 → Type 0
Listed Dir = Errno × DirectoryListingOperation Dir × List Sent

-- The name that is sent: `snprintf` leaves room for the terminator in the 58 characters it may use.
abbrev pub name_of : Entry → List ℕ
name_of entry =
    take (max_directory_entry_name_length - 1)
      (entry.name ++ (if entry.is_dir then 0x2f ∷ [] else []))

module _ {Dir : Type 0} where
  abbrev pub named :
      DirectoryListingOperation Dir → SmartDirHandle Dir → Entry → DirectoryListingOperation Dir
  named op h entry = record op {
    dir = some h;
    entry_data = record op.entry_data { name = name_of entry };
  }

  -- The message behind the last entry, which has no name.
  abbrev pub ended :
      DirectoryListingOperation Dir → SmartDirHandle Dir → DirectoryListingOperation Dir
  ended op h = record op {
    dir = some h;
    entry_data = record op.entry_data { name = []; max_entry_index = op.entry_data.entry_index };
  }

  abbrev pub frame_of : DirectoryListingOperation Dir → Sent
  frame_of op = record {
    targets = op.targets;
    frame_type = FrameType.directory_entry;
    payload = encode_directory_entry_frame op.entry_data;
  }

  abbrev pub advanced : DirectoryListingOperation Dir → DirectoryListingOperation Dir
  advanced op = record op {
    entries_left = op.entries_left - 1;
    entry_data = record op.entry_data { entry_index = u8 (op.entry_data.entry_index + 1) };
  }

  -- The rest of a pass, once the entry is there: whether `sendTelemetry` takes it, whether there
  -- are more, and the rest of the loop.
  abbrev pub send_entry :
      Bool
      → Bool
      → DirectoryListingOperation Dir
      → (DirectoryListingOperation Dir → Listed Dir)
      → Listed Dir
  send_entry false more op rest = (Errno.success, op, [])
  send_entry true false op rest = (Errno.success, cancel op, frame_of op ∷ [])
  send_entry true true op rest = let r = rest (advanced op) in (r.0, r.1, frame_of op ∷ r.2)

  abbrev pub pass :
      Bool
      → DirectoryListingOperation Dir
      → (LfsError ⊎ Entry) × SmartDirHandle Dir
      → (DirectoryListingOperation Dir → Listed Dir)
      → Listed Dir
  pass taken op (inl e, h) rest =
      if has_more_entries h
      then (convert_littlefs_error_code (some e), record op { dir = some h }, [])
      else send_entry taken false (ended op h) rest
  pass taken op (inr entry, h) rest = send_entry taken (has_more_entries h) (named op h entry) rest

module _ {Disk Dir : Type 0} (dirs : Dirs Disk Dir) where
  -- A pass is only made on a handle that is there.
  abbrev pub pass_on :
      Bool
      → DirectoryListingOperation Dir
      → Option (SmartDirHandle Dir)
      → (DirectoryListingOperation Dir → Listed Dir)
      → Listed Dir
  pass_on taken op none rest = (Errno.success, op, [])
  pass_on taken op (some h) rest = pass taken op (read dirs h) rest

  -- The list has what `sendTelemetry` answers, which is false behind its end.
  unfoldable pub iterate : List Bool → DirectoryListingOperation Dir → Listed Dir
  unfolding running cancel read
  iterate [] op =
      if running op
      then pass_on false op op.dir (λ op'. (Errno.success, op', []))
      else (Errno.success, op, [])
  iterate (taken ∷ answers) op =
      if running op then pass_on taken op op.dir (iterate answers) else (Errno.success, op, [])
