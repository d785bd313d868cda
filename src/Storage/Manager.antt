-- ===== src/Storage/Manager.antt =====
-- src/modules/storage.cpp: `StorageOperationManager`, which runs one operation at a time, and the
-- functions of the module that start operations and run them.
use obc.Common.{ℕ, not, if◌then◌else◌, List, [], Bool, false, Option, none, some}
use obc.Storage.Filesystem.{Errno}
use obc.Storage.Areas.{Filesystems}
use obc.Storage.Raw
use obc.Storage.Raw.{Sent, Readers, RawStorageReadOperation}
use obc.Storage.Download
use obc.Storage.Download.{Files, FileDownloadOperation, Started}
use obc.Storage.Listing
use obc.Storage.Listing.{Dirs, DirectoryListingOperation}
use obc.Storage.ListingLoop
use obc.Storage.ListingLoop.{Listed}

-- `StorageAccessOperation`, by its subclasses.
pub data StorageAccessOperation (File Dir : Type 0) : Type 0 where
  raw_storage_read : RawStorageReadOperation → StorageAccessOperation File Dir
  directory_listing : DirectoryListingOperation Dir → StorageAccessOperation File Dir
  file_download : FileDownloadOperation File → StorageAccessOperation File Dir

-- `StorageOperationManager`; `none` is a null pointer.
pub record StorageOperationManager (File Dir : Type 0) : Type 0 where
  pub operation : Option (StorageAccessOperation File Dir)
  pub seq_no : ℕ
  pub targets : ℕ

module _ {File Dir : Type 0} where
  abbrev pub new : StorageOperationManager File Dir
  new = record { operation = none; seq_no = 0; targets = 0 }

  abbrev pub operation_running : StorageAccessOperation File Dir → Bool
  operation_running (StorageAccessOperation.raw_storage_read op) = Raw.running op
  operation_running (StorageAccessOperation.directory_listing op) = Listing.running op
  operation_running (StorageAccessOperation.file_download op) = Download.running op

  abbrev pub any_running : Option (StorageAccessOperation File Dir) → Bool
  any_running none = false
  any_running (some op) = operation_running op

  unfoldable pub running : StorageOperationManager File Dir → Bool
  running m = any_running m.operation

  abbrev pub with_targets : ℕ → StorageAccessOperation File Dir → StorageAccessOperation File Dir
  with_targets targets (StorageAccessOperation.raw_storage_read op) =
      StorageAccessOperation.raw_storage_read (record op { targets = targets })
  with_targets targets (StorageAccessOperation.directory_listing op) =
      StorageAccessOperation.directory_listing (record op { targets = targets })
  with_targets targets (StorageAccessOperation.file_download op) =
      StorageAccessOperation.file_download (record op { targets = targets })

  -- `_setOperation`; the operation before is cancelled and released.
  unfoldable pub set_operation :
      Option (StorageAccessOperation File Dir)
      → StorageOperationManager File Dir
      → StorageOperationManager File Dir
  set_operation none m = record m { operation = none }
  set_operation (some op) m = record m { operation = some (with_targets m.targets op) }

  unfoldable pub cancel : StorageOperationManager File Dir → StorageOperationManager File Dir
  unfolding set_operation
  cancel m = set_operation none m

  -- The operation is kept where it started without an error.
  abbrev pub keep_started :
      Errno
      → StorageAccessOperation File Dir
      → StorageOperationManager File Dir
      → Errno × StorageOperationManager File Dir
  keep_started Errno.success op m = (Errno.success, set_operation (some op) m)
  keep_started e op m = (e, m)

  abbrev pub prepared : ℕ → ℕ → StorageOperationManager File Dir → StorageOperationManager File Dir
  prepared targets seq_no m = record m { targets = targets; seq_no = seq_no }

  unfoldable pub start_raw_storage_download :
      ℕ
      → ℕ
      → ℕ
      → ℕ
      → ℕ
      → StorageOperationManager File Dir
      → Errno × StorageOperationManager File Dir
  unfolding running set_operation
  start_raw_storage_download area address n targets seq_no m =
      let r = Raw.start area address n seq_no Raw.new in
      if not (running m)
      then keep_started r.0 (StorageAccessOperation.raw_storage_read r.1)
          (prepared targets seq_no m)
      else (Errno.ebusy, m)

module _ {Disk File Dir : Type 0} (files : Files Disk File) (fs : Filesystems Disk) where
  -- The size of the file for the caller stands behind the manager.
  abbrev pub with_size :
      Option ℕ
      → Errno × StorageOperationManager File Dir
      → Errno × StorageOperationManager File Dir × Option ℕ
  with_size size (e, m) = (e, m, size)

  unfoldable pub start_file_download :
      ℕ
      → List ℕ
      → ℕ
      → ℕ
      → ℕ
      → ℕ
      → StorageOperationManager File Dir
      → Errno × StorageOperationManager File Dir × Option ℕ
  unfolding running set_operation
  start_file_download area path offset n targets seq_no m =
      let r = Download.start files fs area path offset n seq_no Download.new in
      if not (running m)
      then with_size r.2
          (keep_started r.0 (StorageAccessOperation.file_download r.1) (prepared targets seq_no m))
      else (Errno.ebusy, m, none)

module _ {Disk File Dir : Type 0} (dirs : Dirs Disk Dir) (fuel : ℕ) (fs : Filesystems Disk) where
  abbrev pub keep_listing :
      Option (Errno × DirectoryListingOperation Dir)
      → StorageOperationManager File Dir
      → Option (Errno × StorageOperationManager File Dir)
  keep_listing none m = none
  keep_listing (some r) m = some (keep_started r.0 (StorageAccessOperation.directory_listing r.1) m)

  -- `none`: the search for the first entry does not end with the given fuel.
  unfoldable pub start_directory_listing :
      ℕ
      → List ℕ
      → ℕ
      → ℕ
      → ℕ
      → ℕ
      → StorageOperationManager File Dir
      → Option (Errno × StorageOperationManager File Dir)
  unfolding running set_operation
  start_directory_listing area path i n targets seq_no m =
      if not (running m)
      then keep_listing (Listing.start dirs fuel fs area path i n seq_no Listing.new)
          (prepared targets seq_no m)
      else some (Errno.ebusy, m)

module _ {Disk File Dir : Type 0} (readers : Readers) (files : Files Disk File)
    (dirs : Dirs Disk Dir) (fs : Filesystems Disk) where
  abbrev pub Iterated : Type 0
  Iterated = Errno × StorageOperationManager File Dir × List Sent

  -- After the iteration of an operation: an error or its end releases it.
  abbrev pub after_iteration :
      Errno
      → StorageAccessOperation File Dir
      → List Sent
      → StorageOperationManager File Dir
      → Iterated
  after_iteration Errno.success op frames m =
      let m' = record m { operation = some op } in
      (Errno.success, if operation_running op then m' else set_operation none m', frames)
  after_iteration e op frames m = (e, set_operation none m, frames)

  abbrev pub after_raw :
      Errno × RawStorageReadOperation × List Sent → StorageOperationManager File Dir → Iterated
  after_raw (e, op, frames) m =
      after_iteration e (StorageAccessOperation.raw_storage_read op) frames m

  abbrev pub after_listing : Listed Dir → StorageOperationManager File Dir → Iterated
  after_listing (e, op, frames) m =
      after_iteration e (StorageAccessOperation.directory_listing op) frames m

  abbrev pub after_download :
      Option (Errno × FileDownloadOperation File × List Sent)
      → StorageOperationManager File Dir
      → Option Iterated
  after_download none m = none
  after_download (some (e, op, frames)) m =
      some (after_iteration e (StorageAccessOperation.file_download op) frames m)

  abbrev pub iterate_operation :
      List Bool
      → Option (StorageAccessOperation File Dir)
      → StorageOperationManager File Dir
      → Option Iterated
  iterate_operation answers none m = some (Errno.success, m, [])
  iterate_operation answers (some (StorageAccessOperation.raw_storage_read op)) m =
      some (after_raw (Raw.iterate readers fs answers op) m)
  iterate_operation answers (some (StorageAccessOperation.directory_listing op)) m =
      some (after_listing (ListingLoop.iterate dirs answers op) m)
  iterate_operation answers (some (StorageAccessOperation.file_download op)) m =
      after_download (Download.iterate files answers op) m

  -- `none`: a null pointer would be followed.
  unfoldable pub iterate : List Bool → StorageOperationManager File Dir → Option Iterated
  unfolding set_operation
  iterate answers m = iterate_operation answers m.operation m
