-- ===== src/Storage/Histories.antt =====
-- The invariant of the filesystems of src/modules/storage.cpp in all histories.
use obc.Common.{◌≡◌, ◌⊎◌, [], ◌∷◌, none}
use obc.Storage.Areas.{Filesystems}
use obc.Storage.Validity.{IsValid}

module _ {Disk : Type 0} where
  -- No area has a filesystem.
  abbrev pub gone : Filesystems Disk
  gone = none ∷ none ∷ none ∷ []

  -- Either the filesystems are valid, or the module was shut down.
  abbrev pub IsValidOrGone : Filesystems Disk → Type 0
  IsValidOrGone fs = IsValid fs ⊎ (fs ≡ gone)
