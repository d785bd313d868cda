-- ===== src/Storage/ListingTests.antt =====
-- Listings of a small concrete directory.
use obc.Common.{◌≡◌, refl, ap, List, [], ◌∷◌, Bool, true, false, none, some, ◌⊎◌, inl, inr, arith}
use obc.Storage.Filesystem.{LfsError, Errno}
use obc.Storage.Listing.{Entry, Dirs, new_handle, begun}
use obc.Storage.Listing
use obc.Storage.ListingLoop
use obc.Storage.ListingRuns.{IsDirectory, Lists, messages}
use obc.Storage.Listings.{listing_starts_at_first, listing-Lists, listing_loses}
use obc.Storage.Tests.{mounted_at, up, up-card}

-- A directory of two entries; an open directory is the list of the entries still to be read.
abbrev root : List Entry
root =
    record { name = 0x61 ∷ []; is_dir = true; size = 0 }
    ∷ record { name = 0x62 ∷ 0x63 ∷ []; is_dir = false; size = 7 }
    ∷ []

abbrev read_next : List Entry → (LfsError ⊎ Entry) × List Entry
read_next [] = (inl LfsError.noent, [])
read_next (e ∷ es) = (inr e, es)

abbrev dirs : Dirs Bool (List Entry)
dirs = record {
  dir_open = λ d path. inr root;
  dir_read = read_next;
  dir_rewind = λ d. (none, root);
}

dirs-IsDirectory : IsDirectory dirs (λ d. d)
dirs-IsDirectory = record {
  read_answer = λ d e es h. ap (λ x. (read_next x).0) h;
  read_rest = λ d e es h. ap (λ x. (read_next x).1) h;
  read_end = λ d h. ap (λ x. (read_next x).0) h;
}

listing_starts_at_first_example :
    Listing.start dirs 0 up 2 [] 1 5 77 Listing.new
    ≡ some (Errno.success, begun 1 5 77 (record Listing.new { dir = some (new_handle root) }))
listing_starts_at_first_example =
    listing_starts_at_first dirs (λ d. d) dirs-IsDirectory up 2 (mounted_at 2) true up-card refl
      refl [] root refl refl 5 (ground arith) 0 1 77

listing-Lists_example :
    let op = begun 1 5 77 (record Listing.new { dir = some (new_handle root) }) in
    Lists
      (record { targets = 3; seq_no = 77; max_entry_index = 4 })
      0
      5
      root
      (ListingLoop.iterate dirs (true ∷ true ∷ true ∷ true ∷ true ∷ []) (record op { targets = 3 }))
listing-Lists_example =
    listing-Lists dirs (λ d. d) dirs-IsDirectory up 2 (mounted_at 2) true up-card refl refl [] root
      refl refl 5 (ground arith) 1 77 3 (true ∷ true ∷ true ∷ true ∷ true ∷ []) (omega arith)
      (refl, (refl, (refl, (refl, (refl, tt))))) (omega arith)

abbrev before_first : Listing.DirectoryListingOperation (List Entry)
before_first = record (begun 0 2 77 (record Listing.new { dir = some (new_handle root) })) {
  targets = 3;
}

listing_loses_example :
    let r = ListingLoop.iterate dirs (false ∷ []) before_first in
    (r.2 ≡ [])
    × ((ListingLoop.iterate dirs (true ∷ true ∷ []) r.1).2
        ≡ messages
            (record { targets = 3; seq_no = 77; max_entry_index = 1 })
            0
            2
            (record { name = 0x62 ∷ 0x63 ∷ []; is_dir = false; size = 7 } ∷ []))
listing_loses_example =
    listing_loses dirs (λ d. d) dirs-IsDirectory
      (record { targets = 3; seq_no = 77; max_entry_index = 1 }) 0 1 _ _ (new_handle root)
      before_first (true ∷ true ∷ []) (refl, refl, refl, refl, refl, refl, refl, refl, refl)
      (refl, (refl, tt)) (omega arith)
