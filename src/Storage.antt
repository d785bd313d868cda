-- ===== src/Storage.antt =====
-- src/modules/storage.cpp: the filesystems of the storage areas, and what is read from them in
-- answer to requests.
pub mod Filesystem
pub mod Areas
pub mod Requests
pub mod Steps
pub mod Validity
pub mod Invariant
pub mod Reached
pub mod Histories
pub mod Mounting
pub mod Boot
pub mod Setup
pub mod Repair
pub mod Raw
pub mod Fragments
pub mod RawRuns
pub mod RawDownload
pub mod Download
pub mod DownloadRuns
pub mod DownloadLoop
pub mod DownloadEnds
pub mod Downloaded
pub mod Listing
pub mod ListingLoop
pub mod ListingRuns
pub mod Listings
pub mod Manager
mod Tests
mod DownloadTests
mod ListingTests
