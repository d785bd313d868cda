-- ===== src/Storage/Downloaded.antt =====
-- The file download of src/modules/storage.cpp from its start to its end: what it sends.
use obc.Common.{
  ℕ, ◌+◌, ◌-◌, ◌≤◌, ◌<◌, ◌^◌, ◌∙◌, ◌≡◌, ◌≢◌, ap, List, length, Bool, true, false, Option, none,
  some, arith, ◌⊎◌, inl, inr, All,
}
use obc.Common.Words.{ℤ, int32}
use obc.Telem.Generic.FrameType
use obc.Frames.Request.{max_read_length}
use obc.Storage.Filesystem.{LfsError, Errno, convert_littlefs_error_code, FilesystemState}
use obc.Storage.Areas.{Filesystems, get_state}
use obc.Storage.Raw.{Sent, max_fragment_index, cleared_data}
use obc.Storage.Download.{Files, FileDownloadOperation, new, clip, start, start_at, running}
use obc.Storage.Fragments.{Transfer, count}
use obc.Storage.RawDownload.{TakesOne}
use obc.Storage.DownloadRuns.{IsContent, int32-small, HasSent}
use obc.Storage.DownloadEnds.{
  iterations, iterations-Runs, Runs, HoldsTo, EndsWith, Proceeds-HoldsTo, Proceeds-EndsWith,
}

-- The transfer that a request for `n` bytes behind an offset of a file is.
abbrev pub file_transfer : (ℕ → ℕ) → ℕ → ℕ → ℕ → ℕ → ℕ → Transfer
file_transfer image size offset n targets seq_no = record {
  area = 0;
  image = image;
  offset = offset;
  size = clip offset size n;
  targets = targets;
  frame_type = FrameType.file_download;
  seq_no = seq_no;
}

module _ {Disk File : Type 0} (files : Files Disk File) (image : ℕ → ℕ) (size : ℕ) (pos : File → ℕ)
    (laws : IsContent files image size pos) (fs : Filesystems Disk) (area : ℕ)
    (s : FilesystemState Disk) (d : Disk) (present : get_state fs area ≡ some s)
    (mounted : s.mounted ≡ true) (disk : s.fs ≡ some d) (path : List ℕ) (f : File)
    (opened : files.open_file d path ≡ inr f) (n : ℕ) (positive : n ≢ 0)
    (short : n ≤ max_read_length) where
  -- The operation that the request makes.
  abbrev pub begun : ℕ → ℕ → File → FileDownloadOperation File
  begun offset seq_no f' = record {
    targets = 0;
    bytes_left = clip offset size n;
    binary_data = record cleared_data {
      frame_type = FrameType.file_download;
      seq_no = seq_no;
      max_fragment_index = max_fragment_index (clip offset size n);
    };
    file = some f';
  }

  start_at-begun :
      (offset seq_no : ℕ) (r : (LfsError ⊎ ℕ) × File)
      → r.0 ≡ inr offset
      → start_at files offset n seq_no new r ≡ (Errno.success, begun offset seq_no r.1, some size)
  start_at-begun offset seq_no (inl e, f') h = absurd (cc)
  start_at-begun offset seq_no (inr p, f') h = ground (arith, laws.size_all f')

  pub start-begun :
      (offset seq_no : ℕ)
      → offset < 2 ^ 31
      → start files fs area path offset n seq_no new
        ≡ (Errno.success, begun offset seq_no (files.seek f (int32 offset)).1, some size)
  unfolding start running
  start-begun offset seq_no near =
      let r = files.seek f (int32 offset) in
      let sought = ap (files.seek f) (int32-small offset near) in
      let there =
        start_at-begun offset seq_no r (ap (λ a. a.0) sought ∙ laws.seek_answer f offset near) in
      ground (arith, there, present, mounted, disk, opened, positive)

  begun-HasSent :
      (offset targets seq_no : ℕ) (f' : File)
      → pos f' ≡ offset
      → HasSent
          (file_transfer image size offset n targets seq_no)
          pos
          0
          (record (begun offset seq_no f') { targets = targets })
  unfolding clip max_fragment_index
  begun-HasSent offset targets seq_no f' e = ground arith

  begun-fits :
      (offset targets seq_no : ℕ)
      → let t = file_transfer image size offset n targets seq_no in
        t.size ≢ 0 → t.offset + t.size ≤ size
  unfolding clip
  begun-fits offset targets seq_no h = ground arith

  download-Runs :
      (offset targets seq_no : ℕ) (answers : List (List Bool))
      → offset < 2 ^ 31
      → let t = file_transfer image size offset n targets seq_no in
        let op = record (start files fs area path offset n seq_no new).1 { targets = targets } in
        Runs files t size pos laws
          (begun-fits offset targets seq_no)
          0
          answers
          (iterations files answers op)
  download-Runs offset targets seq_no answers near =
      let f' = (files.seek f (int32 offset)).1 in
      let there = ap (λ a. pos a.1) (ap (files.seek f) (int32-small offset near)) in
      rw (start-begun offset seq_no near) (
        iterations-Runs files (file_transfer image size offset n targets seq_no) size pos laws
          (begun-fits offset targets seq_no) answers 0
          (record (begun offset seq_no f') { targets = targets })
          (begun-HasSent offset targets seq_no f' (there ∙ laws.seek_pos f offset near)))

  -- A download of 1 to 8192 bytes of a file of a mounted area, from an offset below 2 ^ 31, with a
  -- library that reads the file: it starts and tells the size of the file, and however often the
  -- queue is full, no null pointer is followed, what is sent are the first fragments of the range
  -- as far as the file has it, in order and each once, and when the download no longer runs all of
  -- them are sent.
  pub file_download_holds :
      (offset targets seq_no : ℕ) (answers : List (List Bool))
      → offset < 2 ^ 31
      → let r = start files fs area path offset n seq_no new in
        let op = record r.1 { targets = targets } in
        (r.0 ≡ Errno.success)
        × (r.2 ≡ some size)
        × HoldsTo (file_transfer image size offset n targets seq_no) (iterations files answers op)
  file_download_holds offset targets seq_no answers near =
      let op = record (start files fs area path offset n seq_no new).1 { targets = targets } in
      (
        ap (λ r. r.0) (start-begun offset seq_no near),
        ap (λ r. r.2) (start-begun offset seq_no near),
        holds (iterations files answers op) (download-Runs offset targets seq_no answers near),
      )
    where
      t : Transfer
      t = file_transfer image size offset n targets seq_no

      holds :
          (o : Option (FileDownloadOperation File × List Sent))
          → Runs files t size pos laws (begun-fits offset targets seq_no) 0 answers o
          → HoldsTo t o
      holds none h = h
      holds (some r) h = Proceeds-HoldsTo t pos r h.0

  -- A download of 1 to 8192 bytes of a file of a mounted area, from an offset below 2 ^ 31, with a
  -- library that reads the file, when the queue takes a frame in each iteration: one iteration for
  -- each fragment ends it, and the frames bring exactly the range as far as the file has it.
  pub file_download_completes :
      (offset targets seq_no : ℕ) (answers : List (List Bool))
      → offset < 2 ^ 31
      → All TakesOne answers
      → count (file_transfer image size offset n targets seq_no) ≤ length answers
      → let op = record (start files fs area path offset n seq_no new).1 { targets = targets } in
        EndsWith (file_transfer image size offset n targets seq_no) (iterations files answers op)
  file_download_completes offset targets seq_no answers near h l =
      let op = record (start files fs area path offset n seq_no new).1 { targets = targets } in
      ends (iterations files answers op) (download-Runs offset targets seq_no answers near)
    where
      t : Transfer
      t = file_transfer image size offset n targets seq_no

      ends :
          (o : Option (FileDownloadOperation File × List Sent))
          → Runs files t size pos laws (begun-fits offset targets seq_no) 0 answers o
          → EndsWith t o
      ends none g = g
      ends (some r) g = Proceeds-EndsWith t pos r g.0 (omega (arith, g.1 h))

  -- From an offset of 2 ^ 31 or more, which is a negative `int`, the same download is refused as
  -- invalid, and nothing runs.
  pub file_download_refused :
      (offset seq_no : ℕ)
      → 2 ^ 31 ≤ offset
      → let r = start files fs area path offset n seq_no new in
        (r.0 ≡ Errno.einval) × (r.2 ≡ none) × (running r.1 ≡ false)
  unfolding start running convert_littlefs_error_code
  file_download_refused offset seq_no far =
      let there =
        refused (files.seek f (int32 offset))
          (ap (λ p. (files.seek f p).0) negative ∙ laws.seek_negative f (4294967295 - offset)) in
      ground (arith, there, present, mounted, disk, opened, positive)
    where
      negative : int32 offset ≡ ℤ.negsuc (4294967295 - offset)
      negative = ground arith

      refused :
          (r : (LfsError ⊎ ℕ) × File)
          → r.0 ≡ inl LfsError.inval
          → start_at files offset n seq_no new r
            ≡ (Errno.einval, record new { file = some r.1 }, none)
      refused (inl e, f') h = cc
      refused (inr p, f') h = absurd (cc)
