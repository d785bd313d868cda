-- ===== src/Storage/DownloadTests.antt =====
-- Downloads of memories and of files with small concrete drivers and files.
use obc.Common.{
  ℕ, ◌+◌, ◌-◌, ◌≡◌, ◌≢◌, ◌≤◌, refl, min, List, [], ◌∷◌, Bool, true, false, none, some, inl, inr,
  ◌⊎◌, length, arith,
}
use obc.Common.Words.{ℤ}
use obc.Storage.Filesystem.{LfsError, Errno}
use obc.Storage.Raw.{Readers, read_raw_data}
use obc.Storage.Raw
use obc.Storage.Fragments.{slice, Transfer, count, fragments, received}
use obc.Storage.RawRuns.{Reads}
use obc.Storage.RawDownload.{iterations, started, raw_download_sends, raw_download_completes}
use obc.Storage.Download.{Files}
use obc.Storage.Download
use obc.Storage.DownloadRuns.{IsContent}
use obc.Storage.DownloadEnds
use obc.Storage.DownloadEnds.{HoldsTo, EndsWith}
use obc.Storage.Downloaded.{file_transfer, file_download_holds, file_download_completes}
use obc.Storage.Tests.{mounted_at, up, up-flash}

-- A flash memory whose bytes are the low bytes of their addresses.
abbrev image : ℕ → ℕ
image a = a - 4000

abbrev readers : Readers
readers = record {
  flash_read_data = λ a n. some (slice image a n);
  sd_card_read_data = λ a n. none;
}

abbrev raw_request : Transfer
raw_request = record {
  area = 1;
  image = image;
  offset = 4096;
  size = 130;
  targets = 1;
  frame_type = 6;
  seq_no = 9;
}

raw_request-Reads : Reads raw_request readers (mounted_at 1)
unfolding read_raw_data
raw_request-Reads a n bs e = cc

never_fails : (a n : ℕ) → read_raw_data readers (mounted_at 1) a n ≢ none
unfolding read_raw_data
never_fails a n e = absurd (cc)

abbrev three_iterations : List (List Bool)
three_iterations = (true ∷ false ∷ []) ∷ (true ∷ []) ∷ (true ∷ true ∷ []) ∷ []

raw_download_sends_example :
    let r = iterations readers up three_iterations (started raw_request) in
    (r.1 ≡ fragments raw_request 0 (length r.1))
    × (length r.1 ≤ count raw_request)
    × (Raw.running r.0 ≡ false → r.1 ≡ fragments raw_request 0 (count raw_request))
raw_download_sends_example =
    raw_download_sends raw_request (ground arith, omega arith, omega arith, refl) readers up
      (mounted_at 1) up-flash raw_request-Reads three_iterations

raw_download_completes_example :
    let r = iterations readers up three_iterations (started raw_request) in
    (Raw.running r.0 ≡ false)
    × (r.1 ≡ fragments raw_request 0 (count raw_request))
    × (received r.1 ≡ slice image 4096 130)
raw_download_completes_example =
    raw_download_completes raw_request (ground arith, omega arith, omega arith, refl) readers up
      (mounted_at 1) up-flash raw_request-Reads three_iterations never_fails
      (refl, (refl, (refl, tt))) (omega arith)

-- A file of 100 bytes; an open file is its position.
abbrev seek_to : ℕ → ℤ → (LfsError ⊎ ℕ) × ℕ
seek_to f (ℤ.pos p) = (inr p, p)
seek_to f (ℤ.negsuc n) = (inl LfsError.inval, f)

abbrev files : Files Bool ℕ
files = record {
  open_file = λ d path. inr 0;
  seek = seek_to;
  tell = λ f. inr f;
  size = λ f. inr 100;
  read = λ f n. (inr (slice image f (min n (100 - f))), f + min n (100 - f));
}

files-IsContent : IsContent files image 100 (λ f. f)
files-IsContent = record {
  tell_pos = λ f. refl;
  size_all = λ f. refl;
  size_small = omega arith;
  seek_answer = λ f p h. refl;
  seek_pos = λ f p h. refl;
  seek_negative = λ f n. refl;
  read_answer = λ f n. refl;
  read_pos = λ f n. refl;
}

file_download_holds_example :
    let r = Download.start files up 1 (0x61 ∷ []) 30 200 4 Download.new in
    (r.0 ≡ Errno.success)
    × (r.2 ≡ some 100)
    × HoldsTo
        (file_transfer image 100 30 200 2 4)
        (DownloadEnds.iterations files three_iterations (record r.1 { targets = 2 }))
file_download_holds_example =
    file_download_holds files image 100 (λ f. f) files-IsContent up 1 (mounted_at 1) true up-flash
      refl refl (0x61 ∷ []) 0 refl 200 (ground arith) (omega arith) 30 2 4 three_iterations
      (omega arith)

file_download_completes_example :
    let r = Download.start files up 1 (0x61 ∷ []) 30 200 4 Download.new in
    EndsWith
      (file_transfer image 100 30 200 2 4)
      (DownloadEnds.iterations files three_iterations (record r.1 { targets = 2 }))
unfolding Download.clip
file_download_completes_example =
    file_download_completes files image 100 (λ f. f) files-IsContent up 1 (mounted_at 1) true
      up-flash refl refl (0x61 ∷ []) 0 refl 200 (ground arith) (omega arith) 30 2 4 three_iterations
      (omega arith) (refl, (refl, (refl, tt))) (omega arith)
