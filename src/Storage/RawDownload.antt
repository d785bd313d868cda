-- ===== src/Storage/RawDownload.antt =====
-- The raw download of src/modules/storage.cpp from its start to its end.
use obc.Common.{
  ℕ, ◌+◌, ◌^◌, ◌≤◌, ◌<◌, ◌≡◌, ◌≢◌, refl, ap, ◌∙◌, min, List, [], ◌∷◌, ◌++◌, length, length-append,
  Bool, true, false, none, some, arith, All,
}
use obc.Telem.Generic.FrameType
use obc.Storage.Filesystem.{FilesystemState}
use obc.Storage.Areas.{Filesystems, get_state}
use obc.Storage.Raw.{
  Sent, Readers, read_raw_data, RawStorageReadOperation, new, running, max_fragment_index, start,
  requested, transfer, transfer_from, iterate,
}
use obc.Storage.Fragments.{received, received-all, slice, Transfer, count, fragments}
use obc.Storage.RawRuns.{HasSent, Proceeds, Reads, transfer-Proceeds, Proceeds-append}

-- What iterations send, one after the other; each has its own answers of `sendTelemetry`.
abbrev pub iterations :
    {Disk : Type 0}
    → Readers
    → Filesystems Disk
    → List (List Bool)
    → RawStorageReadOperation
    → RawStorageReadOperation × List Sent
iterations readers fs [] op = (op, [])
iterations readers fs (answers ∷ more) op =
    let r = iterate readers fs answers op in
    let rest = iterations readers fs more r.1 in (rest.0, r.2 ++ rest.1)

-- The operation that a request starts, with the targets that it is given then.
abbrev pub started : Transfer → RawStorageReadOperation
started t = record (start t.area t.offset t.size t.seq_no new).1 { targets = t.targets }

-- A request for a raw download of 1 to 15104 bytes below 2 ^ 64. These are 256 fragments at most, as
-- many as a byte can number; the longest read of the protocol is 8192 bytes, but longer ones are not
-- refused.
abbrev pub IsRequest : Transfer → Type 0
IsRequest t =
    (t.size ≢ 0)
    × (t.size ≤ 15104)
    × (t.offset + t.size < 2 ^ 64)
    × (t.frame_type ≡ FrameType.storage)

pub started-HasSent : (t : Transfer) → IsRequest t → HasSent t 0 (started t)
unfolding start running max_fragment_index
started-HasSent t h = ground arith

-- An iteration in which the queue takes at least one frame.
abbrev pub TakesOne : List Bool → Type 0
TakesOne [] = ⊥
TakesOne (taken ∷ answers) = taken ≡ true

module _ (t : Transfer) (request : IsRequest t) {Disk : Type 0} (readers : Readers)
    (fs : Filesystems Disk) (s : FilesystemState Disk) (present : get_state fs t.area ≡ some s)
    (reads : Reads t readers s) where
  iterate-found :
      (answers : List Bool) (k : ℕ) (op : RawStorageReadOperation)
      → HasSent t k op
      → iterate readers fs answers op ≡ transfer_from readers (some s) answers op
  unfolding iterate
  iterate-found answers k op h =
      ap (λ o. transfer_from readers o answers op) (ap (get_state fs) (h.8) ∙ present)

  iterate-Proceeds :
      (answers : List Bool) (k : ℕ) (op : RawStorageReadOperation)
      → HasSent t k op
      → let r = iterate readers fs answers op in Proceeds t k (r.1, r.2)
  iterate-Proceeds answers k op h =
      rw (iterate-found answers k op h)
        (transfer-Proceeds t request.2 readers s reads answers k op h)

  iterations-Proceeds :
      (answers : List (List Bool)) (k : ℕ) (op : RawStorageReadOperation)
      → HasSent t k op
      → Proceeds t k (iterations readers fs answers op)
  iterations-Proceeds [] k op h = (refl, ground (arith, h))
  iterations-Proceeds (answers ∷ more) k op h =
      let r = iterate readers fs answers op in
      let here = iterate-Proceeds answers k op h in
      Proceeds-append t k (r.1, r.2) (iterations readers fs more r.1) here
        (iterations-Proceeds more (k + length r.2) r.1 here.1)

  -- A raw download of 1 to 15104 bytes that end below 2 ^ 64, of an area that has a filesystem,
  -- whose drive reads nothing but the image, however often it fails to read and however often the
  -- queue is full: it has sent the first fragments of the range, in order and each once, and when
  -- it no longer runs it has sent all of them.
  pub raw_download_sends :
      (answers : List (List Bool))
      → let r = iterations readers fs answers (started t) in
        (r.1 ≡ fragments t 0 (length r.1))
        × (length r.1 ≤ count t)
        × (running r.0 ≡ false → r.1 ≡ fragments t 0 (count t))
  unfolding running
  raw_download_sends answers =
      let h = iterations-Proceeds answers 0 (started t) (started-HasSent t request) in
      let n = length (iterations readers fs answers (started t)).1 in
      (h.0, omega (arith, h.1.7), λ e. h.0 ∙ ap (fragments t 0) (ground (arith, h.1)))

  transfer-progress :
      (answers : List Bool) (k : ℕ) (op : RawStorageReadOperation)
      → ((a n : ℕ) → read_raw_data readers s a n ≢ none)
      → TakesOne answers
      → HasSent t k op
      → k < count t
      → 1 ≤ length (transfer readers s answers op).1
  unfolding running
  transfer-progress [] k op total h sent l = absurd h
  transfer-progress (taken ∷ answers) k op total h sent l =
      ground (arith, total op.address (requested op))

  iterations-progress :
      (answers : List (List Bool)) (k : ℕ) (op : RawStorageReadOperation)
      → ((a n : ℕ) → read_raw_data readers s a n ≢ none)
      → All TakesOne answers
      → HasSent t k op
      → min (k + length answers) (count t) ≤ k + length (iterations readers fs answers op).1
  iterations-progress [] k op total h sent = omega arith
  iterations-progress (answers ∷ more) k op total h sent =
      let r = iterate readers fs answers op in
      let rest = (iterations readers fs more r.1).1 in
      let here = iterate-Proceeds answers k op sent in
      let later = iterations-progress more (k + length r.2) r.1 total h.1 here.1 in
      let first : k < count t → 1 ≤ length r.2 = λ l.
        rw (iterate-found answers k op sent) (transfer-progress answers k op total h.0 sent l) in
      ground (arith, later, first, length-append r.2 rest)

  -- A raw download of 1 to 15104 bytes that end below 2 ^ 64, of an area that has a filesystem,
  -- whose drive reads the image and never fails: one iteration for each fragment is enough to end
  -- it, as long as the queue takes a frame in each; all fragments are then sent, and they bring
  -- exactly the range.
  pub raw_download_completes :
      (answers : List (List Bool))
      → ((a n : ℕ) → read_raw_data readers s a n ≢ none)
      → All TakesOne answers
      → count t ≤ length answers
      → let r = iterations readers fs answers (started t) in
        (running r.0 ≡ false)
        × (r.1 ≡ fragments t 0 (count t))
        × (received r.1 ≡ slice t.image t.offset t.size)
  unfolding running
  raw_download_completes answers total h l =
      let sent = iterations-Proceeds answers 0 (started t) (started-HasSent t request) in
      let some_sent =
        iterations-progress answers 0 (started t) total h (started-HasSent t request) in
      let stopped : running (iterations readers fs answers (started t)).0 ≡ false =
        ground (arith, sent.1, some_sent) in
      let all_sent = (raw_download_sends answers).2 stopped in
      (stopped, all_sent, ap received all_sent ∙ received-all t)
