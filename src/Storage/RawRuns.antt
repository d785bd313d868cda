-- ===== src/Storage/RawRuns.antt =====
-- Runs of the raw download of src/modules/storage.cpp against the fragments it is to send.
use obc.Common.{
  if-intro, ℕ, suc, ◌+◌, ◌-◌, ◌*◌, ◌^◌, ◌≤◌, ◌<◌, ◌≡◌, refl, sym, ap, ◌∙◌, min, List, [], ◌∷◌, ◌++◌,
  length, length-append, Bool, true, false, Option, none, some, arith,
}
use obc.Common.Words.{u8}
use obc.Frames.Reply.{encode_binary_data_frame}
use obc.Storage.Filesystem.{FilesystemState}
use obc.Storage.Raw.{
  Sent, Readers, read_raw_data, RawStorageReadOperation, running, requested, filled, advanced,
  frame_of, pass, transfer,
}
use obc.Storage.Fragments.{slice, Transfer, count, fragment, fragments, fragments-append}

-- The operation has sent the first `k` fragments of a transfer.
abbrev pub HasSent : Transfer → ℕ → RawStorageReadOperation → Type 0
HasSent t k op =
    (op.address ≡ t.offset + min (59 * k) t.size)
    × (op.bytes_left ≡ t.size - 59 * k)
    × (op.targets ≡ t.targets)
    × (op.binary_data.frame_type ≡ t.frame_type)
    × (op.binary_data.seq_no ≡ t.seq_no)
    × (op.binary_data.max_fragment_index ≡ count t - 1)
    × (op.binary_data.fragment_index ≡ u8 k)
    × (k ≤ count t)
    × (op.area ≡ t.area)

module _ (t : Transfer) (fits : t.offset + t.size < 2 ^ 64) where
  pub advanced-HasSent :
      (k : ℕ) (op : RawStorageReadOperation) (bs : List ℕ)
      → HasSent t k op
      → running op ≡ true
      → HasSent t (suc k) (advanced (filled op bs))
  unfolding running
  advanced-HasSent k op bs h r = ground arith

  pub frame_of-HasSent :
      (k : ℕ) (op : RawStorageReadOperation)
      → HasSent t k op
      → running op ≡ true
      → frame_of (filled op (slice t.image op.address (requested op))) ≡ fragment t k
  unfolding running encode_binary_data_frame
  frame_of-HasSent k op h r = ground arith

module _ (t : Transfer) where
  -- What was sent are the fragments from `k` on, and the operation stands behind them.
  abbrev pub Proceeds : ℕ → RawStorageReadOperation × List Sent → Type 0
  Proceeds k r = (r.1 ≡ fragments t k (length r.1)) × HasSent t (k + length r.1) r.0

  -- A drive that reads nothing but the image.
  abbrev pub Reads : {Disk : Type 0} → Readers → FilesystemState Disk → Type 0
  Reads readers s =
      (a n : ℕ) (bs : List ℕ) → read_raw_data readers s a n ≡ some bs → bs ≡ slice t.image a n

  pub Proceeds-none : (k : ℕ) (op : RawStorageReadOperation) → HasSent t k op → Proceeds k (op, [])
  Proceeds-none k op h = (refl, ground (arith, h))

  pub Proceeds-sent :
      (k : ℕ) (op : RawStorageReadOperation) (r : RawStorageReadOperation × List Sent)
      → frame_of op ≡ fragment t k
      → Proceeds (suc k) r
      → Proceeds k (r.0, frame_of op ∷ r.1)
  Proceeds-sent k op r e h = (ground (arith, e, h.0), ground (arith, h.1))

  pub Proceeds-append :
      (k : ℕ) (r r' : RawStorageReadOperation × List Sent)
      → Proceeds k r
      → Proceeds (k + length r.1) r'
      → Proceeds k (r'.0, r.1 ++ r'.1)
  Proceeds-append k r r' h h' =
      let m = length r.1 in
      let m' = length r'.1 in
      let l = length-append r.1 r'.1 in
      (
        ap (λ fs. fs ++ r'.1) h.0
            ∙ ap (λ fs. fragments t k m ++ fs) h'.0
            ∙ fragments-append t k m m'
            ∙ ap (fragments t k) (sym l),
        ground (arith, h'.1, l),
      )

module _ (t : Transfer) (fits : t.offset + t.size < 2 ^ 64) {Disk : Type 0} (readers : Readers)
    (s : FilesystemState Disk) (reads : Reads t readers s) where
  pass-Proceeds :
      (taken : Bool) (k : ℕ) (op : RawStorageReadOperation) (o : Option (List ℕ))
      (rest : RawStorageReadOperation → RawStorageReadOperation × List Sent)
      → HasSent t k op
      → running op ≡ true
      → read_raw_data readers s op.address (requested op) ≡ o
      → ((op' : RawStorageReadOperation) → HasSent t (suc k) op' → Proceeds t (suc k) (rest op'))
      → Proceeds t k (pass taken op o rest)
  pass-Proceeds taken k op none rest h r e f = Proceeds-none t k op h
  pass-Proceeds false k op (some bs) rest h r e f = Proceeds-none t k (filled op bs) h
  pass-Proceeds true k op (some bs) rest h r e f =
      Proceeds-sent t k (filled op bs) (rest (advanced (filled op bs)))
        (ap (λ cs. frame_of (filled op cs)) (reads op.address (requested op) bs e)
          ∙ frame_of-HasSent t fits k op h r)
        (f (advanced (filled op bs)) (advanced-HasSent t fits k op bs h r))

  pub transfer-Proceeds :
      (answers : List Bool) (k : ℕ) (op : RawStorageReadOperation)
      → HasSent t k op
      → Proceeds t k (transfer readers s answers op)
  transfer-Proceeds [] k op h =
      if-intro (Proceeds t k) (running op)
        (λ r.
          pass-Proceeds false k op (read_raw_data readers s op.address (requested op))
            (λ op'. (op', [])) h r refl (Proceeds-none t (suc k)))
        (λ r. Proceeds-none t k op h)
  transfer-Proceeds (taken ∷ answers) k op h =
      if-intro (Proceeds t k) (running op)
        (λ r.
          pass-Proceeds taken k op (read_raw_data readers s op.address (requested op))
            (transfer readers s answers) h r refl (transfer-Proceeds answers (suc k)))
        (λ r. Proceeds-none t k op h)
