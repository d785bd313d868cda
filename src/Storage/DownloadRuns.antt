-- ===== src/Storage/DownloadRuns.antt =====
-- Runs of the file download of src/modules/storage.cpp against the fragments it is to send.
use obc.Common.{
  ℕ, suc, ◌+◌, ◌-◌, ◌*◌, ◌≤◌, ◌≡◌, refl, sym, ap, ◌∙◌, min, List, [], ◌∷◌, ◌++◌, length,
  length-append, true, Option, none, some, arith, inl, inr, ◌<◌, ◌^◌,
}
use obc.Common.Words.{u8, ℤ, int32}
use obc.Frames.Reply.{encode_binary_data_frame}
use obc.Storage.Filesystem.{LfsError}
use obc.Storage.Raw.{Sent}
use obc.Storage.Download.{
  Files, FileDownloadOperation, running, requested, filled, advanced, frame_of,
}
use obc.Storage.Fragments.{
  slice, length-slice, Transfer, count, fragment, fragments, fragments-append,
}

-- How the library behaves on the files of a content: `pos` is the position that a file keeps. A file
-- has less than 2 ^ 31 bytes, any position below that can be sought, and no negative one.
pub record IsContent {Disk File : Type 0} (files : Files Disk File) (image : ℕ → ℕ) (size : ℕ)
    (pos : File → ℕ) : Type 0 where
  pub tell_pos : (f : File) → files.tell f ≡ inr (pos f)
  pub size_all : (f : File) → files.size f ≡ inr size
  pub size_small : size < 2 ^ 31
  pub seek_answer : (f : File) (p : ℕ) → p < 2 ^ 31 → (files.seek f (ℤ.pos p)).0 ≡ inr p
  pub seek_pos : (f : File) (p : ℕ) → p < 2 ^ 31 → pos (files.seek f (ℤ.pos p)).1 ≡ p
  pub seek_negative : (f : File) (n : ℕ) → (files.seek f (ℤ.negsuc n)).0 ≡ inl LfsError.inval
  pub read_answer :
      (f : File) (n : ℕ) → (files.read f n).0 ≡ inr (slice image (pos f) (min n (size - pos f)))
  pub read_pos : (f : File) (n : ℕ) → pos (files.read f n).1 ≡ pos f + min n (size - pos f)

pub int32-small : (n : ℕ) → n < 2 ^ 31 → int32 n ≡ ℤ.pos n
int32-small n h = ground arith

-- The operation has sent the first `k` fragments of a transfer, but for the position of its file.
abbrev pub HeaderSent : {File : Type 0} → Transfer → ℕ → FileDownloadOperation File → Type 0
HeaderSent t k op =
    (op.bytes_left ≡ t.size - 59 * k)
    × (op.targets ≡ t.targets)
    × (op.binary_data.frame_type ≡ t.frame_type)
    × (op.binary_data.seq_no ≡ t.seq_no)
    × (op.binary_data.max_fragment_index ≡ count t - 1)
    × (op.binary_data.fragment_index ≡ u8 k)
    × (k ≤ count t)

module _ {File : Type 0} (t : Transfer) where
  pub advanced-HeaderSent :
      (k : ℕ) (op : FileDownloadOperation File) (f : File) (bs : List ℕ)
      → HeaderSent t k op
      → running op ≡ true
      → length bs ≡ requested op
      → HeaderSent t (suc k) (advanced (filled op f bs))
  unfolding running
  advanced-HeaderSent k op f bs h r l = ground arith

  pub frame_of-HeaderSent :
      (k p : ℕ) (op : FileDownloadOperation File) (f : File) (bs : List ℕ)
      → HeaderSent t k op
      → running op ≡ true
      → p ≡ t.offset + min (59 * k) t.size
      → bs ≡ slice t.image p (requested op)
      → frame_of (filled op f bs) ≡ fragment t k
  unfolding running encode_binary_data_frame
  frame_of-HeaderSent k p op f bs h r e l = ground (arith, length-slice t.image p (requested op))

abbrev pub FileAt : {File : Type 0} → (File → ℕ) → ℕ → Option File → Type 0
FileAt pos p none = ⊥
FileAt pos p (some f) = pos f ≡ p

module _ {File : Type 0} (t : Transfer) (pos : File → ℕ) where
  -- The operation has sent the first `k` fragments, and its file stands behind their bytes.
  abbrev pub HasSent : ℕ → FileDownloadOperation File → Type 0
  HasSent k op = HeaderSent t k op × FileAt pos (t.offset + min (59 * k) t.size) op.file

  -- What was sent are the fragments from `k` on, and the operation stands behind them.
  abbrev pub Proceeds : ℕ → FileDownloadOperation File × List Sent → Type 0
  Proceeds k r = (r.1 ≡ fragments t k (length r.1)) × HasSent (k + length r.1) r.0

  -- The same in the middle of the loop, which keeps the position and the file.
  abbrev pub IsAt : ℕ → ℕ → File → FileDownloadOperation File → Type 0
  IsAt k p f op =
      HeaderSent t k op × (op.file ≡ some f) × (pos f ≡ p) × (p ≡ t.offset + min (59 * k) t.size)

  pub IsAt-HasSent :
      (k p : ℕ) (f : File) (op : FileDownloadOperation File) → IsAt k p f op → HasSent k op
  IsAt-HasSent k p f op h = (h.0, rw (h.1) (h.2 ∙ h.3))

  pub Proceeds-none : (k : ℕ) (op : FileDownloadOperation File) → HasSent k op → Proceeds k (op, [])
  Proceeds-none k op h = let same : k ≡ k + 0 = omega arith in (refl, rw (sym same) h)

  pub Proceeds-sent :
      (k : ℕ) (op : FileDownloadOperation File) (r : FileDownloadOperation File × List Sent)
      → frame_of op ≡ fragment t k
      → Proceeds (suc k) r
      → Proceeds k (r.0, frame_of op ∷ r.1)
  Proceeds-sent k op r e h =
      let next : k + suc (length r.1) ≡ suc k + length r.1 = omega arith in
      (ground (arith, e, h.0), rw (next) h.1)

  pub Proceeds-append :
      (k : ℕ) (r r' : FileDownloadOperation File × List Sent)
      → Proceeds k r
      → Proceeds (k + length r.1) r'
      → Proceeds k (r'.0, r.1 ++ r'.1)
  Proceeds-append k r r' h h' =
      let l = length-append r.1 r'.1 in
      let sum : k + length (r.1 ++ r'.1) ≡ k + length r.1 + length r'.1 = omega (arith, l) in
      (
        ap (λ fs. fs ++ r'.1) h.0
            ∙ ap (λ fs. fragments t k (length r.1) ++ fs) h'.0
            ∙ fragments-append t k (length r.1) (length r'.1)
            ∙ ap (fragments t k) (sym l),
        rw (sum) h'.1,
      )
