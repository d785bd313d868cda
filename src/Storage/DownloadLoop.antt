-- ===== src/Storage/DownloadLoop.antt =====
-- The loop of the file download of src/modules/storage.cpp on a file of a known content.
use obc.Common.{
  if-intro, ℕ, suc, ◌+◌, ◌-◌, ◌*◌, ◌≤◌, ◌<◌, ◌^◌, ◌≡◌, ◌≢◌, ◌==◌, refl, ap, ◌∙◌, min, List, [], ◌∷◌,
  length, Bool, true, false, arith, ◌⊎◌, inl, inr,
}
use obc.Common.Words.{int32}
use obc.Storage.Filesystem.{LfsError}
use obc.Storage.Raw.{Sent}
use obc.Storage.Download.{
  Files, FileDownloadOperation, running, requested, filled, advanced, rewound, pass, transfer,
}
use obc.Storage.Fragments.{slice, length-slice, Transfer}
use obc.Storage.DownloadRuns.{
  IsContent, int32-small, HeaderSent, HasSent, IsAt, IsAt-HasSent, Proceeds, Proceeds-none,
  Proceeds-sent, advanced-HeaderSent, frame_of-HeaderSent,
}

module _ {Disk File : Type 0} (files : Files Disk File) (t : Transfer) (size : ℕ) (pos : File → ℕ)
    (laws : IsContent files t.image size pos) (fits : t.size ≢ 0 → t.offset + t.size ≤ size) where
  rewound-HasSent :
      (k p : ℕ) (op : FileDownloadOperation File) (r : (LfsError ⊎ ℕ) × File)
      → HeaderSent t k op
      → p ≡ t.offset + min (59 * k) t.size
      → r.0 ≡ inr p
      → pos r.1 ≡ p
      → HasSent t pos k (rewound files op r)
  rewound-HasSent k p op (inl e, f) h l a b = absurd (cc)
  rewound-HasSent k p op (inr q, f) h l a b = (h, b ∙ l)

  pub read-requested :
      (k p : ℕ) (f : File) (op : FileDownloadOperation File)
      → IsAt t pos k p f op
      → running op ≡ true
      → let r = files.read f (requested op) in
        (r.0 ≡ inr (slice t.image p (requested op))) × (pos r.1 ≡ p + requested op)
  unfolding running
  read-requested k p f op h r =
      let n = requested op in
      let all : min n (size - pos f) ≡ n = ground (arith, h.0, h.2, h.3, fits) in
      (
        laws.read_answer f n
            ∙ ap inr (ap (slice t.image (pos f)) all ∙ ap (λ q. slice t.image q n) (h.2)),
        laws.read_pos f n ∙ ground (arith, all, h.2),
      )

  length-read :
      (p : ℕ) (op : FileDownloadOperation File) (bs : List ℕ)
      → bs ≡ slice t.image p (requested op)
      → length bs ≡ requested op
  length-read p op bs e = ap length e ∙ length-slice t.image p (requested op)

  filled-HeaderSent :
      (k : ℕ) (f : File) (op : FileDownloadOperation File) (bs : List ℕ)
      → HeaderSent t k op
      → running op ≡ true
      → length bs ≡ requested op
      → HeaderSent t k (filled op f bs)
  unfolding running
  filled-HeaderSent k f op bs h r l = ground arith

  advanced-IsAt :
      (k p : ℕ) (f f' : File) (op : FileDownloadOperation File) (bs : List ℕ)
      → IsAt t pos k p f op
      → running op ≡ true
      → length bs ≡ requested op
      → pos f' ≡ p + requested op
      → IsAt t pos (suc k) (p + length bs) f' (advanced (filled op f' bs))
  unfolding running
  advanced-IsAt k p f f' op bs h r l b =
      (advanced-HeaderSent t k op f' bs h.0 r l, refl, ground arith, ground arith)

  requested-positive : (op : FileDownloadOperation File) → running op ≡ true → requested op ≢ 0
  unfolding running
  requested-positive op r = ground arith

  inside-small :
      (k p : ℕ) (f : File) (op : FileDownloadOperation File)
      → IsAt t pos k p f op
      → running op ≡ true
      → p < 2 ^ 31
  unfolding running
  inside-small k p f op h r = ground (arith, h.0, h.3, fits, laws.size_small)

  pass-Proceeds :
      (taken : Bool) (k p : ℕ) (f : File) (op : FileDownloadOperation File)
      (r : (LfsError ⊎ List ℕ) × File)
      (rest : ℕ → File → FileDownloadOperation File → FileDownloadOperation File × List Sent)
      → IsAt t pos k p f op
      → running op ≡ true
      → r.0 ≡ inr (slice t.image p (requested op))
      → pos r.1 ≡ p + requested op
      → ((p' : ℕ) (f' : File) (op' : FileDownloadOperation File)
          → IsAt t pos (suc k) p' f' op'
          → Proceeds t pos (suc k) (rest p' f' op'))
      → Proceeds t pos k (pass files taken p op r rest)
  pass-Proceeds taken k p f op (inl e, f') rest h r a b g = absurd (cc)
  pass-Proceeds false k p f op (inr bs, f') rest h r a b g =
      let small = inside-small k p f op h r in
      let r' = files.seek f' (int32 p) in
      let sought = ap (files.seek f') (int32-small p small) in
      Proceeds-none t pos k (rewound files (filled op f' bs) r') (
        rewound-HasSent k p (filled op f' bs) r'
          (filled-HeaderSent k f' op bs h.0 r (length-read p op bs (cc))) h.3
          (ap (λ a. a.0) sought ∙ laws.seek_answer f' p small)
          (ap (λ a. pos a.1) sought ∙ laws.seek_pos f' p small))
  pass-Proceeds true k p f op (inr bs, f') rest h r a b g =
      let read : bs ≡ slice t.image p (requested op) = cc in
      let l = length-read p op bs read in
      let op' = filled op f' bs in
      if-intro (Proceeds t pos k) (length bs == 0)
        (λ e. absurd (requested-positive op r (ground (arith, l, e))))
        (λ e.
          Proceeds-sent t pos k op' (rest (p + length bs) f' (advanced op'))
            (frame_of-HeaderSent t k p op f' bs h.0 r h.3 read)
            (g (p + length bs) f' (advanced op') (advanced-IsAt k p f f' op bs h r l b)))

  pub transfer-Proceeds :
      (answers : List Bool) (k p : ℕ) (f : File) (op : FileDownloadOperation File)
      → IsAt t pos k p f op
      → Proceeds t pos k (transfer files answers p f op)
  transfer-Proceeds [] k p f op h =
      if-intro (Proceeds t pos k) (running op)
        (λ r.
          let read = read-requested k p f op h r in
          pass-Proceeds false k p f op (files.read f (requested op)) (λ p' f' op'. (op', [])) h r
            read.0 read.1
            (λ p' f' op' h'.
              Proceeds-none t pos (suc k) op' (IsAt-HasSent t pos (suc k) p' f' op' h')))
        (λ r. Proceeds-none t pos k op (IsAt-HasSent t pos k p f op h))
  transfer-Proceeds (taken ∷ answers) k p f op h =
      if-intro (Proceeds t pos k) (running op)
        (λ r.
          let read = read-requested k p f op h r in
          pass-Proceeds taken k p f op (files.read f (requested op)) (transfer files answers) h r
            read.0 read.1 (transfer-Proceeds answers (suc k)))
        (λ r. Proceeds-none t pos k op (IsAt-HasSent t pos k p f op h))
