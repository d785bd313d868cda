-- ===== src/Storage/DownloadEnds.antt =====
-- The file download of src/modules/storage.cpp over several iterations.
use obc.Common.{
  ℕ, ◌+◌, ◌*◌, ◌≤◌, ◌<◌, ◌≡◌, ◌≢◌, refl, sym, ap, ◌∙◌, min, List, [], ◌∷◌, ◌++◌, length,
  length-append, Bool, true, false, Option, none, some, arith, ◌⊎◌, inl, inr, All,
}
use obc.Storage.Filesystem.{LfsError, Errno}
use obc.Storage.Raw.{Sent}
use obc.Storage.Download.{
  Files, FileDownloadOperation, running, requested, pass, transfer, iterate_on, iterate,
}
use obc.Storage.Fragments.{slice, received, received-all, Transfer, count, fragments}
use obc.Storage.RawDownload.{TakesOne}
use obc.Storage.DownloadRuns.{IsContent, HasSent, IsAt, Proceeds, Proceeds-append, FileAt}
use obc.Storage.DownloadLoop.{transfer-Proceeds}

module _ {File : Type 0} where
  abbrev pub prepend :
      List Sent
      → Option (FileDownloadOperation File × List Sent)
      → Option (FileDownloadOperation File × List Sent)
  prepend frames none = none
  prepend frames (some r) = some (r.0, frames ++ r.1)

  abbrev pub then_run :
      Option (Errno × FileDownloadOperation File × List Sent)
      → (FileDownloadOperation File → Option (FileDownloadOperation File × List Sent))
      → Option (FileDownloadOperation File × List Sent)
  then_run none rest = none
  then_run (some r) rest = prepend r.2 (rest r.1)

-- What iterations send, one after the other; each has its own answers of `sendTelemetry`.
abbrev pub iterations :
    {Disk File : Type 0}
    → Files Disk File
    → List (List Bool)
    → FileDownloadOperation File
    → Option (FileDownloadOperation File × List Sent)
iterations files [] op = some (op, [])
iterations files (answers ∷ more) op = then_run (iterate files answers op) (iterations files more)

module _ {Disk File : Type 0} (files : Files Disk File) (t : Transfer) (size : ℕ) (pos : File → ℕ)
    (laws : IsContent files t.image size pos) (fits : t.size ≢ 0 → t.offset + t.size ≤ size) where
  -- The run does not fail, it proceeds, and by a fragment for each iteration that can.
  abbrev pub Runs : ℕ → List (List Bool) → Option (FileDownloadOperation File × List Sent) → Type 0
  Runs k answers none = ⊥
  Runs k answers (some r) =
      Proceeds t pos k r
      × (All TakesOne answers → min (k + length answers) (count t) ≤ k + length r.1)

  prepend-Runs :
      (k : ℕ) (answers : List Bool) (more : List (List Bool))
      (r : FileDownloadOperation File × List Sent)
      (o : Option (FileDownloadOperation File × List Sent))
      → Proceeds t pos k r
      → (TakesOne answers → k < count t → 1 ≤ length r.1)
      → Runs (k + length r.1) more o
      → Runs k (answers ∷ more) (prepend r.1 o)
  prepend-Runs k answers more r none h g rest = rest
  prepend-Runs k answers more r (some r') h g rest = (
    Proceeds-append t pos k r r' h rest.0,
    λ all. ground (arith, g all.0, rest.1 all.1, length-append r.1 r'.1),
  )

  pass-progress :
      (p : ℕ) (op : FileDownloadOperation File) (r : (LfsError ⊎ List ℕ) × File) (bs : List ℕ)
      (rest : ℕ → File → FileDownloadOperation File → FileDownloadOperation File × List Sent)
      → r.0 ≡ inr bs
      → 1 ≤ length (pass files true p op r rest).1
  pass-progress p op (inl e, f) bs rest h = absurd (cc)
  pass-progress p op (inr cs, f) bs rest h = ground arith

  transfer-progress :
      (answers : List Bool) (k p : ℕ) (f : File) (op : FileDownloadOperation File)
      → TakesOne answers
      → IsAt t pos k p f op
      → k < count t
      → 1 ≤ length (transfer files answers p f op).1
  unfolding running
  transfer-progress [] k p f op h here l = absurd h
  transfer-progress (taken ∷ answers) k p f op h here l = rw (h) (
      ground (
        arith,
        pass-progress p op (files.read f (requested op)) _ (transfer files answers)
            (laws.read_answer f (requested op)),
      ))

  pub iterations-Runs :
      (answers : List (List Bool)) (k : ℕ) (op : FileDownloadOperation File)
      → HasSent t pos k op
      → Runs k answers (iterations files answers op)
  unfolding iterate
  iterations-Runs [] k op sent =
      let same : k ≡ k + 0 = omega arith in ((refl, rw (sym same) sent), λ all. omega arith)
  iterations-Runs (answers ∷ more) k op sent =
      found (λ j op' h. iterations-Runs more j op' h) op.file refl sent.1
    where
      found :
          ((j : ℕ) (op' : FileDownloadOperation File)
            → HasSent t pos j op'
            → Runs j more (iterations files more op'))
          → (o : Option File) → op.file ≡ o
          → FileAt pos (t.offset + min (59 * k) t.size) o
          → Runs k
              (answers ∷ more)
              (then_run (iterate_on files answers op o) (iterations files more))
      found runs none e f = f
      found runs (some f) e at_pos =
          let r = transfer files answers (pos f) f op in
          let here : IsAt t pos k (pos f) f op = (sent.0, e, refl, at_pos) in
          let proceeds = transfer-Proceeds files t size pos laws fits answers k (pos f) f op here in
          rw (laws.tell_pos f) (
            prepend-Runs k answers more r (iterations files more r.0) proceeds
              (λ h l. transfer-progress answers k (pos f) f op h here l)
              (runs (k + length r.1) r.0 proceeds.1))

-- What a download has come to when it ends well: the whole of the range is sent, and it stopped.
abbrev pub EndsWith :
    {File : Type 0} → Transfer → Option (FileDownloadOperation File × List Sent) → Type 0
EndsWith t none = ⊥
EndsWith t (some r) =
    (running r.0 ≡ false)
    × (r.1 ≡ fragments t 0 (count t))
    × (received r.1 ≡ slice t.image t.offset t.size)

-- What a download has come to: the first fragments are sent, and all of them if it stopped.
abbrev pub HoldsTo :
    {File : Type 0} → Transfer → Option (FileDownloadOperation File × List Sent) → Type 0
HoldsTo t none = ⊥
HoldsTo t (some r) =
    (r.1 ≡ fragments t 0 (length r.1))
    × (length r.1 ≤ count t)
    × (running r.0 ≡ false → r.1 ≡ fragments t 0 (count t))

module _ {File : Type 0} (t : Transfer) (pos : File → ℕ)
    (r : FileDownloadOperation File × List Sent) where
  pub Proceeds-HoldsTo : Proceeds t pos 0 r → HoldsTo t (some r)
  unfolding running
  Proceeds-HoldsTo h =
      let all : running r.0 ≡ false → length r.1 ≡ count t = λ e. ground (arith, h.1.0) in
      (h.0, omega (arith, h.1.0.6), λ e. h.0 ∙ ap (fragments t 0) (all e))

  pub Proceeds-EndsWith : Proceeds t pos 0 r → count t ≤ length r.1 → EndsWith t (some r)
  unfolding running
  Proceeds-EndsWith h l =
      let stopped : running r.0 ≡ false = ground (arith, h.1.0) in
      let all = (Proceeds-HoldsTo h).2 stopped in (stopped, all, ap received all ∙ received-all t)
