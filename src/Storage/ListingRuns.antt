-- ===== src/Storage/ListingRuns.antt =====
-- Runs of the directory listing of src/modules/storage.cpp.
use obc.Common.{
  ℕ, zero, suc, ◌+◌, ◌≤◌, ◌≡◌, not, refl, ap, ap₂, ◌∙◌, List, [], ◌∷◌, length, ltb, if◌then◌else◌,
  Bool, true, false, some, arith, ◌⊎◌, inl, inr, All,
}
use obc.Common.Words.{u8}
use obc.Telem.Generic.FrameType
use obc.Frames.Reply.{encode_directory_entry_frame}
use obc.Storage.Filesystem.{LfsError, Errno}
use obc.Storage.Raw.{Sent}
use obc.Storage.Listing.{
  Entry, Dirs, SmartDirHandle, DirectoryListingOperation, after_dir_read, read, running, cancel,
}
use obc.Storage.ListingLoop.{
  Listed, name_of, named, ended, frame_of, advanced, send_entry, pass, pass_on, iterate,
}

-- How the library behaves on a directory: `rest` are the entries that are still to be read.
pub record IsDirectory {Disk Dir : Type 0} (dirs : Dirs Disk Dir) (rest : Dir → List Entry)
    : Type 0 where
  pub read_answer :
      (d : Dir) (e : Entry) (es : List Entry) → rest d ≡ e ∷ es → (dirs.dir_read d).0 ≡ inr e
  pub read_rest :
      (d : Dir) (e : Entry) (es : List Entry) → rest d ≡ e ∷ es → rest (dirs.dir_read d).1 ≡ es
  pub read_end : (d : Dir) → rest d ≡ [] → (dirs.dir_read d).0 ≡ inl LfsError.noent

-- The request that a listing answers.
pub record Listing : Type 0 where
  pub targets : ℕ
  pub seq_no : ℕ
  pub max_entry_index : ℕ

-- The message for an entry, or for the end.
abbrev pub entry_frame : Listing → ℕ → ℕ → List ℕ → Sent
entry_frame l max k name = record {
  targets = l.targets;
  frame_type = FrameType.directory_entry;
  payload = encode_directory_entry_frame (record {
    frame_type = FrameType.directory_listing;
    seq_no = l.seq_no;
    max_entry_index = max;
    entry_index = k;
    name = name;
  });
}

-- What a listing of at most `n` entries is to send: the entries, numbered, and a message without
-- a name where they end before.
abbrev pub messages : Listing → ℕ → ℕ → List Entry → List Sent
messages l k zero es = []
messages l k (suc n) [] = entry_frame l k k [] ∷ []
messages l k (suc n) (e ∷ es) =
    entry_frame l l.max_entry_index k (name_of e) ∷ messages l (u8 (k + 1)) n es

-- The loop has sent the messages and is at its end.
abbrev pub Lists : {Dir : Type 0} → Listing → ℕ → ℕ → List Entry → Listed Dir → Type 0
Lists l k n es r = (r.0 ≡ Errno.success) × (running r.1 ≡ false) × (r.2 ≡ messages l k n es)

-- The queue takes all frames.
abbrev pub AllTaken : List Bool → Type 0
AllTaken answers = All (λ b. b ≡ true) answers

module _ {Disk Dir : Type 0} (dirs : Dirs Disk Dir) (rest : Dir → List Entry)
    (laws : IsDirectory dirs rest) where
  -- The operation is about to send the entries `es`, of which `n` at most.
  abbrev pub IsBefore :
      Listing → ℕ → ℕ → List Entry → SmartDirHandle Dir → DirectoryListingOperation Dir → Type 0
  IsBefore l k n es h op =
      (op.dir ≡ some h)
      × (h.ended ≡ false)
      × (rest h.dd ≡ es)
      × (op.entries_left ≡ n)
      × (op.targets ≡ l.targets)
      × (op.entry_data.frame_type ≡ FrameType.directory_listing)
      × (op.entry_data.seq_no ≡ l.seq_no)
      × (op.entry_data.max_entry_index ≡ l.max_entry_index)
      × (op.entry_data.entry_index ≡ k)

  read-entry :
      (h : SmartDirHandle Dir) (e : Entry) (es : List Entry)
      → rest h.dd ≡ e ∷ es
      → read dirs h ≡ (inr e, record h { dd = (dirs.dir_read h.dd).1 })
  unfolding read
  read-entry h e es eq = answered (dirs.dir_read h.dd) (laws.read_answer h.dd e es eq)
    where
      answered :
          (r : (LfsError ⊎ Entry) × Dir)
          → r.0 ≡ inr e
          → after_dir_read h r ≡ (inr e, record h { dd = r.1 })
      answered (inl x, d) g = absurd (cc)
      answered (inr x, d) g = ground arith

  read-end :
      (h : SmartDirHandle Dir)
      → rest h.dd ≡ []
      → read dirs h ≡ (inl LfsError.noent, record h { dd = (dirs.dir_read h.dd).1; ended = true })
  unfolding read
  read-end h eq = answered (dirs.dir_read h.dd) (laws.read_end h.dd eq)
    where
      answered :
          (r : (LfsError ⊎ Entry) × Dir)
          → r.0 ≡ inl LfsError.noent
          → after_dir_read h r ≡ (inl LfsError.noent, record h { dd = r.1; ended = true })
      answered (inl x, d) g = let e : x ≡ LfsError.noent = cc in rw (e) refl
      answered (inr x, d) g = absurd (cc)

  before-running :
      (l : Listing) (k n : ℕ) (es : List Entry) (h : SmartDirHandle Dir)
      (op : DirectoryListingOperation Dir)
      → IsBefore l k n es h op
      → running op ≡ ltb 0 n
  unfolding running
  before-running l k n es h op b = ground arith

  advanced-IsBefore :
      (l : Listing) (k n : ℕ) (e : Entry) (es : List Entry) (h : SmartDirHandle Dir)
      (op : DirectoryListingOperation Dir)
      → IsBefore l k (suc n) (e ∷ es) h op
      → let h' = record h { dd = (dirs.dir_read h.dd).1 } in
        IsBefore l (u8 (k + 1)) n es h' (advanced (named op h' e))
  advanced-IsBefore l k n e es h op b =
      (refl, b.1, laws.read_rest h.dd e es b.2, ground arith, b.4, b.5, b.6, b.7, ground arith)

  cancelled : (op : DirectoryListingOperation Dir) → running (cancel op) ≡ false
  unfolding running cancel
  cancelled op = refl

  frame_of-entry :
      (l : Listing) (k n : ℕ) (e : Entry) (es : List Entry) (h h' : SmartDirHandle Dir)
      (op : DirectoryListingOperation Dir)
      → IsBefore l k n (e ∷ es) h op
      → frame_of (named op h' e) ≡ entry_frame l l.max_entry_index k (name_of e)
  frame_of-entry l k n e es h h' op b = ground arith

  frame_of-end :
      (l : Listing) (k n : ℕ) (es : List Entry) (h h' : SmartDirHandle Dir)
      (op : DirectoryListingOperation Dir)
      → IsBefore l k n es h op
      → frame_of (ended op h') ≡ entry_frame l k k []
  frame_of-end l k n es h h' op b = ground arith

  iterate-stopped :
      (answers : List Bool) (op : DirectoryListingOperation Dir)
      → running op ≡ false
      → iterate dirs answers op ≡ (Errno.success, op, [])
  unfolding iterate
  iterate-stopped [] op r = rw (r) refl
  iterate-stopped (taken ∷ answers) op r = rw (r) refl

  iterate-pass :
      (taken : Bool) (answers : List Bool) (l : Listing) (k n : ℕ) (es : List Entry)
      (h : SmartDirHandle Dir) (op : DirectoryListingOperation Dir)
      → IsBefore l k (suc n) es h op
      → iterate dirs (taken ∷ answers) op ≡ pass taken op (read dirs h) (iterate dirs answers)
  unfolding iterate
  iterate-pass taken answers l k n es h op b =
      let positive : ltb 0 (suc n) ≡ true = ground arith in
      ap
        (λ c.
          if c
          then pass_on dirs taken op op.dir (iterate dirs answers)
          else (Errno.success, op, []))
        (before-running l k (suc n) es h op b ∙ positive)
      ∙ ap (λ o. pass_on dirs taken op o (iterate dirs answers)) (b.0)

  iterate-end :
      (answers : List Bool) (l : Listing) (k n : ℕ) (h : SmartDirHandle Dir)
      (op : DirectoryListingOperation Dir)
      → IsBefore l k (suc n) [] h op
      → let h' = record h { dd = (dirs.dir_read h.dd).1; ended = true } in
        iterate dirs (true ∷ answers) op
        ≡ (Errno.success, cancel (ended op h'), frame_of (ended op h') ∷ [])
  iterate-end answers l k n h op b =
      iterate-pass true answers l k n [] h op b
      ∙ ap (λ r. pass true op r (iterate dirs answers)) (read-end h b.2)

  pass-entry :
      (taken : Bool) (op : DirectoryListingOperation Dir) (e : Entry) (h : SmartDirHandle Dir)
      (f : DirectoryListingOperation Dir → Listed Dir)
      → h.ended ≡ false
      → pass taken op (inr e, h) f ≡ send_entry taken true (named op h e) f
  pass-entry taken op e h f r = ap (λ c. send_entry taken (not c) (named op h e) f) r

  pub iterate-entry :
      (taken : Bool) (answers : List Bool) (l : Listing) (k n : ℕ) (e : Entry) (es : List Entry)
      (h : SmartDirHandle Dir) (op : DirectoryListingOperation Dir)
      → IsBefore l k (suc n) (e ∷ es) h op
      → let h' = record h { dd = (dirs.dir_read h.dd).1 } in
        iterate dirs (taken ∷ answers) op
        ≡ send_entry taken true (named op h' e) (iterate dirs answers)
  iterate-entry taken answers l k n e es h op b =
      iterate-pass taken answers l k n (e ∷ es) h op b
      ∙ ap (λ r. pass taken op r (iterate dirs answers)) (read-entry h e es b.2)
      ∙ pass-entry taken op e (record h { dd = (dirs.dir_read h.dd).1 }) (iterate dirs answers) b.1

  pub iterate-Lists :
      (answers : List Bool) (l : Listing) (k n : ℕ) (es : List Entry) (h : SmartDirHandle Dir)
      (op : DirectoryListingOperation Dir)
      → IsBefore l k n es h op
      → AllTaken answers
      → n ≤ length answers
      → Lists l k n es (iterate dirs answers op)
  iterate-Lists answers l k zero es h op b all m =
      let stopped = before-running l k zero es h op b in
      rw (iterate-stopped answers op stopped) (refl, stopped, refl)
  iterate-Lists [] l k (suc n) es h op b all m = absurd (omega arith)
  iterate-Lists (false ∷ answers) l k (suc n) es h op b all m = absurd (cc)
  iterate-Lists (true ∷ answers) l k (suc n) [] h op b all m =
      let h' = record h { dd = (dirs.dir_read h.dd).1; ended = true } in
      rw (iterate-end answers l k n h op b)
        (refl, cancelled (ended op h'), ap (λ f. f ∷ []) (frame_of-end l k (suc n) [] h h' op b))
  iterate-Lists (true ∷ answers) l k (suc n) (e ∷ es) h op b all m =
      let h' = record h { dd = (dirs.dir_read h.dd).1 } in
      let op' = advanced (named op h' e) in
      let later =
        iterate-Lists answers l (u8 (k + 1)) n es h' op' (advanced-IsBefore l k n e es h op b) all.1
          (omega (arith, m)) in
      rw (iterate-entry true answers l k n e es h op b)
        (later.0, later.1, ap₂ ◌∷◌ (frame_of-entry l k (suc n) e es h h' op b) later.2)
