-- ===== src/Storage/Download.antt =====
-- src/modules/storage.cpp: `FileDownloadOperation`, which sends a range of the bytes of a file. What
-- littlefs does with a file, which src/core/utils/smart_file_handle.cpp passes on, is a parameter.
use obc.Common.{
  ℕ, ◌+◌, ◌-◌, ◌==◌, not, if◌then◌else◌, ltb, leb, length, List, [], ◌∷◌, Bool, true, false, Option,
  none, some, ◌⊎◌, inl, inr,
}
use obc.Common.Words.{u8, ℤ, int32}
use obc.Telem.Generic.FrameType
use obc.Frames.Reply.{BinaryData, max_binary_data_fragment_length, encode_binary_data_frame}
use obc.Storage.Filesystem.{LfsError, Errno, convert_littlefs_error_code, FilesystemState}
use obc.Storage.Areas.{Filesystems, get_state}
use obc.Storage.Raw.{Sent, cleared_data, max_fragment_index}

-- The calls on a mounted filesystem and on an open file. A file afterwards stands beside the answer.
-- `seek` takes an `int`.
pub record Files (Disk File : Type 0) : Type 0 where
  pub open_file : Disk → List ℕ → LfsError ⊎ File
  pub seek : File → ℤ → (LfsError ⊎ ℕ) × File
  pub tell : File → LfsError ⊎ ℕ
  pub size : File → LfsError ⊎ ℕ
  pub read : File → ℕ → (LfsError ⊎ List ℕ) × File

-- `FileDownloadOperation` and the targets of its base class; `none` is a handle that was reset.
pub record FileDownloadOperation (File : Type 0) : Type 0 where
  pub targets : ℕ
  pub bytes_left : ℕ
  pub binary_data : BinaryData
  pub file : Option File

-- The bytes that are left to read behind an offset, of those that were asked for.
unfoldable pub clip : ℕ → ℕ → ℕ → ℕ
clip offset size n =
    if leb size offset then 0 else (if ltb (size - offset) n then size - offset else n)

-- The code, the operation, and the size of the file for the caller, where it is told.
abbrev pub Started : Type 0 → Type 0
Started File = Errno × FileDownloadOperation File × Option ℕ

module _ {File : Type 0} where
  abbrev pub new : FileDownloadOperation File
  new = record { targets = 0; bytes_left = 0; binary_data = cleared_data; file = none }

  unfoldable pub running : FileDownloadOperation File → Bool
  running op = ltb 0 op.bytes_left

  unfoldable pub cancel : FileDownloadOperation File → FileDownloadOperation File
  cancel op = record op { file = none; bytes_left = 0 }

  abbrev pub fails : Errno → FileDownloadOperation File → Started File
  fails e op = (e, op, none)

  abbrev pub start_with_size : ℕ → ℕ → ℕ → FileDownloadOperation File → LfsError ⊎ ℕ → Started File
  start_with_size offset n seq_no op (inl e) = fails (convert_littlefs_error_code (some e)) op
  start_with_size offset n seq_no op (inr size) =
      let n' = clip offset size n in
      (
        Errno.success,
        record op {
          bytes_left = n';
          binary_data = record cleared_data {
            frame_type = FrameType.file_download;
            seq_no = seq_no;
            max_fragment_index = max_fragment_index n';
          };
        },
        some size,
      )

  abbrev pub requested : FileDownloadOperation File → ℕ
  requested op =
      if ltb max_binary_data_fragment_length op.bytes_left
      then max_binary_data_fragment_length
      else op.bytes_left

  -- The fragment with the bytes that were read; no bytes are the end of the
  -- file. A read brings at most the 59 bytes that are requested, so that their number is a byte.
  abbrev pub filled : FileDownloadOperation File → File → List ℕ → FileDownloadOperation File
  filled op f bs = record op {
    file = some f;
    binary_data = record op.binary_data {
      content = bs;
      max_fragment_index =
          if length bs == 0
          then op.binary_data.fragment_index
          else op.binary_data.max_fragment_index;
    };
  }

  abbrev pub advanced : FileDownloadOperation File → FileDownloadOperation File
  advanced op = record op {
    bytes_left = op.bytes_left - length op.binary_data.content;
    binary_data = record op.binary_data { fragment_index = u8 (op.binary_data.fragment_index + 1) };
  }

  abbrev pub frame_of : FileDownloadOperation File → Sent
  frame_of op = record {
    targets = op.targets;
    frame_type = FrameType.binary_data;
    payload = encode_binary_data_frame op.binary_data;
  }

module _ {Disk File : Type 0} (files : Files Disk File) where
  abbrev pub start_at :
      ℕ → ℕ → ℕ → FileDownloadOperation File → (LfsError ⊎ ℕ) × File → Started File
  start_at offset n seq_no op (inl e, f) =
      fails (convert_littlefs_error_code (some e)) (record op { file = some f })
  start_at offset n seq_no op (inr real_offset, f) =
      let op' = record op { file = some f } in
      if not (real_offset == offset)
      then fails Errno.eio op'
      else start_with_size real_offset n seq_no op' (files.size f)

  abbrev pub start_opened : ℕ → ℕ → ℕ → FileDownloadOperation File → LfsError ⊎ File → Started File
  start_opened offset n seq_no op (inl e) = fails (convert_littlefs_error_code (some e)) op
  start_opened offset n seq_no op (inr f) =
      start_at offset n seq_no op (files.seek f (int32 offset))

  -- `getFilesystemIfMounted`, and what follows.
  abbrev pub start_mounted :
      List ℕ → ℕ → ℕ → ℕ → FileDownloadOperation File → Option (FilesystemState Disk) → Started File
  start_mounted path offset n seq_no op none = fails Errno.eio op
  start_mounted path offset n seq_no op (some s) =
      if s.mounted then start_on s.fs else fails Errno.eio op
    where
      start_on : Option Disk → Started File
      start_on none = fails Errno.eio op
      start_on (some d) = start_opened offset n seq_no op (files.open_file d path)

  unfoldable pub start :
      Filesystems Disk → ℕ → List ℕ → ℕ → ℕ → ℕ → FileDownloadOperation File → Started File
  unfolding running get_state clip max_fragment_index
  start fs area path offset n seq_no op =
      if running op
      then fails Errno.ebusy op
      else (if n == 0
          then fails Errno.einval op
          else start_mounted path offset n seq_no op (get_state fs area))

  -- The queue is full: the file is rewound to where the pass began.
  abbrev pub rewound :
      FileDownloadOperation File → (LfsError ⊎ ℕ) × File → FileDownloadOperation File
  rewound op (inl e, f) = cancel op
  rewound op (inr p, f) = record op { file = some f }

  -- A pass of the loop from a position: whether the frame is taken, what was read, and the rest.
  abbrev pub pass :
      Bool
      → ℕ
      → FileDownloadOperation File
      → (LfsError ⊎ List ℕ) × File
      → (ℕ → File → FileDownloadOperation File → FileDownloadOperation File × List Sent)
      → FileDownloadOperation File × List Sent
  pass taken pos op (inl e, f) rest = (cancel op, [])
  pass false pos op (inr bs, f) rest = (rewound (filled op f bs) (files.seek f (int32 pos)), [])
  pass true pos op (inr bs, f) rest =
      let op' = filled op f bs in
      let r = rest (pos + length bs) f (advanced op') in
      if length bs == 0 then (cancel op', frame_of op' ∷ []) else (r.0, frame_of op' ∷ r.1)

  -- The loop of `iterate` on an open file; the list has what `sendTelemetry` answers, which is false
  -- behind its end.
  abbrev pub transfer :
      List Bool → ℕ → File → FileDownloadOperation File → FileDownloadOperation File × List Sent
  transfer [] pos f op =
      if running op
      then pass false pos op (files.read f (requested op)) (λ p f' op'. (op', []))
      else (op, [])
  transfer (taken ∷ answers) pos f op =
      if running op
      then pass taken pos op (files.read f (requested op)) (λ p f' op'. transfer answers p f' op')
      else (op, [])

  abbrev pub transfer_from :
      List Bool
      → File
      → FileDownloadOperation File
      → LfsError ⊎ ℕ
      → Errno × FileDownloadOperation File × List Sent
  transfer_from answers f op (inl e) = (convert_littlefs_error_code (some e), cancel op, [])
  transfer_from answers f op (inr pos) =
      let r = transfer answers pos f op in (Errno.success, r.0, r.1)

  -- `none`: a null pointer would be followed.
  abbrev pub iterate_on :
      List Bool
      → FileDownloadOperation File
      → Option File
      → Option (Errno × FileDownloadOperation File × List Sent)
  iterate_on answers op none = none
  iterate_on answers op (some f) = some (transfer_from answers f op (files.tell f))

  unfoldable pub iterate :
      List Bool
      → FileDownloadOperation File
      → Option (Errno × FileDownloadOperation File × List Sent)
  unfolding running cancel
  iterate answers op = iterate_on answers op op.file
