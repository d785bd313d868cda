-- ===== src/Storage/Raw.antt =====
-- src/modules/storage.cpp: `RawStorageReadOperation`, which sends a range of bytes of the storage
-- below a filesystem.
use obc.Common.{
  ℕ, ◌+◌, ◌-◌, ◌/◌, ◌%◌, ◌^◌, ◌==◌, ◌&&◌, if◌then◌else◌, ltb, List, [], ◌∷◌, Bool, true, false,
  Option, none, some,
}
use obc.Common.Words.{u8}
use obc.Telem.Generic.FrameType
use obc.Telem.Generic.Area.{storage_area_flash_memory, storage_area_sd_card}
use obc.Frames.Reply.{BinaryData, max_binary_data_fragment_length, encode_binary_data_frame}
use obc.Storage.Filesystem.{Errno, FilesystemState}
use obc.Storage.Areas.{Filesystems, get_state}

-- A frame that `sendTo` took: the channels, the type and the payload.
pub record Sent : Type 0 where
  pub targets : ℕ
  pub frame_type : ℕ
  pub payload : List ℕ

-- What the drivers read at an address and for a length; `none` is a failure.
pub record Readers : Type 0 where
  pub flash_read_data : ℕ → ℕ → Option (List ℕ)
  pub sd_card_read_data : ℕ → ℕ → Option (List ℕ)

-- `FilesystemState::readRawData`.
unfoldable pub read_raw_data :
    {Disk : Type 0} → Readers → FilesystemState Disk → ℕ → ℕ → Option (List ℕ)
read_raw_data readers s address n =
    if s.area == storage_area_flash_memory
    then readers.flash_read_data address n
    else (if s.area == storage_area_sd_card then readers.sd_card_read_data address n else none)

-- `RawStorageReadOperation` and the targets of its base class; `_buf` only lives inside a pass.
pub record RawStorageReadOperation : Type 0 where
  pub targets : ℕ
  pub area : ℕ
  pub address : ℕ
  pub bytes_left : ℕ
  pub binary_data : BinaryData

abbrev pub cleared_data : BinaryData
cleared_data = record {
  frame_type = 0;
  seq_no = 0;
  max_fragment_index = 0;
  fragment_index = 0;
  content = [];
}

-- What `make_unique` makes, with all members zero.
abbrev pub new : RawStorageReadOperation
new = record { targets = 0; area = 0; address = 0; bytes_left = 0; binary_data = cleared_data }

unfoldable pub running : RawStorageReadOperation → Bool
running op = ltb 0 op.bytes_left

-- The index of the last fragment of a range; the field and its decrement are of 8 bits.
unfoldable pub max_fragment_index : ℕ → ℕ
max_fragment_index n =
    let whole = u8 (n / max_binary_data_fragment_length) in
    if ltb 0 n && (n % max_binary_data_fragment_length) == 0 then u8 (whole + 255) else whole

unfoldable pub start : ℕ → ℕ → ℕ → ℕ → RawStorageReadOperation → Errno × RawStorageReadOperation
unfolding running max_fragment_index
start area address n seq_no op =
    if running op
    then (Errno.ebusy, op)
    else (if n == 0 then (Errno.einval, op) else (
      Errno.success,
      record op {
        area = area;
        address = address;
        bytes_left = n;
        binary_data = record cleared_data {
          frame_type = FrameType.storage;
          seq_no = seq_no;
          max_fragment_index = max_fragment_index n;
        };
      },
    ))

abbrev pub requested : RawStorageReadOperation → ℕ
requested op =
    if ltb max_binary_data_fragment_length op.bytes_left
    then max_binary_data_fragment_length
    else op.bytes_left

-- The fragment with the bytes that were read.
abbrev pub filled : RawStorageReadOperation → List ℕ → RawStorageReadOperation
filled op bs = record op { binary_data = record op.binary_data { content = bs } }

-- The state after the fragment was sent.
abbrev pub advanced : RawStorageReadOperation → RawStorageReadOperation
advanced op = record op {
  address = (op.address + requested op) % 2 ^ 64;
  bytes_left = op.bytes_left - requested op;
  binary_data = record op.binary_data { fragment_index = u8 (op.binary_data.fragment_index + 1) };
}

abbrev pub frame_of : RawStorageReadOperation → Sent
frame_of op = record {
  targets = op.targets;
  frame_type = FrameType.binary_data;
  payload = encode_binary_data_frame op.binary_data;
}

-- A pass of the loop: whether `sendTelemetry` takes the frame, what was read, and the rest of the
-- loop.
abbrev pub pass :
    Bool
    → RawStorageReadOperation
    → Option (List ℕ)
    → (RawStorageReadOperation → RawStorageReadOperation × List Sent)
    → RawStorageReadOperation × List Sent
pass taken op none rest = (op, [])
pass false op (some bs) rest = (filled op bs, [])
pass true op (some bs) rest =
    let r = rest (advanced (filled op bs)) in (r.0, frame_of (filled op bs) ∷ r.1)

module _ {Disk : Type 0} (readers : Readers) where
  -- The loop of `iterate`; the list has what `sendTelemetry` answers, which is false behind its end.
  abbrev pub transfer :
      FilesystemState Disk
      → List Bool
      → RawStorageReadOperation
      → RawStorageReadOperation × List Sent
  transfer s [] op =
      if running op
      then pass false op (read_raw_data readers s op.address (requested op)) (λ op'. (op', []))
      else (op, [])
  transfer s (taken ∷ answers) op =
      if running op
      then pass taken op (read_raw_data readers s op.address (requested op))
          (λ op'. transfer s answers op')
      else (op, [])

  abbrev pub transfer_from :
      Option (FilesystemState Disk)
      → List Bool
      → RawStorageReadOperation
      → Errno × RawStorageReadOperation × List Sent
  transfer_from none answers op = (Errno.eio, op, [])
  transfer_from (some s) answers op = let r = transfer s answers op in (Errno.success, r.0, r.1)

  -- The error code, the operation afterwards, and the frames that were taken.
  unfoldable pub iterate :
      Filesystems Disk
      → List Bool
      → RawStorageReadOperation
      → Errno × RawStorageReadOperation × List Sent
  unfolding running read_raw_data get_state
  iterate fs answers op = transfer_from (get_state fs op.area) answers op

unfoldable pub cancel : RawStorageReadOperation → RawStorageReadOperation
cancel op = record op { bytes_left = 0 }
