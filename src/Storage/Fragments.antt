-- ===== src/Storage/Fragments.antt =====
-- What a download of src/modules/storage.cpp is to send, independently of how it sends it: a range
-- of bytes, cut into numbered fragments.
use obc.Common.{
  ℕ, zero, suc, ◌+◌, ◌-◌, ◌*◌, ◌/◌, ◌≡◌, refl, sym, ap, ap₂, ◌∙◌, min, List, [], ◌∷◌, ◌++◌, length,
  drop, arith,
}
use obc.Telem.Generic.FrameType
use obc.Frames.Reply.{encode_binary_data_frame}
use obc.Storage.Raw.{Sent}

-- The bytes of an image from an address on.
abbrev pub slice : (ℕ → ℕ) → ℕ → ℕ → List ℕ
slice image address zero = []
slice image address (suc n) = image address ∷ slice image (suc address) n

pub length-slice : (image : ℕ → ℕ) (address n : ℕ) → length (slice image address n) ≡ n
length-slice image address zero = refl
length-slice image address (suc n) = ap suc (length-slice image (suc address) n)

pub slice-append :
    (image : ℕ → ℕ) (address m n k : ℕ)
    → k ≡ address + m
    → slice image address m ++ slice image k n ≡ slice image address (m + n)
slice-append image address zero n k h = ground arith
slice-append image address (suc m) n k h =
    let sum : suc m + n ≡ suc (m + n) = omega arith in
    ground
      (arith, slice-append image (suc address) m n k (omega arith), ap (slice image address) sum)

-- A range of bytes that was asked for, of an area or a file, and where it is sent.
pub record Transfer : Type 0 where
  pub area : ℕ
  pub image : ℕ → ℕ
  pub offset : ℕ
  pub size : ℕ
  pub targets : ℕ
  pub frame_type : ℕ
  pub seq_no : ℕ

-- The number of fragments: all but the last hold 59 bytes.
abbrev pub count : Transfer → ℕ
count t = (t.size + 58) / 59

-- The bytes of the fragment with an index.
abbrev pub content : Transfer → ℕ → List ℕ
content t k = slice t.image (t.offset + 59 * k) (min 59 (t.size - 59 * k))

abbrev pub fragment : Transfer → ℕ → Sent
fragment t k = record {
  targets = t.targets;
  frame_type = FrameType.binary_data;
  payload = encode_binary_data_frame (record {
    frame_type = t.frame_type;
    seq_no = t.seq_no;
    max_fragment_index = count t - 1;
    fragment_index = k;
    content = content t k;
  });
}

-- The `n` fragments from an index on.
abbrev pub fragments : Transfer → ℕ → ℕ → List Sent
fragments t k zero = []
fragments t k (suc n) = fragment t k ∷ fragments t (suc k) n

pub fragments-append :
    (t : Transfer) (k m n : ℕ) → fragments t k m ++ fragments t (k + m) n ≡ fragments t k (m + n)
fragments-append t k zero n = ground arith
fragments-append t k (suc m) n =
    let sum : suc m + n ≡ suc (m + n) = omega arith in
    let next : k + suc m ≡ suc k + m = omega arith in
    ap (λ j. fragments t k (suc m) ++ fragments t j n) next
    ∙ ap (λ fs. fragment t k ∷ fs) (fragments-append t (suc k) m n)
    ∙ ap (fragments t k) (sym sum)

-- The contents of fragments, one after the other.
abbrev pub contents : Transfer → ℕ → ℕ → List ℕ
contents t k zero = []
contents t k (suc n) = content t k ++ contents t (suc k) n

-- All fragments together hold the range, each byte once and in order.
pub contents-slice :
    (t : Transfer) (k n : ℕ)
    → k + n ≡ count t
    → contents t k n ≡ slice t.image (t.offset + 59 * k) (t.size - 59 * k)
contents-slice t k zero h = ground arith
contents-slice t k (suc zero) h = ground (
  arith,
  slice-append t.image (t.offset + 59 * k) (min 59 (t.size - 59 * k)) 0
      (t.offset + 59 * k + min 59 (t.size - 59 * k)) refl,
)
contents-slice t k (suc (suc n)) h = ground (
  arith,
  contents-slice t (suc k) (suc n) (omega arith),
  slice-append t.image (t.offset + 59 * k) (min 59 (t.size - 59 * k)) (t.size - 59 * suc k)
      (t.offset + 59 * suc k) (omega arith),
)

-- What a receiver makes of frames: the bytes behind their headers, one after the other.
abbrev pub received : List Sent → List ℕ
received [] = []
received (f ∷ fs) = drop 4 f.payload ++ received fs

pub received-fragments : (t : Transfer) (k n : ℕ) → received (fragments t k n) ≡ contents t k n
unfolding encode_binary_data_frame
received-fragments t k zero = refl
received-fragments t k (suc n) = ap (λ bs. content t k ++ bs) (received-fragments t (suc k) n)

-- The frames of a whole transfer bring its range.
pub received-all :
    (t : Transfer) → received (fragments t 0 (count t)) ≡ slice t.image t.offset t.size
received-all t =
    let first : t.offset + 59 * 0 ≡ t.offset = omega arith in
    let size : t.size - 59 * 0 ≡ t.size = omega arith in
    received-fragments t 0 (count t)
    ∙ contents-slice t 0 (count t) (omega arith)
    ∙ ap₂ (slice t.image) first size
