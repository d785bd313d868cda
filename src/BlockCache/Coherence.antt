-- ===== src/BlockCache/Coherence.antt =====
-- The cache of src/core/utils/block_cache.cpp in front of a device, used the way its methods are meant
-- to be: a block that is not cached is read into the scratch area and committed, and a block that is
-- written to the device is evicted.
use obc.Common.{
  ℕ, ◌==◌, ◌≡◌, refl, ap, ap₂, if◌then◌else◌, List, [], ◌∷◌, true, Option, none, some, arith,
}
use obc.BlockCache.{BlockCache, new, clear, commit, evict, get_block, get_scratch_area}

-- What a client does.
pub data Use : Type 0 where
  read : ℕ → Use
  write : ℕ → List ℕ → Use
  forget : Use

abbrev pub Device : Type 0
Device = ℕ → List ℕ

abbrev pub stored : ℕ → List ℕ → Device → Device
stored i bs device j = if j == i then bs else device j

abbrev pub load : Device → ℕ → Option (List ℕ) × BlockCache → List ℕ × BlockCache
load device i (some bs, c) = (bs, c)
load device i (none, c) = (device i, commit i (get_scratch_area (device i) c))

-- The blocks that are read through the cache.
abbrev pub through_cache : List Use → Device → BlockCache → List (List ℕ)
through_cache [] device c = []
through_cache (Use.read i ∷ us) device c =
    let r = load device i (get_block i c) in r.0 ∷ through_cache us device r.1
through_cache (Use.write i bs ∷ us) device c = through_cache us (stored i bs device) (evict i c)
through_cache (Use.forget ∷ us) device c = through_cache us device (clear c)

-- The blocks that are read from the device.
abbrev pub direct : List Use → Device → List (List ℕ)
direct [] device = []
direct (Use.read i ∷ us) device = device i ∷ direct us device
direct (Use.write i bs ∷ us) device = direct us (stored i bs device)
direct (Use.forget ∷ us) device = direct us device

-- A valid block is that of the device.
abbrev pub IsCoherent : Device → BlockCache → Type 0
IsCoherent device c = c.is_valid ≡ true → c.block ≡ device c.block_index

load-read :
    (device : Device) (i : ℕ) (c : BlockCache)
    → IsCoherent device c
    → let r = load device i (get_block i c) in (r.0 ≡ device i) × IsCoherent device r.1
unfolding get_block commit get_scratch_area
load-read device i c h = ground (arith, h, ap device)

evict-IsCoherent :
    (device : Device) (i : ℕ) (bs : List ℕ) (c : BlockCache)
    → IsCoherent device c
    → IsCoherent (stored i bs device) (evict i c)
unfolding evict
evict-IsCoherent device i bs c h = ground (arith, h)

clear-IsCoherent : (device : Device) (c : BlockCache) → IsCoherent device (clear c)
unfolding clear
clear-IsCoherent device c = ground arith

through_cache-direct :
    (us : List Use) (device : Device) (c : BlockCache)
    → IsCoherent device c
    → through_cache us device c ≡ direct us device
through_cache-direct [] device c h = refl
through_cache-direct (Use.read i ∷ us) device c h =
    let r = load device i (get_block i c) in
    let here = load-read device i c h in ap₂ ◌∷◌ here.0 (through_cache-direct us device r.1 here.1)
through_cache-direct (Use.write i bs ∷ us) device c h =
    through_cache-direct us (stored i bs device) (evict i c) (evict-IsCoherent device i bs c h)
through_cache-direct (Use.forget ∷ us) device c h =
    through_cache-direct us device (clear c) (clear-IsCoherent device c)

-- A new cache, whatever its memory holds, in front of a device: for any sequence of reads, of writes
-- and of clearing the cache, the blocks that are read through the cache are those that are read from
-- the device.
pub through_cache_lem :
    (us : List Use) (device : Device) (block_size : ℕ) (garbage : List ℕ)
    → through_cache us device (new block_size garbage) ≡ direct us device
unfolding new
through_cache_lem us device block_size garbage =
    through_cache-direct us device (new block_size garbage) (ground arith)
