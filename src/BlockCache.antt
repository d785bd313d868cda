-- ===== src/BlockCache.antt =====
-- src/core/utils/block_cache.cpp: a cache for one block of a storage device.
pub mod Coherence
mod Tests
use obc.Common.{
  ℕ, ◌+◌, ◌==◌, ◌&&◌, if◌then◌else◌, replicate, List, Bool, true, false, Option, none, some,
}
use obc.Common.Words.{u32}

-- `BlockCache`; the block is what its memory holds.
pub record BlockCache : Type 0 where
  pub block_size : ℕ
  pub block_index : ℕ
  pub block : List ℕ
  pub is_valid : Bool
  pub hit_counter : ℕ
  pub miss_counter : ℕ

-- The memory of a new cache holds anything.
unfoldable pub new : ℕ → List ℕ → BlockCache
new block_size garbage = record {
  block_size = block_size;
  block_index = 0;
  block = garbage;
  is_valid = false;
  hit_counter = 0;
  miss_counter = 0;
}

unfoldable pub clear : BlockCache → BlockCache
clear c = record c { hit_counter = 0; miss_counter = 0; is_valid = false }

unfoldable pub commit : ℕ → BlockCache → BlockCache
commit i c = record c { block_index = i; is_valid = true }

unfoldable pub evict : ℕ → BlockCache → BlockCache
evict i c = if c.block_index == i then record c { is_valid = false } else c

-- The block, or a null pointer, and the cache with its counters.
unfoldable pub get_block : ℕ → BlockCache → Option (List ℕ) × BlockCache
get_block i c =
    if c.is_valid && (i == c.block_index)
    then (some c.block, record c { hit_counter = u32 (c.hit_counter + 1) })
    else (none, record c { miss_counter = u32 (c.miss_counter + 1) })

-- The caller fills the memory that it is given with `content`.
unfoldable pub get_scratch_area : List ℕ → BlockCache → BlockCache
get_scratch_area content c = record c { block = content; is_valid = false }
