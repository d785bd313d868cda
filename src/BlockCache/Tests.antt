-- ===== src/BlockCache/Tests.antt =====
-- Reads and writes of two blocks through the cache.
use obc.Common.{◌≡◌, List, [], ◌∷◌}
use obc.BlockCache.{new}
use obc.BlockCache.Coherence.{Use, Device, through_cache, direct, through_cache_lem}

abbrev card : Device
card i = i ∷ i ∷ []

abbrev uses : List Use
uses =
    Use.read 3
    ∷ Use.write 3 (8 ∷ 9 ∷ [])
    ∷ Use.read 3
    ∷ Use.read 4
    ∷ Use.write 7 []
    ∷ Use.read 4
    ∷ []

through_cache_lem_example : through_cache uses card (new 2 (0 ∷ 0 ∷ [])) ≡ direct uses card
through_cache_lem_example = through_cache_lem uses card 2 (0 ∷ 0 ∷ [])
