-- ===== src/Telem/Generic/Area.antt =====
-- The storage areas of src/core/telem/generic.h.
use obc.Common.{ℕ}

abbrev pub storage_area_unknown : ℕ
storage_area_unknown = 0

abbrev pub storage_area_flash_memory : ℕ
storage_area_flash_memory = 1

abbrev pub storage_area_sd_card : ℕ
storage_area_sd_card = 2
