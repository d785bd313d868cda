-- ===== src/Crc/Defs.antt =====
-- The loops of src/core/utils/crc.c. The list is the `len` bytes that `buf` points to.
use obc.Common.{ℕ, ◌*◌, ◌/◌, bit_and, bit_xor, List, [], ◌∷◌, get_or}
use obc.Common.Words.{u16}
use obc.Crc.Tables.{crc_ccitt_tab, crc_xmodem_tab, crc7_sd_tab}

-- One round: `(crc >> 8) ^ crc_ccitt_tab[(crc ^ (*buf++)) & 0xff]`.
unfoldable pub ccitt_round : ℕ → ℕ → ℕ
ccitt_round crc b = bit_xor (crc / 256) (get_or crc_ccitt_tab (bit_and (bit_xor crc b) 0xff) 0)

unfoldable pub crc_ccitt : ℕ → List ℕ → ℕ
crc_ccitt crc [] = crc
crc_ccitt crc (b ∷ bs) = crc_ccitt (ccitt_round crc b) bs

-- `crc << 8` is an `int`; the assignment to a `uint16_t` truncates.
unfoldable pub xmodem_round : ℕ → ℕ → ℕ
xmodem_round crc b =
    u16 (bit_xor (crc * 256) (get_or crc_xmodem_tab (bit_and (bit_xor (crc / 256) b) 0xff) 0))

unfoldable pub crc_xmodem : ℕ → List ℕ → ℕ
crc_xmodem crc [] = crc
crc_xmodem crc (b ∷ bs) = crc_xmodem (xmodem_round crc b) bs

unfoldable pub crc7_round : ℕ → ℕ → ℕ
crc7_round crc b = get_or crc7_sd_tab (bit_and (bit_xor b (crc * 2)) 0xff) 0

unfoldable pub crc7_sd : ℕ → List ℕ → ℕ
crc7_sd crc [] = crc
crc7_sd crc (b ∷ bs) = crc7_sd (crc7_round crc b) bs
