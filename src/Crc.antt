-- ===== src/Crc.antt =====
-- src/core/utils/crc.c: the three table-driven checksums, and what the receivers rely on.
mod Tables
mod Defs
pub mod Residue
unfoldable pub use Tables.{crc_ccitt_tab, crc_xmodem_tab, crc7_sd_tab}
unfoldable pub use Defs.{crc_ccitt, crc_xmodem, crc7_sd, ccitt_round}
