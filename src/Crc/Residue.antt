-- ===== src/Crc/Residue.antt =====
-- `crc_ccitt` of src/core/utils/crc.c on a message that carries its own checksum.
use obc.Common.{
  ℕ, zero, suc, ◌+◌, ◌*◌, ◌/◌, ◌%◌, ◌^◌, ◌<◌, bit_and, bit_xor, List, [], ◌∷◌, ◌++◌, get_or, ◌≡◌,
  refl, ◌∙◌, ap, ap₂, arith, Bool, true, ltb, ◌&&◌,
}
use obc.Common.Bits.{bit_xor-lt, bit_xor-zero, bit_and_mask, bit_xor_fields}
use obc.Crc.Tables.{crc_ccitt_tab}
use obc.Crc.Defs.{ccitt_round, crc_ccitt}

all_lt : ℕ → List ℕ → Bool
all_lt n [] = true
all_lt n (x ∷ xs) = ltb x n && all_lt n xs

get_or-lt : (n : ℕ) (xs : List ℕ) (i : ℕ) → 0 < n → all_lt n xs ≡ true → get_or xs i 0 < n
unfolding all_lt
get_or-lt n [] i h e = h
get_or-lt n (x ∷ xs) zero h e = ground arith
get_or-lt n (x ∷ xs) (suc i) h e = get_or-lt n xs i h (ground arith)

pub crc_ccitt_tab-lt : (i : ℕ) → get_or crc_ccitt_tab i 0 < 2 ^ 16
unfolding crc_ccitt_tab all_lt
crc_ccitt_tab-lt i = get_or-lt (2 ^ 16) crc_ccitt_tab i (omega arith) refl

crc_ccitt_tab-zero : get_or crc_ccitt_tab 0 0 ≡ 0
unfolding crc_ccitt_tab
crc_ccitt_tab-zero = refl

ccitt_round-lt : (crc b : ℕ) → crc < 2 ^ 16 → ccitt_round crc b < 2 ^ 16
unfolding ccitt_round
ccitt_round-lt crc b h = bit_xor-lt 16 (crc / 256) _ (omega arith) (crc_ccitt_tab-lt _)

-- The checksum stays within its sixteen bits.
pub crc_ccitt-lt : (bs : List ℕ) (crc : ℕ) → crc < 2 ^ 16 → crc_ccitt crc bs < 2 ^ 16
unfolding crc_ccitt
crc_ccitt-lt [] crc h = h
crc_ccitt-lt (b ∷ bs) crc h = crc_ccitt-lt bs (ccitt_round crc b) (ccitt_round-lt crc b h)

pub crc_ccitt-append :
    (xs ys : List ℕ) (crc : ℕ) → crc_ccitt crc (xs ++ ys) ≡ crc_ccitt (crc_ccitt crc xs) ys
unfolding crc_ccitt
crc_ccitt-append [] ys crc = refl
crc_ccitt-append (x ∷ xs) ys crc = crc_ccitt-append xs ys (ccitt_round crc x)

-- A round on the low byte of the register shifts the register by a byte.
ccitt_round_low : (crc : ℕ) → ccitt_round crc (crc % 256) ≡ crc / 256
unfolding ccitt_round
ccitt_round_low crc = rw (index, crc_ccitt_tab-zero) (bit_xor-zero (crc / 256))
  where
    split : crc ≡ crc / 256 * 2 ^ 8 + crc % 256
    split = omega arith

    low : crc % 256 ≡ 0 * 2 ^ 8 + crc % 256
    low = omega arith

    index : bit_and (bit_xor crc (crc % 256)) 0xff ≡ 0
    index = omega (
      arith,
      bit_and_mask 8 (bit_xor crc (crc % 256)) 0xff (omega arith),
      ap₂ bit_xor split low,
      bit_xor_fields 8 (crc / 256) 0 (crc % 256) (omega arith),
    )

ccitt_round_self : (crc : ℕ) → crc < 256 → ccitt_round crc crc ≡ 0
ccitt_round_self crc h = ap (ccitt_round crc) small ∙ ccitt_round_low crc ∙ omega arith
  where
    small : crc ≡ crc % 256
    small = omega arith

-- A message followed by its own checksum, low byte first, has checksum zero.
pub crc_ccitt_residue :
    (bs : List ℕ) → let c = crc_ccitt 0 bs in crc_ccitt 0 (bs ++ (c % 256 ∷ c / 256 ∷ [])) ≡ 0
unfolding crc_ccitt
crc_ccitt_residue bs =
    let c = crc_ccitt 0 bs in
    rw (
      crc_ccitt-append bs (c % 256 ∷ c / 256 ∷ []) 0,
      ccitt_round_low c,
      ccitt_round_self (c / 256) (omega (arith, crc_ccitt-lt bs 0 (omega arith))),
    )
