-- ===== src/Rxsm/Voter.antt =====
-- src/core/utils/majority_voter.h: the majority of the last five values of a signal.
-- The state of a voter is its `history`, a `uint8_t`.
pub mod Majority
use obc.Common.{
  ℕ, ◌*◌, ◌^◌, bit_and, bit_or, bit, ◌==◌, not, Bool, true, false, if◌then◌else◌, List, [], ◌∷◌,
}

abbrev pub mask : ℕ
mask = 31

abbrev pub majority_table : ℕ
majority_table = 4276676736

unfoldable pub feed : ℕ → Bool → ℕ
feed history b = bit_and (bit_or (history * 2) (bit b)) mask

unfoldable pub get : ℕ → Bool
get history = not (bit_and majority_table (2 ^ history) == 0)

-- The new history, and whether the vote changed.
unfoldable pub feed_and_check : ℕ → Bool → ℕ × Bool
unfolding feed get
feed_and_check history b =
    let new = feed history b in (new, not (bit (get history) == bit (get new)))

unfoldable pub reset : Bool → ℕ
reset value = if value then mask else 0

unfoldable pub feed_all : ℕ → List Bool → ℕ
feed_all history [] = history
feed_all history (b ∷ bs) = feed_all (feed history b) bs
