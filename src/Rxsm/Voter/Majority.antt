-- ===== src/Rxsm/Voter/Majority.antt =====
-- The voter of src/core/utils/majority_voter.h against a count of the last five values.
use obc.Common.{
  ℕ, zero, suc, ◌+◌, ◌*◌, ◌/◌, ◌%◌, ◌≤◌, ◌<◌, bit_or, bit, leb, not, ◌&&◌, Bool, true, false, List,
  [], ◌∷◌, ◌++◌, ◌≡◌, refl, ap, ◌∙◌, arith,
}
use obc.Common.Bits.{bit_and_mask, bit_or_disjoint}
use obc.Rxsm.Voter.{feed, get, feed_all}

pub feed_lem : (history : ℕ) (b : Bool) → feed history b ≡ (history * 2 + bit b) % 32
unfolding feed
feed_lem history b = omega (
  arith,
  bit_and_mask 5 (bit_or (history * 2) (bit b)) 31 (omega arith),
  bit_or_disjoint 1 history (bit b) (small b),
)
  where
    small : (b : Bool) → bit b < 2
    small true = omega arith
    small false = omega arith

-- The table against a count of the ones among five bits.
ones : ℕ → ℕ
ones h = h % 2 + h / 2 % 2 + h / 4 % 2 + h / 8 % 2 + h / 16 % 2

same : Bool → Bool → Bool
same true b = b
same false b = not b

agrees_below : ℕ → Bool
agrees_below zero = true
agrees_below (suc n) = same (get n) (leb 3 (ones n)) && agrees_below n

same→eq : (a b : Bool) → same a b ≡ true → a ≡ b
unfolding same
same→eq true b h = ground arith
same→eq false b h = ground arith

agrees_below→eq : (n h : ℕ) → agrees_below n ≡ true → h < n → get h ≡ leb 3 (ones h)
unfolding agrees_below
agrees_below→eq zero h e l = absurd (omega arith)
agrees_below→eq (suc n) h e l =
    ground (arith, same→eq (get n) (leb 3 (ones n)), agrees_below→eq n h)

agrees_table : agrees_below 32 ≡ true
unfolding agrees_below same get ones
agrees_table = refl

get-ones : (h : ℕ) → h < 32 → get h ≡ leb 3 (ones h)
get-ones h = agrees_below→eq 32 h agrees_table

feed_all-append : (bs cs : List Bool) (h : ℕ) → feed_all h (bs ++ cs) ≡ feed_all (feed_all h bs) cs
unfolding feed_all
feed_all-append [] cs h = refl
feed_all-append (b ∷ bs) cs h = feed_all-append bs cs (feed h b)

last_five :
    (h : ℕ) (a b c d e : Bool)
    → feed_all h (a ∷ b ∷ c ∷ d ∷ e ∷ []) ≡ bit a * 16 + bit b * 8 + bit c * 4 + bit d * 2 + bit e
unfolding feed_all
last_five h a b c d e = ground (
  arith,
  feed_lem h a,
  feed_lem (feed h a) b,
  feed_lem (feed (feed h a) b) c,
  feed_lem (feed (feed (feed h a) b) c) d,
  feed_lem (feed (feed (feed (feed h a) b) c) d) e,
)

bit-le : (b : Bool) → bit b ≤ 1
bit-le true = omega arith
bit-le false = omega arith

ones_of_digits :
    (a b c d e : ℕ)
    → a ≤ 1
    → b ≤ 1
    → c ≤ 1
    → d ≤ 1
    → e ≤ 1
    → let h = a * 16 + b * 8 + c * 4 + d * 2 + e in (h < 32) × (ones h ≡ a + b + c + d + e)
unfolding ones
ones_of_digits a b c d e ha hb hc hd he = omega arith

-- Whatever the history was and was fed before, after five more values the voter reports their
-- majority.
pub get-majority :
    (h : ℕ) (before : List Bool) (a b c d e : Bool)
    → get (feed_all h (before ++ a ∷ b ∷ c ∷ d ∷ e ∷ []))
      ≡ leb 3 (bit a + bit b + bit c + bit d + bit e)
get-majority h before a b c d e =
    let (small, count) =
      ones_of_digits (bit a) (bit b) (bit c) (bit d) (bit e) (bit-le a) (bit-le b) (bit-le c)
        (bit-le d) (bit-le e) in
    rw (feed_all-append before (a ∷ b ∷ c ∷ d ∷ e ∷ []) h, last_five (feed_all h before) a b c d e)
      (get-ones _ small ∙ ap (leb 3) count)
