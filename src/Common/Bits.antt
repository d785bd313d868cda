-- ===== src/Common/Bits.antt =====
-- Laws of the native bit operations at variables, from their recursion on binary digits.
use Prim.Native.Nat.{ℕ, zero, suc, ◌+◌, ◌*◌, ◌/◌, ◌%◌, ◌^◌, ◌≤◌, ◌<◌, min, max}
use Prim.Native.Nat.{bit_and, bit_or, bit_xor, digits, bitwise, differ}
use Prim.Native.Nat.{bit_and-bitwise, bit_or-bitwise, bit_xor-bitwise}
use mathlib.Core.Path.{◌≡◌, refl, sym, ap, ap₂, ◌∙◌}
use native.Mathlib.Nat.{le_refl, pow-suc, div-add-mod, mod-lt, div-div-eq-div-mul}
use native.Mathlib.Omega.{arith}

-- The recursion on digits, with its fuel put away: one equation for the lowest digit.
module _ (z : ℕ → ℕ) (f : ℕ → ℕ → ℕ) where
  fuel_free : (n m a b : ℕ) → (a ≤ n) × (a ≤ m) → digits z f n a b ≡ digits z f m a b
  fuel_free zero zero a b h = refl
  fuel_free zero (suc m) zero b h = refl
  fuel_free (suc n) zero zero b h = refl
  fuel_free (suc n) (suc m) zero b h = refl
  fuel_free zero (suc m) (suc a) b h = absurd (omega arith)
  fuel_free (suc n) zero (suc a) b h = absurd (omega arith)
  fuel_free (suc n) (suc m) (suc a) b h =
      ap (λ (t : ℕ). t * 2 + f (suc a % 2) (b % 2))
        (fuel_free n m (suc a / 2) (b / 2) (omega arith, omega arith))

  lowest :
      (a b : ℕ)
      → bitwise z f (suc a) b ≡ bitwise z f (suc a / 2) (b / 2) * 2 + f (suc a % 2) (b % 2)
  lowest a b =
      ap (λ (t : ℕ). t * 2 + f (suc a % 2) (b % 2))
        (fuel_free a (suc a / 2) (suc a / 2) (b / 2) (omega arith, omega arith))

pub bit_and_halves : (a b : ℕ) → bit_and a b ≡ bit_and (a / 2) (b / 2) * 2 + min (a % 2) (b % 2)
bit_and_halves zero b = simp bit_and-bitwise (omega arith)
bit_and_halves (suc a) b = simp bit_and-bitwise (lowest (λ y. 0) min a b)

pub bit_or_halves : (a b : ℕ) → bit_or a b ≡ bit_or (a / 2) (b / 2) * 2 + max (a % 2) (b % 2)
bit_or_halves zero b = simp bit_or-bitwise (omega arith)
bit_or_halves (suc a) b = simp bit_or-bitwise (lowest (λ y. y) max a b)

differ_bit : (a b : ℕ) → differ (a % 2) (b % 2) ≡ (a + b) % 2
differ_bit a b = by_bits (a % 2) (b % 2) (omega arith) (omega arith)
  where
    by_bits : (x y : ℕ) → x ≡ a % 2 → y ≡ b % 2 → differ x y ≡ (a + b) % 2
    by_bits zero y p q = omega arith
    by_bits (suc zero) zero p q = omega arith
    by_bits (suc zero) (suc zero) p q = omega arith
    by_bits (suc zero) (suc (suc y)) p q = absurd (omega arith)
    by_bits (suc (suc x)) y p q = absurd (omega arith)

pub bit_xor_halves : (a b : ℕ) → bit_xor a b ≡ bit_xor (a / 2) (b / 2) * 2 + (a + b) % 2
bit_xor_halves zero b = simp bit_xor-bitwise (omega arith)
bit_xor_halves (suc a) b =
    simp bit_xor-bitwise (omega (arith, lowest (λ y. y) differ a b, differ_bit (suc a) b))

-- Every lemma below goes from `a / 2` to `a`: by recursion on a bound of `a`, or on a width.
bit_and-zero_below : (n a : ℕ) → a ≤ n → bit_and a 0 ≡ 0
bit_and-zero_below n zero h = simp bit_and-bitwise
bit_and-zero_below zero (suc a) h = absurd (omega arith)
bit_and-zero_below (suc n) (suc a) h =
    omega (arith, bit_and_halves (suc a) 0, bit_and-zero_below n (suc a / 2) (omega arith))

pub bit_and-zero : (a : ℕ) → bit_and a 0 ≡ 0
bit_and-zero a = bit_and-zero_below a a (le_refl a)

bit_or-zero_below : (n a : ℕ) → a ≤ n → bit_or a 0 ≡ a
bit_or-zero_below n zero h = simp bit_or-bitwise
bit_or-zero_below zero (suc a) h = absurd (omega arith)
bit_or-zero_below (suc n) (suc a) h =
    omega (arith, bit_or_halves (suc a) 0, bit_or-zero_below n (suc a / 2) (omega arith))

pub bit_or-zero : (a : ℕ) → bit_or a 0 ≡ a
bit_or-zero a = bit_or-zero_below a a (le_refl a)

bit_xor-zero_below : (n a : ℕ) → a ≤ n → bit_xor a 0 ≡ a
bit_xor-zero_below n zero h = simp bit_xor-bitwise
bit_xor-zero_below zero (suc a) h = absurd (omega arith)
bit_xor-zero_below (suc n) (suc a) h =
    omega (arith, bit_xor_halves (suc a) 0, bit_xor-zero_below n (suc a / 2) (omega arith))

pub bit_xor-zero : (a : ℕ) → bit_xor a 0 ≡ a
bit_xor-zero a = bit_xor-zero_below a a (le_refl a)

bit_xor_self_below : (n a : ℕ) → a ≤ n → bit_xor a a ≡ 0
bit_xor_self_below n zero h = simp bit_xor-bitwise
bit_xor_self_below zero (suc a) h = absurd (omega arith)
bit_xor_self_below (suc n) (suc a) h =
    omega (arith, bit_xor_halves (suc a) (suc a), bit_xor_self_below n (suc a / 2) (omega arith))

pub bit_xor_self : (a : ℕ) → bit_xor a a ≡ 0
bit_xor_self a = bit_xor_self_below a a (le_refl a)

double_pow : (k : ℕ) → 2 ^ suc k ≡ 2 * 2 ^ k
double_pow k = omega (arith, pow-suc 2 k)

-- The exclusive or of two `k`-bit numbers has `k` bits.
pub bit_xor-lt : (k a b : ℕ) → a < 2 ^ k → b < 2 ^ k → bit_xor a b < 2 ^ k
bit_xor-lt zero a b p q =
    ground (arith, bit_xor_self 0, ap (λ t. bit_xor t b) zero_a, ap (λ t. bit_xor 0 t) zero_b)
  where
    zero_a : a ≡ 0
    zero_a = omega arith

    zero_b : b ≡ 0
    zero_b = omega arith
bit_xor-lt (suc k) a b p q = omega (
  arith,
  double_pow k,
  bit_xor_halves a b,
  bit_xor-lt k (a / 2) (b / 2) (omega (arith, double_pow k)) (omega (arith, double_pow k)),
)

-- A field of `k` bits below `q`, in the words of arithmetic.
doubled : (q k : ℕ) → q * 2 ^ suc k ≡ 2 * (q * 2 ^ k)
doubled q k = omega (arith, ap (λ (t : ℕ). q * t) (double_pow k))

low_field : (k q r m : ℕ) → m + 1 ≡ 2 ^ k → r < 2 ^ k → bit_and (q * 2 ^ k + r) m ≡ r
low_field zero q r m e h =
    omega (arith, ap (λ t. bit_and (q * 2 ^ 0 + r) t) none_left, bit_and-zero (q * 2 ^ 0 + r))
  where
    none_left : m ≡ 0
    none_left = omega arith
low_field (suc k) q r m e h = omega (
  arith,
  double_pow k,
  doubled q k,
  bit_and_halves (q * 2 ^ suc k + r) m,
  ap (λ t. bit_and t (m / 2)) half,
  low_field k q (r / 2) (m / 2) (omega (arith, double_pow k)) (omega (arith, double_pow k)),
)
  where
    half : (q * 2 ^ suc k + r) / 2 ≡ q * 2 ^ k + r / 2
    half = omega (arith, doubled q k)

pow_pos : (k : ℕ) → 0 < 2 ^ k
pow_pos zero = omega arith
pow_pos (suc k) = omega (arith, double_pow k, pow_pos k)

-- A mask of `k` ones keeps the remainder by `2 ^ k`.
pub bit_and_mask : (k a m : ℕ) → m + 1 ≡ 2 ^ k → bit_and a m ≡ a % 2 ^ k
bit_and_mask k a m e =
    rw (ap (λ t. bit_and t m) parts)
      (low_field k (a / 2 ^ k) (a % 2 ^ k) m e (mod-lt a (pow_pos k)))
  where
    parts : a ≡ a / 2 ^ k * 2 ^ k + a % 2 ^ k
    parts = omega (arith, div-add-mod a (2 ^ k))

-- Fields that do not overlap are joined by a sum.
pub bit_or_disjoint : (k q r : ℕ) → r < 2 ^ k → bit_or (q * 2 ^ k) r ≡ q * 2 ^ k + r
bit_or_disjoint zero q r h =
    omega (arith, ap (λ t. bit_or (q * 2 ^ 0) t) no_bits, bit_or-zero (q * 2 ^ 0))
  where
    no_bits : r ≡ 0
    no_bits = omega arith
bit_or_disjoint (suc k) q r h = omega (
  arith,
  double_pow k,
  doubled q k,
  bit_or_halves (q * 2 ^ suc k) r,
  ap (λ t. bit_or t (r / 2)) half,
  bit_or_disjoint k q (r / 2) (omega (arith, double_pow k)),
)
  where
    half : q * 2 ^ suc k / 2 ≡ q * 2 ^ k
    half = omega (arith, doubled q k)

-- A common field of `k` low bits vanishes from the exclusive or.
pub bit_xor_fields :
    (k q p r : ℕ) → r < 2 ^ k → bit_xor (q * 2 ^ k + r) (p * 2 ^ k + r) ≡ bit_xor q p * 2 ^ k
bit_xor_fields zero q p r h = ap₂ bit_xor (alone q) (alone p) ∙ omega arith
  where
    alone : (n : ℕ) → n * 2 ^ 0 + r ≡ n
    alone n = omega arith
bit_xor_fields (suc k) q p r h = omega (
  arith,
  doubled q k,
  doubled p k,
  doubled (bit_xor q p) k,
  bit_xor_halves (q * 2 ^ suc k + r) (p * 2 ^ suc k + r),
  ap₂ bit_xor (half q) (half p),
  bit_xor_fields k q p (r / 2) (omega (arith, double_pow k)),
)
  where
    half : (n : ℕ) → (n * 2 ^ suc k + r) / 2 ≡ n * 2 ^ k + r / 2
    half n = omega (arith, doubled n k)

-- The single bit `k`, as a test.
pub bit_and_bit : (k a : ℕ) → bit_and a (2 ^ k) ≡ a / 2 ^ k % 2 * 2 ^ k
bit_and_bit zero a = omega (arith, bit_and_mask 1 a 1 (omega arith))
bit_and_bit (suc k) a = omega (
  arith,
  double_pow k,
  bit_and_halves a (2 ^ suc k),
  ap (λ t. bit_and (a / 2) t) halved,
  bit_and_bit k (a / 2),
  ap (λ (t : ℕ). t % 2 * 2 ^ suc k) half_twice,
  doubled (a / 2 / 2 ^ k % 2) k,
)
  where
    halved : 2 ^ suc k / 2 ≡ 2 ^ k
    halved = omega (arith, double_pow k)

    half_twice : a / 2 ^ suc k ≡ a / 2 / 2 ^ k
    half_twice = ap (λ (t : ℕ). a / t) (double_pow k) ∙ sym (div-div-eq-div-mul a 2 (2 ^ k))

bit_or_comm_below : (n a b : ℕ) → a ≤ n → b ≤ n → bit_or a b ≡ bit_or b a
bit_or_comm_below n zero b p q = sym (bit_or-zero b ∙ sym (simp bit_or-bitwise))
bit_or_comm_below n (suc a) zero p q = bit_or-zero (suc a) ∙ sym (simp bit_or-bitwise)
bit_or_comm_below zero (suc a) (suc b) p q = absurd (omega arith)
bit_or_comm_below (suc n) (suc a) (suc b) p q = omega (
  arith,
  bit_or_halves (suc a) (suc b),
  bit_or_halves (suc b) (suc a),
  bit_or_comm_below n (suc a / 2) (suc b / 2) (omega arith) (omega arith),
)

pub bit_or_comm : (a b : ℕ) → bit_or a b ≡ bit_or b a
bit_or_comm a b = bit_or_comm_below (a + b) a b (omega arith) (omega arith)
