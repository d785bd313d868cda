-- ===== src/Common/Words.antt =====
-- Unsigned words that wrap, and their little-endian bytes.
use Prim.Native.Nat.{ℕ, ◌+◌, ◌-◌, ◌*◌, ◌/◌, ◌%◌, ◌^◌, ◌<◌}
use mathlib.Core.List.{List, [], ◌∷◌, ◌++◌}
use obc.Common.Lists.{get_or}
use obc.Common.Tests.{ltb, if◌then◌else◌}

abbrev pub IsByte : ℕ → Type 0
IsByte b = b < 256

abbrev pub IsU16 : ℕ → Type 0
IsU16 n = n < 2 ^ 16

abbrev pub IsU32 : ℕ → Type 0
IsU32 n = n < 2 ^ 32

abbrev pub IsU64 : ℕ → Type 0
IsU64 n = n < 2 ^ 64

abbrev pub u8 : ℕ → ℕ
u8 n = n % 256

abbrev pub u16 : ℕ → ℕ
u16 n = n % 2 ^ 16

abbrev pub u32 : ℕ → ℕ
u32 n = n % 2 ^ 32

-- uint32_t a - b, which wraps.
abbrev pub sub32 : ℕ → ℕ → ℕ
sub32 a b = (a + 2 ^ 32 - b % 2 ^ 32) % 2 ^ 32

-- The bytes of a packed little-endian field.
abbrev pub le16 : ℕ → List ℕ
le16 n = u8 n ∷ u8 (n / 256) ∷ []

abbrev pub le32 : ℕ → List ℕ
le32 n = u8 n ∷ u8 (n / 256) ∷ u8 (n / 2 ^ 16) ∷ u8 (n / 2 ^ 24) ∷ []

abbrev pub le64 : ℕ → List ℕ
le64 n = le32 (n % 2 ^ 32) ++ le32 (n / 2 ^ 32)

-- The field that starts at byte `i`.
abbrev pub read8 : List ℕ → ℕ → ℕ
read8 bs i = get_or bs i 0

abbrev pub read16 : List ℕ → ℕ → ℕ
read16 bs i = get_or bs i 0 + 256 * get_or bs (i + 1) 0

abbrev pub read32 : List ℕ → ℕ → ℕ
read32 bs i =
    get_or bs i 0
    + 256 * get_or bs (i + 1) 0
    + 2 ^ 16 * get_or bs (i + 2) 0
    + 2 ^ 24 * get_or bs (i + 3) 0

abbrev pub read64 : List ℕ → ℕ → ℕ
read64 bs i = read32 bs i + 2 ^ 32 * read32 bs (i + 4)

-- A signed integer: `negsuc n` is `-(n + 1)`.
pub data ℤ : Type 0 where
  pos : ℕ → ℤ
  negsuc : ℕ → ℤ

-- A word of 32 bits as an `int`.
abbrev pub int32 : ℕ → ℤ
int32 n = if ltb n 2147483648 then ℤ.pos n else ℤ.negsuc (4294967295 - n)
