-- ===== src/Common/Int.antt =====
-- The values of C's int that the code tells apart, and plain char, which is signed.
use os_unixvr4_labs.Common.{ℕ, ◌-◌, ◌<◌, ◌≡◌, Bool, true, false, ltb, if◌then◌else◌, arith}

-- `negsuc n` is -(n + 1).
pub data ℤ : Type 0 where
  pos : ℕ → ℤ
  negsuc : ℕ → ℤ

-- The int that a char holding the byte `c` is promoted to.
unfoldable pub int_of_char : ℕ → ℤ
int_of_char c = if ltb c 128 then pos c else negsuc (255 - c)

abbrev pub is_nonneg : ℤ → Bool
is_nonneg (pos n) = true
is_nonneg (negsuc n) = false

pub int_of_char-ascii : (c : ℕ) → c < 128 → int_of_char c ≡ pos c
unfolding int_of_char
int_of_char-ascii c h = ground arith
