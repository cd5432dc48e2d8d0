-- ===== src/Common/Words.antt =====
-- size_t: 64 bits, with wrap-around.
use Prim.Native.Nat.{ℕ, ◌+◌, ◌-◌, ◌%◌, ◌^◌, ◌<◌}
use mathlib.Core.Logic.{◌≢◌}
use native.Mathlib.Nat.{div-add-mod}
use native.Mathlib.Omega.{arith}

abbrev pub size_mod : ℕ
size_mod = 2 ^ 64

-- No object is larger than PTRDIFF_MAX bytes, so that the sum of two offsets does not wrap.
abbrev pub max_object : ℕ
max_object = 2 ^ 63 - 1

abbrev pub add_size : ℕ → ℕ → ℕ
add_size a b = (a + b) % size_mod

abbrev pub sub_size : ℕ → ℕ → ℕ
sub_size a b = (a + size_mod - b) % size_mod

-- Two numbers less than `s` apart are different modulo `s`.
pub mod-ne_of_near : (a b s : ℕ) → a < b → b < a + s → a % s ≢ b % s
mod-ne_of_near a b s h k e = grind (arith, div-add-mod a s, div-add-mod b s)
