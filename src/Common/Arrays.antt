-- ===== src/Common/Arrays.antt =====
-- Arrays as functions of the index: update at one index, and the cells that hold a value.
use Prim.Native.Nat.{ℕ, zero, suc, ◌+◌, ◌≤◌, ◌<◌}
use mathlib.Core.Path.{◌≡◌, refl}
use mathlib.Core.Logic.{◌≢◌}
use mathlib.Core.Option.{Option, none, some}
use native.Mathlib.Decide.{ℕ_discrete}
use native.Mathlib.Omega.{arith}
use os_unixvr4_labs.Common.Tests.{◌==◌, if◌then◌else◌}

abbrev pub update {ℓ} : {A : Type ℓ} → (ℕ → A) → ℕ → A → ℕ → A
update f i v j = if i == j then v else f j

pub update_self {ℓ} : {A : Type ℓ} (f : ℕ → A) (i : ℕ) (v : A) → update f i v i ≡ v
update_self f i v = ground arith

pub update_ne {ℓ} : {A : Type ℓ} (f : ℕ → A) (i j : ℕ) (v : A) → i ≢ j → update f i v j ≡ f j
update_ne f i j v h = ground arith

abbrev pub weight : Option ℕ → ℕ
weight none = 0
weight (some v) = 1

-- The number of cells below `n` that hold a value.
pub used : ℕ → (ℕ → Option ℕ) → ℕ
used zero f = 0
used (suc n) f = used n f + weight (f n)

used-update_ge :
    (n : ℕ) (f : ℕ → Option ℕ) (i : ℕ) (v : Option ℕ) → n ≤ i → used n (update f i v) ≡ used n f
unfolding used
used-update_ge zero f i v h = refl
used-update_ge (suc n) f i v h = ground (arith, used-update_ge n f i v)

pub used-update :
    (n : ℕ) (f : ℕ → Option ℕ) (i : ℕ) (v : Option ℕ)
    → i < n
    → used n (update f i v) + weight (f i) ≡ used n f + weight v
unfolding used
used-update zero f i v h = absurd (omega arith)
used-update (suc n) f i v h = elim (ℕ_discrete i n) [
  | yes e ↦ ground (arith, used-update_ge n f i v)
  | no ne ↦ ground (arith, used-update n f i v)
]

pub used-le : (n : ℕ) (f : ℕ → Option ℕ) → used n f ≤ n
unfolding used
used-le zero f = omega arith
used-le (suc n) f = ground (arith, used-le n f)

-- With an empty cell, fewer than all are used.
pub used-lt : (n : ℕ) (f : ℕ → Option ℕ) (i : ℕ) → i < n → f i ≡ none → used n f < n
unfolding used
used-lt zero f i h e = absurd (omega arith)
used-lt (suc n) f i h e = elim (ℕ_discrete i n) [
  | yes e' ↦ ground (arith, used-le n f)
  | no ne ↦ ground (arith, used-lt n f i)
]

-- If all are used, no cell is empty.
pub used-full : (n : ℕ) (f : ℕ → Option ℕ) → ((i : ℕ) → i < n → f i ≢ none) → used n f ≡ n
unfolding used
used-full zero f h = refl
used-full (suc n) f h = ground (arith, used-full n f (λ i l. h i (omega arith)), h n (omega arith))

pub used-none : (n : ℕ) → used n (λ i. none) ≡ 0
unfolding used
used-none zero = refl
used-none (suc n) = ground (arith, used-none n)
