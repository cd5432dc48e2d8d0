-- ===== src/Common/Span.antt =====
-- The values of a memory, a function of the address, from one address on.
use Prim.Native.Nat.{ℕ, zero, suc, ◌+◌, ◌-◌, ◌≤◌, ◌<◌}
use mathlib.Core.Path.{◌≡◌, refl, ap, ap₂, ◌∙◌, sym}
use mathlib.Core.List.{List, [], ◌∷◌, ◌++◌}
use native.Mathlib.Omega.{arith}
use native.Mathlib.Numerals.{add-one}
use os_unixvr4_labs.Common.Lists.{
  length, get_or, write_at, drop, take, take-drop, get_or-write_at_lt, get_or-write_at,
}

module _ {ℓ} {A : Type ℓ} where
  -- The `n` values at `k`, `k + 1`, and so on.
  abbrev pub span : (ℕ → A) → ℕ → ℕ → List A
  span s k zero = []
  span s k (suc n) = s k ∷ span s (k + 1) n

  pub length-span : (s : ℕ → A) (k n : ℕ) → length (span s k n) ≡ n
  length-span s k zero = refl
  length-span s k (suc n) = ap suc (length-span s (k + 1) n)

  pub drop-span : (s : ℕ → A) (m k n : ℕ) → m ≤ n → drop m (span s k n) ≡ span s (k + m) (n - m)
  drop-span s zero k n h = ap₂ (span s) (omega arith) (omega arith)
  drop-span s (suc m) k zero h = absurd (omega arith)
  drop-span s (suc m) k (suc n) h =
      drop-span s m (k + 1) n (omega arith) ∙ ap₂ (span s) (omega arith) (omega arith)

  pub take-span : (s : ℕ → A) (k m n : ℕ) → m ≤ n → take m (span s k n) ≡ span s k m
  take-span s k zero n h = refl
  take-span s k (suc m) zero h = absurd (omega arith)
  take-span s k (suc m) (suc n) h = ap (◌∷◌ (s k)) (take-span s (k + 1) m n (omega arith))

  pub span-add : (s : ℕ → A) (k m n : ℕ) → span s k (m + n) ≡ span s k m ++ span s (k + m) n
  span-add s k zero n = ap₂ (span s) (omega arith) (omega arith)
  span-add s k (suc m) n =
      ap (span s k) (suc_add m n)
      ∙ ap (◌∷◌ (s k))
          (span-add s (k + 1) m n ∙ ap (λ j. span s (k + 1) m ++ span s j n) (omega arith))
    where
      suc_add : (a b : ℕ) → suc a + b ≡ suc (a + b)
      suc_add a b = omega arith

  -- Two memories that agree at the addresses in question hold the same values.
  pub span-ext :
      (s t : ℕ → A) (k k' n : ℕ)
      → ((i : ℕ) → i < n → s (k + i) ≡ t (k' + i))
      → span s k n ≡ span t k' n
  span-ext s t k k' zero h = refl
  span-ext s t k k' (suc n) h = ap₂ ◌∷◌ (rw (add_zero k, add_zero k') at (h 0 (omega arith))) (
      span-ext s t (k + 1) (k' + 1) n
        (λ i l. rw (regroup k i, regroup k' i) (h (i + 1) (omega arith))))
    where
      add_zero : (a : ℕ) → a + 0 ≡ a
      add_zero a = omega arith

      regroup : (a i : ℕ) → a + 1 + i ≡ a + (i + 1)
      regroup a i = omega arith

  pub span-of_list :
      (s : ℕ → A) (d : A) (k : ℕ) (xs : List A)
      → ((i : ℕ) → i < length xs → s (k + i) ≡ get_or xs i d)
      → span s k (length xs) ≡ xs
  span-of_list s d k [] h = refl
  span-of_list s d k (x ∷ xs) h =
      ap₂ ◌∷◌ (rw (add_zero k) at (h 0 (omega arith)))
        (span-of_list s d (k + 1) xs (λ i l. ap s (regroup k i) ∙ h (suc i) (omega arith)))
    where
      add_zero : (a : ℕ) → a + 0 ≡ a
      add_zero a = omega arith

      regroup : (a i : ℕ) → a + 1 + i ≡ a + suc i
      regroup a i = omega arith

  -- A block written behind the first `k` cells of an array is appended to them.
  pub span-write_at :
      (d : A) (buf : List A) (k : ℕ) (xs : List A)
      → k + length xs ≤ length buf
      → span (λ j. get_or (write_at buf k xs) j d) 0 (k + length xs)
        ≡ span (λ j. get_or buf j d) 0 k ++ xs
  span-write_at d buf k xs h =
      span-add (λ j. get_or (write_at buf k xs) j d) 0 k (length xs)
      ∙ ap₂ ◌++◌
          (span-ext (λ j. get_or (write_at buf k xs) j d) (λ j. get_or buf j d) 0 0 k
            (λ i l. get_or-write_at_lt buf k xs (0 + i) d (omega arith)))
          (span-of_list (λ j. get_or (write_at buf k xs) j d) d (0 + k) xs
            (λ i l.
              ap (λ j. get_or (write_at buf k xs) j d) (omega arith)
              ∙ get_or-write_at buf k xs i d h l))

  pub span-take :
      (d : A) (buf : List A) (k n : ℕ)
      → k + n ≤ length buf
      → span (λ j. get_or buf j d) k n ≡ take n (drop k buf)
  span-take d buf k zero h = refl
  span-take d buf k (suc n) h =
      ap (◌∷◌ (get_or buf k d)) (span-take d buf (k + 1) n (omega arith))
      ∙ ap (λ j. get_or buf k d ∷ take n (drop j buf)) (add-one k)
      ∙ sym (take-drop buf k n d (omega arith))
