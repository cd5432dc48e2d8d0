-- ===== src/IoBuffer/Items.antt =====
-- The bytes that an IOBuffer holds, and what the loops make of them.
use os_unixvr4_labs.Common.{
  ℕ, zero, suc, ◌+◌, ◌-◌, ◌≤◌, ◌<◌, ◌≡◌, ◌≢◌, refl, sym, ap, ◌⊎◌, span-take, ◌∙◌, List, ◌∷◌, ◌++◌,
  true, false, arith, get_or, drop, length, length-set, max_object, add_size, sub_size, Bool-cases,
  inl, inr, ltb, ltb→lt, ltb→le, ==_iff, ◌==◌, if◌then◌else◌, span, length-span, drop-span,
  span-ext, span-write_at, drop-eq-nil, get_or-set_self, get_or-set_ne,
}
use native.Mathlib.Decide.{ℕ_discrete}
use os_unixvr4_labs.IoBuffer.{IoBuffer, iob_free_space, shift_down, iob_shift, pending}
use os_unixvr4_labs.IoBuffer.Inv.{IsValid, free_space-add-count, stored}

-- The bytes that a buffer holds, oldest first.
abbrev pub items : IoBuffer → List ℕ
items b = span (λ j. get_or b.buf j 0) 0 b.count

pub length-items : (b : IoBuffer) → length (items b) ≡ b.count
length-items b = length-span _ 0 b.count

-- The loop of `iob_shift` reads each cell before it is overwritten.
shift_down_before :
    (offset i rounds : ℕ) (buf : List ℕ) (j : ℕ)
    → j < i
    → get_or (shift_down offset i rounds buf) j 0 ≡ get_or buf j 0
unfolding shift_down
shift_down_before offset i zero buf j h = refl
shift_down_before offset i (suc rounds) buf j h =
    shift_down_before offset (i + 1) rounds _ j (omega arith)
    ∙ get_or-set_ne buf i j _ 0 (omega arith)

shift_down_moved :
    (offset i rounds : ℕ) (buf : List ℕ) (j : ℕ)
    → 0 < offset
    → offset + i + rounds ≤ length buf
    → offset + i + rounds ≤ max_object
    → i ≤ j
    → j < i + rounds
    → get_or (shift_down offset i rounds buf) j 0 ≡ get_or buf (offset + j) 0
unfolding shift_down
shift_down_moved offset i zero buf j p h m l u = absurd (omega arith)
shift_down_moved offset i (suc rounds) buf j p h m l u = elim (ℕ_discrete i j) [
  | yes e ↦ rw (← e) (
      shift_down_before offset (i + 1) rounds _ i (omega arith)
      ∙ get_or-set_self buf i _ 0 (omega arith)
      ∙ ap (λ k. get_or buf k 0) (omega arith))
  | no ne ↦
      shift_down_moved offset (i + 1) rounds _ j p
        (omega (arith, length-set buf i (get_or buf (add_size offset i) 0))) (omega arith)
        (omega arith) (omega arith)
      ∙ get_or-set_ne buf i (offset + j) _ 0 (omega arith)
]

items-shifted :
    {b : IoBuffer} (n : ℕ)
    → IsValid b
    → 0 < n
    → n ≤ b.count
    → span (λ j. get_or (shift_down n 0 (sub_size b.count n) b.buf) j 0) 0 (sub_size b.count n)
      ≡ drop n (items b)
items-shifted {b} n v p h =
    ap (λ c. span (λ j. get_or (shift_down n 0 c b.buf) j 0) 0 c) (omega arith)
    ∙ span-ext (λ j. get_or (shift_down n 0 (b.count - n) b.buf) j 0) (λ j. get_or b.buf j 0) 0 n
        (b.count - n)
        (λ i l.
          shift_down_moved n 0 (b.count - n) b.buf (0 + i) p (omega arith) (omega arith)
            (omega arith) (omega arith)
          ∙ ap (λ k. get_or b.buf k 0) (omega arith))
    ∙ ap (λ k. span (λ j. get_or b.buf j 0) k (b.count - n)) (omega arith)
    ∙ sym (drop-span (λ j. get_or b.buf j 0) n 0 b.count h)

-- `iob_shift` drops the oldest bytes, all of them if there are fewer.
pub items-shift : {b : IoBuffer} (n : ℕ) → IsValid b → items (iob_shift b n) ≡ drop n (items b)
unfolding iob_shift
items-shift {b} n v = elim (Bool-cases (n == 0)) [
  | inl e ↦ rw e (ap (λ k. drop k (items b)) {x = 0} {y = n} (omega (arith, (==_iff n 0).0 e)))
  | inr e ↦ rw e (clamped (Bool-cases (ltb b.count n)) (ground arith))
]
  where
    clamped :
        (ltb b.count n ≡ true) ⊎ (ltb b.count n ≡ false)
        → 0 < n
        → let m = if ltb b.count n then b.count else n in
          span (λ j. get_or (shift_down m 0 (sub_size b.count m) b.buf) j 0) 0 (sub_size b.count m)
          ≡ drop n (items b)
    clamped (inl e) p = rw e (
        ap (span _ 0) {y = 0} (omega arith)
        ∙ sym (drop-eq-nil (items b) n (omega (arith, length-items b, ltb→lt b.count n e))))
    clamped (inr e) p = rw e (items-shifted n v p (ltb→le b.count n e))

-- The bytes that `iob_send` offers are those that the buffer holds.
pub pending-items : {b : IoBuffer} → IsValid b → pending b ≡ items b
pending-items {b} v = sym (span-take 0 b.buf 0 b.count (omega arith))

pub items-stored :
    {b : IoBuffer} (xs : List ℕ)
    → IsValid b
    → length xs ≤ iob_free_space b
    → items (stored b xs) ≡ items b ++ xs
items-stored {b} xs v h =
    ap (span _ 0) (omega (arith, free_space-add-count v))
    ∙ span-write_at 0 b.buf b.count xs (omega (arith, free_space-add-count v))

pub items-nonempty : (b : IoBuffer) → b.count ≢ 0 → items b ≡ get_or b.buf 0 0 ∷ drop 1 (items b)
items-nonempty b h = at b.count h
  where
    at :
        (n : ℕ)
        → n ≢ 0
        → span (λ j. get_or b.buf j 0) 0 n
          ≡ get_or b.buf 0 0 ∷ drop 1 (span (λ j. get_or b.buf j 0) 0 n)
    at zero h' = absurd (h' refl)
    at (suc n) h' = refl
