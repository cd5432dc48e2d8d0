-- ===== src/Cyclic/Cells.antt =====
-- The bytes of a ring from an absolute position on.
use os_unixvr4_labs.Common.{
  span, span-add, span-ext, span-of_list, ℕ, ◌+◌, ◌%◌, ◌≤◌, ◌<◌, ◌≡◌, ap, ap₂, ◌∙◌, sym, List, ◌++◌,
  arith, get_or, write_at, length, mod-add-mod, mod-eq_of_lt, mod-ne_of_near, get_or-write_at_ne,
  get_or-write_at,
}

-- The `n` bytes at the positions `k`, `k + 1`, …, each taken modulo `size`.
abbrev pub cells : List ℕ → ℕ → ℕ → ℕ → List ℕ
cells buf size = span (λ j. get_or buf (j % size) 0)

-- A position may be reduced.
pub cells-mod : (buf : List ℕ) (size k n : ℕ) → cells buf size (k % size) n ≡ cells buf size k n
cells-mod buf size k n =
    span-ext (λ j. get_or buf (j % size) 0) (λ j. get_or buf (j % size) 0) (k % size) k n
      (λ i l. ap (λ j. get_or buf j 0) (mod-add-mod k size i))

-- A block written behind the last byte, in one piece and with room for it, is appended.
module _ (buf : List ℕ) (size start count : ℕ) (xs : List ℕ) (held : size ≤ length buf)
    (room : count + length xs ≤ size) (piece : (start + count) % size + length xs ≤ size) where
  place : (j : ℕ) → j < length xs → (start + count) % size + j ≡ (start + count + j) % size
  place j l =
      sym (mod-eq_of_lt {n = (start + count) % size + j} (omega arith))
      ∙ mod-add-mod (start + count) size j

  kept :
      (i : ℕ)
      → i < count
      → get_or (write_at buf ((start + count) % size) xs) ((start + i) % size) 0
        ≡ get_or buf ((start + i) % size) 0
  kept i l = get_or-write_at_ne buf ((start + count) % size) xs ((start + i) % size) 0 (λ j lj e.
      mod-ne_of_near (start + i) (start + count + j) size (omega arith) (omega arith)
        (sym e ∙ place j lj))

  written :
      (i : ℕ)
      → i < length xs
      → get_or (write_at buf ((start + count) % size) xs) ((start + count + i) % size) 0
        ≡ get_or xs i 0
  written i l =
      rw (← place i l) (get_or-write_at buf ((start + count) % size) xs i 0 (omega arith) l)

  pub cells-write_at :
      cells (write_at buf ((start + count) % size) xs) size start (count + length xs)
      ≡ cells buf size start count ++ xs
  cells-write_at =
      span-add _ start count (length xs)
      ∙ ap₂ ◌++◌
          (span-ext (λ j. get_or (write_at buf ((start + count) % size) xs) (j % size) 0)
            (λ j. get_or buf (j % size) 0) start start count kept)
          (span-of_list (λ j. get_or (write_at buf ((start + count) % size) xs) (j % size) 0) 0
            (start + count) xs written)
