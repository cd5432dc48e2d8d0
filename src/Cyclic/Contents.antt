-- ===== src/Cyclic/Contents.antt =====
-- The bytes that a CyclicBuffer holds, and what each function makes of them.
use os_unixvr4_labs.Common.{
  drop-eq-nil, length-span, drop-span, span-ext, ℕ, zero, suc, ◌+◌, ◌-◌, ◌%◌, ◌≤◌, ◌<◌, ◌≡◌, ◌≢◌,
  refl, sym, ap, ap₂, ◌∙◌, List, [], ◌∷◌, ◌++◌, true, false, arith, get_or, write_at, length, take,
  drop, add_size, sub_size, take-drop, length-write_at, mod-lt, Bool-cases, inl, inr, mod-eq_of_lt,
  get_or-set_self, get_or-set_ne, length-set, ◌==◌, ltb, if◌then◌else◌, ltb→lt, ltb→le, ==_iff,
}
use native.Mathlib.Numerals.{add-one}
use os_unixvr4_labs.Cyclic.{
  CyclicBuffer, cb_free_space, shift_loop, cb_shift, cb_skip, cb_skip_right, cb_putc, shift_to_send,
  offered, cb_contiguous_space,
}
use os_unixvr4_labs.Cyclic.Cells.{cells, cells-mod, cells-write_at}
use os_unixvr4_labs.Cyclic.Inv.{
  IsValid, free_space-add-count, shift_fields, shift-IsValid, skip_right_count,
}

-- The bytes that a buffer holds, oldest first.
abbrev pub contents : CyclicBuffer → List ℕ
contents b = cells b.buf b.size b.start b.count

pub length-contents : (b : CyclicBuffer) → length (contents b) ≡ b.count
length-contents b = length-span _ b.start b.count

-- The loop of `cb_shift` copies each byte to its place, and leaves the places before alone.
shift_loop_before :
    (old : List ℕ) (start size i rounds : ℕ) (buf : List ℕ) (j : ℕ)
    → j < i
    → get_or (shift_loop old start size i rounds buf) j 0 ≡ get_or buf j 0
unfolding shift_loop
shift_loop_before old start size i zero buf j h = refl
shift_loop_before old start size i (suc rounds) buf j h =
    shift_loop_before old start size (i + 1) rounds _ j (omega arith)
    ∙ get_or-set_ne buf i j _ 0 (omega arith)

shift_loop_copied :
    (old : List ℕ) (start size i rounds : ℕ) (buf : List ℕ) (j : ℕ)
    → i + rounds ≤ length buf
    → i ≤ j
    → j < i + rounds
    → get_or (shift_loop old start size i rounds buf) j 0 ≡ get_or old (add_size start j % size) 0
unfolding shift_loop
shift_loop_copied old start size i zero buf j h l u = absurd (omega arith)
shift_loop_copied old start size i (suc rounds) buf j h l u = elim (Bool-cases (i == j)) [
  | inl e ↦
      let eq : i ≡ j = (==_iff i j).0 e in
      rw (← eq) (
        shift_loop_before old start size (i + 1) rounds _ i (omega arith)
        ∙ get_or-set_self buf i _ 0 (omega arith))
  | inr ne ↦
      shift_loop_copied old start size (i + 1) rounds _ j
        (omega (arith, length-set buf i (get_or old (add_size start i % size) 0))) (ground arith)
        (omega arith)
]

-- `cb_shift` moves the bytes to the start of the array and keeps them and their order.
pub contents-shift : {b : CyclicBuffer} → IsValid b → contents (cb_shift b) ≡ contents b
unfolding cb_shift
contents-shift {b} v = elim (Bool-cases (b.start == 0)) [
  | inl e ↦ rw e
  | inr ne ↦ rw ne (
      span-ext (λ j. get_or (shift_loop b.buf b.start b.size 0 b.count b.buf) (j % b.size) 0)
        (λ j. get_or b.buf (j % b.size) 0) 0 b.start b.count
        (λ i l.
          ap (λ j. get_or (shift_loop b.buf b.start b.size 0 b.count b.buf) j 0) (near i l)
          ∙ shift_loop_copied b.buf b.start b.size 0 b.count b.buf i (omega arith) (omega arith)
              (omega arith)
          ∙ ap (λ j. get_or b.buf (j % b.size) 0) (omega arith)))
]
  where
    near : (i : ℕ) → i < b.count → (0 + i) % b.size ≡ i
    near i l = rw (zero_add i) (mod-eq_of_lt (omega arith))
      where
        zero_add : (n : ℕ) → 0 + n ≡ n
        zero_add n = omega arith

-- `cb_skip` drops the oldest bytes, all of them if there are fewer.
pub contents-skip :
    {b : CyclicBuffer} (n : ℕ) → IsValid b → contents (cb_skip b n) ≡ drop n (contents b)
unfolding cb_skip
contents-skip {b} n v = elim (Bool-cases (ltb b.count n)) [
  | inl e ↦ rw e (
      skipped b.count (omega arith)
      ∙ drop-eq-nil (contents b) b.count (omega (arith, length-contents b))
      ∙ sym (drop-eq-nil (contents b) n (omega (arith, length-contents b, ltb→lt b.count n e))))
  | inr e ↦ rw e (skipped n (ltb→le b.count n e))
]
  where
    skipped :
        (m : ℕ)
        → m ≤ b.count
        → cells b.buf b.size (add_size b.start m % b.size) (sub_size b.count m)
          ≡ drop m (contents b)
    skipped m h =
        ap₂ (λ s c. cells b.buf b.size (s % b.size) c) {x = add_size b.start m} {y = b.start + m}
          {u = sub_size b.count m} {v = b.count - m} (omega arith) (omega arith)
        ∙ cells-mod b.buf b.size (b.start + m) (b.count - m)
        ∙ sym (drop-span (λ j. get_or b.buf (j % b.size) 0) m b.start b.count h)

-- A block that fits in one piece behind the bytes is appended.
pub contents-put_block :
    {b : CyclicBuffer} (xs : List ℕ)
    → IsValid b
    → length xs ≤ cb_free_space b
    → (b.start + b.count) % b.size + length xs ≤ b.size
    → contents (
        cb_skip_right
          (record b { buf = write_at b.buf ((b.start + b.count) % b.size) xs })
          (length xs))
      ≡ contents b ++ xs
contents-put_block {b} xs v h p =
    ap contents (
      skip_right_count {b = record b { buf = write_at b.buf ((b.start + b.count) % b.size) xs }}
        (length xs) valid free)
    ∙ cells-write_at b.buf b.size b.start b.count xs v.storage
        (omega (arith, free_space-add-count v)) p
  where
    valid : IsValid (record b { buf = write_at b.buf ((b.start + b.count) % b.size) xs })
    valid = ground (arith, length-write_at b.buf ((b.start + b.count) % b.size) xs)

    free :
        length xs
        ≤ cb_free_space (record b { buf = write_at b.buf ((b.start + b.count) % b.size) xs })
    free = omega (arith, free_space-add-count v, free_space-add-count valid)

pub no_wrap : {b : CyclicBuffer} → IsValid b → add_size b.start b.count ≡ b.start + b.count
no_wrap v = omega arith

cb_putc-block :
    {b : CyclicBuffer} (c : ℕ)
    → IsValid b
    → b.count < b.size
    → cb_putc b c ≡ (
      true,
      cb_skip_right (record b { buf = write_at b.buf ((b.start + b.count) % b.size) (c ∷ []) }) 1,
    )
unfolding cb_putc
cb_putc-block {b} c v h = ground (arith, no_wrap v)

cb_putc-full : {b : CyclicBuffer} (c : ℕ) → IsValid b → b.size ≤ b.count → cb_putc b c ≡ (false, b)
unfolding cb_putc
cb_putc-full {b} c v h = ground arith

-- `cb_putc` appends a byte where there is room, and else changes nothing.
pub putc_lem :
    {b : CyclicBuffer} (c : ℕ)
    → IsValid b
    → ((cb_putc b c).0 ≡ ltb b.count b.size)
      × (contents (cb_putc b c).1
          ≡ (if ltb b.count b.size then contents b ++ c ∷ [] else contents b))
putc_lem {b} c v = elim (Bool-cases (ltb b.count b.size)) [
  | inl e ↦
      rw (cb_putc-block c v (ltb→lt _ _ e), e)
        (
          refl,
          contents-put_block (c ∷ []) v (omega (arith, free_space-add-count v, ltb→lt _ _ e))
              (omega (arith, mod-lt (b.start + b.count) v.nonempty)),
        )
  | inr e ↦ rw (cb_putc-full c v (ltb→le _ _ e), e) (refl, refl)
]

pub contents-nonempty :
    {b : CyclicBuffer}
    → IsValid b
    → b.count ≢ 0
    → contents b ≡ get_or b.buf b.start 0 ∷ drop 1 (contents b)
contents-nonempty {b} v h = at b.count h
  where
    at :
        (n : ℕ)
        → n ≢ 0
        → cells b.buf b.size b.start n
          ≡ get_or b.buf b.start 0 ∷ drop 1 (cells b.buf b.size b.start n)
    at zero h' = absurd (h' refl)
    at (suc n) h' =
        ap (λ k. get_or b.buf k 0 ∷ cells b.buf b.size (b.start + 1) n) (mod-eq_of_lt v.start_in)

-- A buffer whose bytes lie in one piece holds a slice of its array.
cells-slice :
    (buf : List ℕ) (size k n : ℕ)
    → size ≤ length buf
    → k + n ≤ size
    → cells buf size k n ≡ take n (drop k buf)
cells-slice buf size k zero h l = refl
cells-slice buf size k (suc n) h l =
    ap₂ ◌∷◌ (ap (λ j. get_or buf j 0) (mod-eq_of_lt (omega arith)))
      (cells-slice buf size (k + 1) n h (omega arith))
    ∙ ap (λ j. get_or buf k 0 ∷ take n (drop j buf)) (add-one k)
    ∙ sym (take-drop buf k n 0 (omega arith))

-- `cb_send` offers exactly the bytes that the buffer holds, in order, and loses none of them.
pub shift_to_send_lem :
    {b : CyclicBuffer}
    → IsValid b
    → (contents (shift_to_send b) ≡ contents b) × (offered (shift_to_send b) ≡ contents b)
unfolding shift_to_send
shift_to_send_lem {b} v = elim (Bool-cases (cb_contiguous_space b == b.count)) [
  | inl e ↦
      rw e
        (refl, sym (cells-slice b.buf b.size b.start b.count v.storage (fits ((==_iff _ _).0 e))))
  | inr e ↦ rw e (
    contents-shift v,
    sym (
          cells-slice b'.buf b'.size b'.start b'.count valid.storage
            (omega (arith, valid.count_in, (shift_fields b).3)))
        ∙ contents-shift v,
  )
]
  where
    fits : cb_contiguous_space b ≡ b.count → b.start + b.count ≤ b.size
    fits e = unfold cb_contiguous_space in omega arith

    b' : CyclicBuffer
    b' = cb_shift b

    valid : IsValid b'
    valid = shift-IsValid v
