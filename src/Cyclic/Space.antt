-- ===== src/Cyclic/Space.antt =====
-- The whole-buffer loops cb_puts and cb_gets, and the free space in one piece.
use os_unixvr4_labs.Common.{
  span, ℕ, zero, suc, ◌+◌, ◌-◌, ◌%◌, ◌≤◌, ◌<◌, ◌≡◌, refl, sym, ap, ◌∙◌, List, [], ◌∷◌, ◌++◌, Option,
  none, some, arith, length, add_size, ltb, ltb→lt, ltb→le, Bool-cases, inl, inr, append-nil,
  append_assoc, max_object, write_at, mod-eq_of_lt, mod-eq-sub-mod,
}
use native.Mathlib.Decide.{dec_lt}
use os_unixvr4_labs.Cyclic.{
  CyclicBuffer, cb_free_space, cb_free_contiguous_space, cb_data_end, cb_skip_right, cb_putc,
  cb_getc, cb_puts, cb_gets,
}
use os_unixvr4_labs.Cyclic.Inv.{IsValid, free_space-add-count, putc-IsValid, getc-IsValid}
use os_unixvr4_labs.Cyclic.Contents.{
  contents, length-contents, putc_lem, contents-put_block, no_wrap,
}
use os_unixvr4_labs.Cyclic.Refine.{getc_lem}
use os_unixvr4_labs.Cyclic.Queue

-- What `cb_puts` has done when it returns, having started at `b` with `i` bytes put.
record Puts (b : CyclicBuffer) (s : ℕ → ℕ) (i : ℕ) (r : Option (ℕ × CyclicBuffer)) : Type 0 where
  final : CyclicBuffer
  returns : r ≡ some (i + cb_free_space b, final)
  bytes : contents final ≡ contents b ++ span s i (cb_free_space b)
  valid : IsValid final

free_space-putc :
    {b : CyclicBuffer} (c : ℕ)
    → IsValid b
    → b.count < b.size
    → cb_free_space b ≡ suc (cb_free_space (cb_putc b c).1)
unfolding cb_putc cb_free_space
free_space-putc {b} c v h = ground arith

Puts-step :
    (b b' : CyclicBuffer) (s : ℕ → ℕ) (i : ℕ) (r : Option (ℕ × CyclicBuffer))
    → cb_free_space b ≡ suc (cb_free_space b')
    → contents b' ≡ contents b ++ s i ∷ []
    → Puts b' s (i + 1) r
    → Puts b s i r
Puts-step b b' s i r e c p = record {
  final = p.final;
  returns = p.returns ∙ ap (λ k. some (k, p.final)) (omega arith);
  bytes =
      p.bytes
      ∙ ap (λ q. q ++ span s (i + 1) (cb_free_space b')) c
      ∙ append_assoc (contents b) (s i ∷ []) _
      ∙ ap (λ n. contents b ++ span s i n) (sym e);
  valid = p.valid;
}

Puts-from :
    (fuel : ℕ) (b : CyclicBuffer) (s : ℕ → ℕ) (i : ℕ)
    → IsValid b
    → i + cb_free_space b ≤ max_object
    → cb_free_space b < fuel
    → Puts b s i (cb_puts fuel b s i)
unfolding cb_puts
Puts-from zero b s i v small f = absurd (omega arith)
Puts-from (suc fuel) b s i v small f = elim (Bool-cases (ltb b.count b.size)) [
  | inl e ↦
      let free : cb_free_space b ≡ suc (cb_free_space (cb_putc b (s i)).1) =
        free_space-putc (s i) v (ltb→lt _ _ e) in
      let next : add_size i 1 ≡ i + 1 = omega arith in
      rw ((putc_lem (s i) v).0 ∙ e, cb_puts)
        (rw next (
          Puts-step b (cb_putc b (s i)).1 s i _ free ((putc_lem (s i) v).1 ∙ rw e) (
            Puts-from fuel (cb_putc b (s i)).1 s (i + 1) (putc-IsValid (s i) v) (omega arith)
              (omega arith))))
  | inr e ↦
      let none_free : cb_free_space b ≡ 0 =
        omega (arith, free_space-add-count v, ltb→le b.count b.size e) in
      rw ((putc_lem (s i) v).0 ∙ e, cb_puts)
        (record {
          final = (cb_putc b (s i)).1;
          returns = ap (λ k. some (k, (cb_putc b (s i)).1)) (omega arith);
          bytes = (putc_lem (s i) v).1 ∙ rw (e, none_free) (sym (append-nil (contents b)));
          valid = putc-IsValid (s i) v;
        })
]

-- `cb_puts` stops only when the buffer is full: whatever the memory at `s` holds (a zero byte
-- included) it puts exactly the first `cb_free_space` bytes of it, and returns that number.
pub puts_lem :
    (b : CyclicBuffer) (s : ℕ → ℕ)
    → IsValid b
    → (b' : CyclicBuffer) × (cb_puts (suc (cb_free_space b)) b s 0 ≡ some (cb_free_space b, b'))
      × (contents b' ≡ contents b ++ span s 0 (cb_free_space b))
      × IsValid b'
puts_lem b s v =
    let p =
      Puts-from (suc (cb_free_space b)) b s 0 v (omega (arith, free_space-add-count v))
        (omega arith) in
    (p.final, p.returns ∙ ap (λ k. some (k, p.final)) (omega arith), p.bytes, p.valid)

getc_parts :
    {b : CyclicBuffer} (x : ℕ) (xs : List ℕ)
    → IsValid b
    → contents b ≡ x ∷ xs
    → ((cb_getc b).0 ≡ some x) × (contents (cb_getc b).1 ≡ xs)
unfolding Queue.get_front
getc_parts x xs v e = ground (arith, getc_lem v)

getc_none :
    {b : CyclicBuffer}
    → IsValid b
    → contents b ≡ []
    → ((cb_getc b).0 ≡ none) × (contents (cb_getc b).1 ≡ [])
unfolding Queue.get_front
getc_none v e = ground (arith, getc_lem v)

gets_loop :
    (fuel : ℕ) (b : CyclicBuffer) (xs : List ℕ)
    → IsValid b
    → contents b ≡ xs
    → length xs < fuel
    → (b' : CyclicBuffer) × (cb_gets fuel b ≡ some (xs, b')) × (contents b' ≡ []) × IsValid b'
unfolding cb_gets
gets_loop zero b xs v e f = absurd (omega arith)
gets_loop (suc fuel) b [] v e f =
    ((cb_getc b).1, rw ((getc_none v e).0, cb_gets), (getc_none v e).1, getc-IsValid v)
gets_loop (suc fuel) b (x ∷ xs) v e f =
    let (b', r, c, w) =
      gets_loop fuel (cb_getc b).1 xs (getc-IsValid v) ((getc_parts x xs v e).1) (omega arith) in
    (b', rw ((getc_parts x xs v e).0, cb_gets) (rw (r, cb_gets)), c, w)

-- `cb_gets` takes all the bytes, oldest first, and leaves the buffer empty.
pub gets_lem :
    (b : CyclicBuffer)
    → IsValid b
    → (b' : CyclicBuffer) × (cb_gets (suc b.count) b ≡ some (contents b, b'))
      × (contents b' ≡ [])
      × IsValid b'
gets_lem b v = gets_loop (suc b.count) b (contents b) v refl (omega (arith, length-contents b))

pub contiguous_room :
    {b : CyclicBuffer} (n : ℕ)
    → IsValid b
    → n ≤ cb_free_contiguous_space b
    → ((b.start + b.count) % b.size + n ≤ b.size) × (n ≤ cb_free_space b)
unfolding cb_free_contiguous_space
contiguous_room {b} n v h = elim (dec_lt (b.start + b.count) b.size) [
  | yes p ↦ ground (arith, mod-eq_of_lt p, no_wrap v)
  | no p ↦ ground (
    arith,
    no_wrap v,
    mod-eq-sub-mod {n = b.start + b.count} {m = b.size} (omega arith),
    mod-eq_of_lt {n = b.start + b.count - b.size} {m = b.size} (omega arith),
  )
]

-- Free space in one piece: a block no longer than `cb_free_contiguous_space`, written at
-- `cb_data_end`, stays inside the array, and after `cb_skip_right` it is appended.
pub free_contiguous_space_lem :
    {b : CyclicBuffer} (xs : List ℕ)
    → IsValid b
    → length xs ≤ cb_free_contiguous_space b
    → (cb_data_end b + length xs ≤ b.size)
      × (contents (cb_skip_right (record b { buf = write_at b.buf (cb_data_end b) xs }) (length xs))
          ≡ contents b ++ xs)
unfolding cb_data_end
free_contiguous_space_lem {b} xs v h =
    let room = contiguous_room (length xs) v h in
    rw (no_wrap v) (room.0, contents-put_block xs v room.1 room.0)

-- When the bytes end at the end of the array, none of the free space before them is offered.
pub free_contiguous_space-at_end :
    {b : CyclicBuffer} → IsValid b → b.start + b.count ≡ b.size → cb_free_contiguous_space b ≡ 0
unfolding cb_free_contiguous_space
free_contiguous_space-at_end v e = ground arith
