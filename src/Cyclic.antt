-- ===== src/Cyclic.antt =====
-- lab34/cyclic_buffer.c and cyclic_buffer.h: a ring of bytes over a malloc'd array.
-- A function that changes `*this` returns the new buffer beside its result. The state of the array
-- that malloc returns, and what read(2) and write(2) do, are arguments.
pub mod Cells
pub mod Inv
pub mod Contents
pub mod Queue
pub mod Refine
pub mod Io
pub mod Space
pub mod Counts
mod Tests
use os_unixvr4_labs.Common.{
  ℕ, zero, suc, ◌+◌, ◌-◌, ◌%◌, Bool, true, false, List, [], ◌∷◌, Option, none, some, min, ltb, leb,
  ◌==◌, if◌then◌else◌, add_size, sub_size, get_or, set, write_at, take, drop, length,
}

pub record CyclicBuffer : Type 0 where
  pub buf : List ℕ
  pub size : ℕ
  pub count : ℕ
  pub start : ℕ

-- `fresh` is the array that `malloc (size)` returns.
pub cb_init : List ℕ → ℕ → CyclicBuffer
cb_init fresh size = record { buf = fresh; size = size; count = 0; start = 0 }

-- The array is given back; a freed buffer has no cells.
pub cb_free : CyclicBuffer → CyclicBuffer
cb_free this = record { buf = []; size = 0; count = 0; start = 0 }

pub cb_full : CyclicBuffer → Bool
cb_full this = this.count == this.size

pub cb_empty : CyclicBuffer → Bool
cb_empty this = this.count == 0

pub cb_free_space : CyclicBuffer → ℕ
cb_free_space this = sub_size this.size this.count

pub cb_contiguous_space : CyclicBuffer → ℕ
cb_contiguous_space this = min (sub_size this.size this.start) this.count

pub cb_free_contiguous_space : CyclicBuffer → ℕ
unfolding cb_free_space
cb_free_contiguous_space this =
    if leb (add_size this.start this.count) this.size
    then sub_size this.size (add_size this.start this.count)
    else cb_free_space this

-- `for (i = i; i < i + rounds; ++i) buf[i] = old_buf[(start + i) % size];`
pub shift_loop : List ℕ → ℕ → ℕ → ℕ → ℕ → List ℕ → List ℕ
shift_loop old start size i zero buf = buf
shift_loop old start size i (suc rounds) buf =
    shift_loop old start size (i + 1) rounds (set buf i (get_or old (add_size start i % size) 0))

pub cb_shift : CyclicBuffer → CyclicBuffer
cb_shift this = if this.start == 0 then this else record this {
  buf = shift_loop this.buf this.start this.size 0 this.count this.buf;
  start = 0;
}

pub cb_skip : CyclicBuffer → ℕ → CyclicBuffer
cb_skip this n =
    let n' = if ltb this.count n then this.count else n in
    record this { count = sub_size this.count n'; start = add_size this.start n' % this.size }

pub cb_skip_right : CyclicBuffer → ℕ → CyclicBuffer
cb_skip_right this n =
    let n' = if ltb this.size (add_size this.count n) then sub_size this.size this.count else n in
    record this { count = add_size this.count n' }

-- The index of the first free cell: `cb_data_end` is its address.
pub cb_data_end : CyclicBuffer → ℕ
cb_data_end this = add_size this.start this.count % this.size

pub cb_putc : CyclicBuffer → ℕ → Bool × CyclicBuffer
unfolding cb_full cb_skip_right
cb_putc this c = if cb_full this then (false, this) else (
  true,
  cb_skip_right (record this { buf = set this.buf (add_size this.start this.count % this.size) c })
      1,
)

-- The option is what goes through `c`; `none` is the result `false`.
pub cb_peek : CyclicBuffer → Option ℕ
unfolding cb_empty
cb_peek this = if cb_empty this then none else some (get_or this.buf this.start 0)

pub cb_getc : CyclicBuffer → Option ℕ × CyclicBuffer
unfolding cb_peek cb_skip
cb_getc this = elim (cb_peek this) [ none ↦ (none, this) | some c ↦ (some c, cb_skip this 1) ]

pub cb_clear : CyclicBuffer → CyclicBuffer
cb_clear this = record this { start = 0; count = 0 }

-- `s` is the memory from the address `s` on. `none`: the fuel ran out.
pub cb_puts : ℕ → CyclicBuffer → (ℕ → ℕ) → ℕ → Option (ℕ × CyclicBuffer)
cb_puts zero this s i = none
cb_puts (suc fuel) this s i =
    let put = cb_putc this (s i) in
    elim put.0 [ true ↦ cb_puts fuel put.1 s (add_size i 1) | false ↦ some (i, put.1) ]

-- The result holds the characters that go to `s[i]`, `s[i + 1]`, and so on.
pub cb_gets : ℕ → CyclicBuffer → Option (List ℕ × CyclicBuffer)
cb_gets zero this = none
cb_gets (suc fuel) this =
    let got = cb_getc this in
    elim got.0 [
      | none ↦ some ([], got.1)
      | some c ↦ elim (cb_gets fuel got.1) [ none ↦ none | some (cs, b) ↦ some (c ∷ cs, b) ]
    ]

-- `read n` is what read(2) does when asked for `n` bytes: `none` is -1, else the bytes it stored.
-- The result `none` is -1.
pub cb_recv : CyclicBuffer → (ℕ → Option (List ℕ)) → Option ℕ × CyclicBuffer
unfolding cb_shift cb_free_space cb_skip_right
cb_recv this read =
    let b = cb_shift this in
    elim (read (cb_free_space b)) [
      | none ↦ (none, b)
      | some [] ↦ (none, b)
      | some (x ∷ xs) ↦ (
        some (length (x ∷ xs)),
        cb_skip_right (record b { buf = write_at b.buf b.count (x ∷ xs) }) (length (x ∷ xs)),
      )
    ]

pub shift_to_send : CyclicBuffer → CyclicBuffer
unfolding cb_contiguous_space cb_shift
shift_to_send this = if cb_contiguous_space this == this.count then this else cb_shift this

-- The `count` bytes at the address `&buf[start]`.
abbrev pub offered : CyclicBuffer → List ℕ
offered this = take this.count (drop this.start this.buf)

-- `write bytes` is what write(2) does when offered `bytes`: `none` is -1, else how many it took.
pub cb_send : CyclicBuffer → (List ℕ → Option ℕ) → Option ℕ × CyclicBuffer
unfolding shift_to_send cb_skip
cb_send this write =
    let b = shift_to_send this in
    elim (write (offered b)) [ none ↦ (none, b) | some n ↦ (some n, cb_skip b n) ]
