-- ===== src/IoBuffer.antt =====
-- lab34/iobuffer.c and iobuffer.h (lab33 has the same text without iob_getc): a linear byte buffer
-- over a malloc'd array. What malloc, realloc, read(2) and write(2) do are arguments.
pub mod Inv
pub mod Items
pub mod Refine
pub mod Reserve
mod Tests
use os_unixvr4_labs.Common.{
  ℕ, zero, suc, ◌+◌, ◌-◌, Bool, true, false, List, [], ◌∷◌, Option, none, some, ltb, leb, ◌==◌,
  if◌then◌else◌, add_size, sub_size, get_or, set, write_at, take, length,
}
use os_unixvr4_labs.Common.Int.{ℤ, negsuc, int_of_char}

pub record IoBuffer : Type 0 where
  pub buf : List ℕ
  pub size : ℕ
  pub count : ℕ

abbrev pub end_of_buffer : ℤ
end_of_buffer = negsuc 0

pub init_iobuf : List ℕ → ℕ → IoBuffer
init_iobuf fresh size = record { buf = fresh; size = size; count = 0 }

-- `buf = NULL` is the array of no cells.
pub free_iobuf : IoBuffer → IoBuffer
free_iobuf this = record { buf = []; size = 0; count = 0 }

unfoldable pub iob_full : IoBuffer → Bool
iob_full this = this.count == this.size

unfoldable pub iob_empty : IoBuffer → Bool
iob_empty this = this.count == 0

pub iob_free_space : IoBuffer → ℕ
iob_free_space this = sub_size this.size this.count

-- `for (; rounds; ++i) buf[i] = buf[offset + i];`, in place.
pub shift_down : ℕ → ℕ → ℕ → List ℕ → List ℕ
shift_down offset i zero buf = buf
shift_down offset i (suc rounds) buf =
    shift_down offset (i + 1) rounds (set buf i (get_or buf (add_size offset i) 0))

pub iob_shift : IoBuffer → ℕ → IoBuffer
iob_shift this offset =
    if offset == 0
    then this
    else let n = if ltb this.count offset then this.count else offset in
      record this {
        count = sub_size this.count n;
        buf = shift_down n 0 (sub_size this.count n) this.buf;
      }

pub iob_recv : IoBuffer → (ℕ → Option (List ℕ)) → Option ℕ × IoBuffer
unfolding iob_free_space
iob_recv this read = elim (read (iob_free_space this)) [
  | none ↦ (none, this)
  | some [] ↦ (none, this)
  | some (x ∷ xs) ↦ (
    some (length (x ∷ xs)),
    record this {
      buf = write_at this.buf this.count (x ∷ xs);
      count = add_size this.count (length (x ∷ xs));
    },
  )
]

-- The `count` bytes at the address `buf`.
abbrev pub pending : IoBuffer → List ℕ
pending this = take this.count this.buf

pub iob_send : IoBuffer → (List ℕ → Option ℕ) → Option ℕ × IoBuffer
unfolding iob_shift
iob_send this write = elim (write (pending this)) [
  | none ↦ (none, this)
  | some n ↦ (some n, iob_shift this n)
]

-- The list is the memory at the address `data`, of which `count` bytes may be read.
pub iob_puts : IoBuffer → List ℕ → ℕ → ℕ × IoBuffer
unfolding iob_free_space
iob_puts this bytes count =
    let put_count = if ltb count (iob_free_space this) then count else iob_free_space this in
    (
      put_count,
      record this {
        buf = write_at this.buf this.count (take put_count bytes);
        count = add_size this.count put_count;
      },
    )

unfoldable pub iob_putc : IoBuffer → ℕ → Bool × IoBuffer
unfolding iob_full
iob_putc this c =
    if iob_full this
    then (false, this)
    else (true, record this { buf = set this.buf this.count c; count = add_size this.count 1 })

pub iob_getc : IoBuffer → ℤ × IoBuffer
unfolding iob_empty iob_shift
iob_getc this =
    if iob_empty this
    then (end_of_buffer, this)
    else (int_of_char (get_or this.buf 0 0), iob_shift this 1)

pub iob_clear : IoBuffer → IoBuffer
iob_clear this = record this { count = 0 }

-- `realloc p n` is the array that realloc(3) makes of the array `p` at the size `n`.
pub resize : (List ℕ → ℕ → List ℕ) → IoBuffer → ℕ → IoBuffer
resize realloc this new_size = record this { buf = realloc this.buf new_size }

pub reserve : (List ℕ → ℕ → List ℕ) → IoBuffer → ℕ → IoBuffer
unfolding iob_free_space resize
reserve realloc this free_space =
    if leb free_space (iob_free_space this)
    then this
    else resize realloc this (add_size (sub_size (iob_free_space this) free_space) this.size)
