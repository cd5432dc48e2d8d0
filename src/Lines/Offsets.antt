-- ===== src/Lines/Offsets.antt =====
-- lab6/lab6.c: the table of line offsets, with the end of the last line behind them. The walk
-- goes from newline to newline by memchr(3). The array that malloc returns, what realloc makes of
-- it and what read(2) and poll(2) return are arguments. `capacity *= 1.5` goes through a double
-- and is exact for the sizes considered.
pub mod Scan
pub mod Walk
pub mod Print
use os_unixvr4_labs.Common.{
  ℕ, zero, suc, ◌+◌, ◌-◌, ◌*◌, ◌/◌, List, [], ◌∷◌, ◌++◌, Option, none, some, leb, ltb, ◌==◌, Bool,
  true, false, if◌then◌else◌, add_size, sub_size, set, get_or, take, drop, write_at, length,
}
use os_unixvr4_labs.Common.Int.{ℤ, pos, negsuc}
use os_unixvr4_labs.Lines.Text.{newline}

pub record OffsetTable : Type 0 where
  pub count : ℕ
  pub capacity : ℕ
  pub offsets : List ℕ

unfoldable pub init_table : List ℕ → OffsetTable
init_table fresh = record { count = 0; capacity = 16; offsets = fresh }

unfoldable pub lt_reserve : (List ℕ → ℕ → List ℕ) → OffsetTable → OffsetTable
lt_reserve realloc this = if leb (add_size this.count 2) this.capacity then this else record this {
  capacity = this.capacity * 3 / 2;
  offsets = realloc this.offsets (this.capacity * 3 / 2);
}

unfoldable pub lt_add : (List ℕ → ℕ → List ℕ) → OffsetTable → ℕ → ℕ → OffsetTable
lt_add realloc this length offset =
    let t = lt_reserve realloc this in
    let next = add_size t.count 1 in
    record t {
      offsets = set (set t.offsets t.count offset) next (add_size offset length);
      count = next;
    }

-- The place of the first byte `c`; `none` is NULL.
unfoldable pub memchr : List ℕ → ℕ → Option ℕ
memchr [] c = none
memchr (x ∷ xs) c =
    if x == c then some 0 else elim (memchr xs c) [ none ↦ none | some i ↦ some (suc i) ]

-- The variables of `get_table`.
pub record Walking : Type 0 where
  pub table : OffsetTable
  pub line_size : ℕ
  pub offset : ℕ

-- The body of the loop over the newlines of a piece: `n` is `c - old_c`.
unfoldable pub add_line : (List ℕ → ℕ → List ℕ) → Walking → ℕ → Walking
add_line realloc s n =
    let size = add_size s.line_size n in
    record {
      table = lt_add realloc s.table size s.offset;
      offset = add_size s.offset size;
      line_size = 0;
    }

-- That loop, with the bytes from `old_c` to the end of the piece, and what is added to `line_size`
-- behind it. `none`: the fuel ran out.
unfoldable pub scan_piece : ℕ → (List ℕ → ℕ → List ℕ) → Walking → List ℕ → Option Walking
scan_piece zero realloc s rest = none
scan_piece (suc fuel) realloc s rest = elim (memchr rest newline) [
  | none ↦ some (record s { line_size = add_size s.line_size (length rest) })
  | some i ↦ scan_piece fuel realloc (add_line realloc s (suc i)) (drop (suc i) rest)
]

-- The loop over the calls of read(2): `reads` are its results, `none` is -1, and once they are
-- used up it returns 0. A piece has fewer newlines than the fuel that it gets. The result `none`
-- is EXIT_FAILURE.
unfoldable pub read_all : (List ℕ → ℕ → List ℕ) → Walking → List (Option (List ℕ)) → Option Walking
read_all realloc s [] = some s
read_all realloc s (none ∷ reads) = none
read_all realloc s (some [] ∷ reads) = some s
read_all realloc s (some (c ∷ cs) ∷ reads) =
    elim (scan_piece (suc (length (c ∷ cs))) realloc s (c ∷ cs)) [
      | none ↦ none
      | some s' ↦ read_all realloc s' reads
    ]

-- What is behind the last newline.
unfoldable pub add_last : (List ℕ → ℕ → List ℕ) → Walking → OffsetTable
add_last realloc s =
    if s.line_size == 0 then s.table else lt_add realloc s.table s.line_size s.offset

unfoldable pub get_table :
    (List ℕ → ℕ → List ℕ) → List ℕ → List (Option (List ℕ)) → Option OffsetTable
get_table realloc fresh reads =
    elim (read_all realloc (record { table = init_table fresh; line_size = 0; offset = 0 }) reads) [
      | none ↦ none
      | some s ↦ some (add_last realloc s)
    ]

unfoldable pub line_len : OffsetTable → ℕ → ℕ
line_len this index =
    sub_size (get_or this.offsets (add_size index 1) 0) (get_or this.offsets index 0)

-- `write(1, "\n", sizeof("\n"))`: the newline and the byte 0 that ends the literal.
abbrev pub newline_literal : List ℕ
newline_literal = newline ∷ 0 ∷ []

-- The bytes that `print_line` writes. `read_at offset n` is what read(2) stores behind an lseek(2)
-- to `offset`; `fresh` is the array that malloc returns.
unfoldable pub print_line : (ℕ → ℕ → List ℕ) → List ℕ → OffsetTable → ℕ → List ℕ
print_line read_at fresh this index =
    let n = line_len this index in
    let line = write_at fresh 0 (read_at (get_or this.offsets index 0) n) in
    take n line ++ (if get_or line (sub_size n 1) 0 == newline then [] else newline_literal)

-- What poll(2) and scanf(3) bring in one round of the loop of `main`.
pub data Event : Type 0 where
  poll_failed timed_out nothing_typed : Event
  typed : ℤ → Event

pub data Reply : Type 0 where
  failure must_be_positive : Reply
  must_not_exceed : ℕ → Reply
  printed : List ℕ → Reply

-- The loop that prints the lines from `i` on, with its rounds left.
unfoldable pub print_all : (ℕ → ℕ → List ℕ) → (ℕ → List ℕ) → OffsetTable → ℕ → ℕ → List Reply
print_all read_at malloc this zero i = []
print_all read_at malloc this (suc rounds) i =
    printed (print_line read_at (malloc (line_len this i)) this i)
    ∷ print_all read_at malloc this rounds (i + 1)

-- The loop of `main`, until it ends or no more happens.
unfoldable pub session : (ℕ → ℕ → List ℕ) → (ℕ → List ℕ) → OffsetTable → List Event → List Reply
session read_at malloc this [] = []
session read_at malloc this (poll_failed ∷ es) = failure ∷ []
session read_at malloc this (timed_out ∷ es) = print_all read_at malloc this this.count 0
session read_at malloc this (nothing_typed ∷ es) = []
session read_at malloc this (typed (pos zero) ∷ es) = []
session read_at malloc this (typed (negsuc n) ∷ es) =
    must_be_positive ∷ session read_at malloc this es
session read_at malloc this (typed (pos (suc index)) ∷ es) =
    (if ltb this.count (suc index)
      then must_not_exceed this.count
      else printed (print_line read_at (malloc (line_len this index)) this index))
    ∷ session read_at malloc this es
