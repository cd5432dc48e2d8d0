-- ===== src/Lines/Lengths.antt =====
-- lab5/lab5.c: the table of line lengths and offsets, made by one walk over the bytes of the file.
-- The arrays that malloc returns, what realloc makes of them and what read(2) returns are
-- arguments. `capacity *= 1.5` goes through a double and is exact for the sizes considered.
pub mod Walk
pub mod Print
use os_unixvr4_labs.Common.{
  ℕ, zero, suc, ◌+◌, ◌*◌, ◌/◌, List, [], ◌∷◌, ◌++◌, Option, none, some, leb, ltb, ◌==◌, Bool, true,
  false, if◌then◌else◌, add_size, sub_size, set, get_or, take, drop, write_at,
}
use os_unixvr4_labs.Common.Int.{ℤ, pos, negsuc}
use os_unixvr4_labs.Lines.Text.{newline}

pub record LineTable : Type 0 where
  pub count : ℕ
  pub capacity : ℕ
  pub lengths : List ℕ
  pub offsets : List ℕ

unfoldable pub init_table : List ℕ → List ℕ → LineTable
init_table fresh_lengths fresh_offsets = record {
  count = 0;
  capacity = 16;
  lengths = fresh_lengths;
  offsets = fresh_offsets;
}

unfoldable pub lt_reserve : (List ℕ → ℕ → List ℕ) → LineTable → LineTable
lt_reserve realloc this = if leb (add_size this.count 1) this.capacity then this else record this {
  capacity = this.capacity * 3 / 2;
  lengths = realloc this.lengths (this.capacity * 3 / 2);
  offsets = realloc this.offsets (this.capacity * 3 / 2);
}

unfoldable pub lt_add : (List ℕ → ℕ → List ℕ) → LineTable → ℕ → ℕ → LineTable
lt_add realloc this length offset =
    let t = lt_reserve realloc this in
    record t {
      lengths = set t.lengths t.count length;
      offsets = set t.offsets t.count offset;
      count = add_size t.count 1;
    }

-- The variables of `get_table`.
pub record Walking : Type 0 where
  pub table : LineTable
  pub line_size : ℕ
  pub offset : ℕ

-- The body of the loop over the bytes read.
unfoldable pub add_char : (List ℕ → ℕ → List ℕ) → Walking → ℕ → Walking
add_char realloc s c =
    let size = add_size s.line_size 1 in
    if c == newline
    then record {
      table = lt_add realloc s.table (sub_size size 1) s.offset;
      offset = add_size s.offset size;
      line_size = 0;
    }
    else record s { line_size = size }

unfoldable pub add_chars : (List ℕ → ℕ → List ℕ) → Walking → List ℕ → Walking
add_chars realloc s [] = s
add_chars realloc s (c ∷ cs) = add_chars realloc (add_char realloc s c) cs

-- The loop over the calls of read(2): `reads` are its results, `none` is -1, and once they are
-- used up it returns 0. The result `none` is EXIT_FAILURE.
unfoldable pub read_all : (List ℕ → ℕ → List ℕ) → Walking → List (Option (List ℕ)) → Option Walking
read_all realloc s [] = some s
read_all realloc s (none ∷ reads) = none
read_all realloc s (some [] ∷ reads) = some s
read_all realloc s (some (c ∷ cs) ∷ reads) = read_all realloc (add_chars realloc s (c ∷ cs)) reads

-- What is behind the last newline.
unfoldable pub add_last : (List ℕ → ℕ → List ℕ) → Walking → LineTable
add_last realloc s =
    if s.line_size == 0 then s.table else lt_add realloc s.table s.line_size s.offset

unfoldable pub get_table :
    (List ℕ → ℕ → List ℕ) → List ℕ → List ℕ → List (Option (List ℕ)) → Option LineTable
get_table realloc fresh_lengths fresh_offsets reads =
    elim (read_all realloc
      (record { table = init_table fresh_lengths fresh_offsets; line_size = 0; offset = 0 })
      reads) [ none ↦ none | some s ↦ some (add_last realloc s) ]

-- What printf's %s takes of an array.
pub c_string : List ℕ → List ℕ
c_string [] = []
c_string (c ∷ cs) = if c == 0 then [] else c ∷ c_string cs

-- `read_at offset n` is what read(2) stores behind an lseek(2) to `offset`; `fresh` is the array
-- that malloc returns. The result is what is printed.
unfoldable pub print_line : (ℕ → ℕ → List ℕ) → List ℕ → LineTable → ℕ → List ℕ
print_line read_at fresh this index =
    let line_len = get_or this.lengths index 0 in
    let line = write_at fresh 0 (read_at (get_or this.offsets index 0) line_len) in
    c_string (set line line_len 0) ++ newline ∷ []

-- What `main` does with a number that it has read.
pub data Reply : Type 0 where
  finished must_be_positive : Reply
  must_not_exceed : ℕ → Reply
  printed : List ℕ → Reply

unfoldable pub answer : (ℕ → ℕ → List ℕ) → (ℕ → List ℕ) → LineTable → ℤ → Reply
answer read_at malloc this (pos zero) = finished
answer read_at malloc this (negsuc n) = must_be_positive
answer read_at malloc this (pos (suc index)) =
    if ltb this.count (suc index)
    then must_not_exceed this.count
    else printed (print_line read_at (malloc (add_size (get_or this.lengths index 0) 1)) this index)

-- The loop of `main` over the numbers that scanf(3) reads, until it reads none.
unfoldable pub session : (ℕ → ℕ → List ℕ) → (ℕ → List ℕ) → LineTable → List ℤ → List Reply
session read_at malloc this [] = []
session read_at malloc this (n ∷ ns) =
    let rest = session read_at malloc this ns in
    elim (answer read_at malloc this n) [ finished ↦ [] | r ↦ r ∷ rest ]
