-- ===== src/Lines/Mapped.antt =====
-- lab7/lab7.c: the table of line offsets of lab6 over a file that is read by mmap(2), and a window
-- of the file that stays mapped between two lines. The fields and functions that lab6 has as well
-- (`count`, `capacity`, `offsets`, `lt_add`, `lt_reserve`, the loop over one piece) are lab6's.
-- What mmap(2), munmap(2), fstat(2) and poll(2) return and the page size are arguments.
pub mod Walk
pub mod Window
pub mod Print
use os_unixvr4_labs.Common.{
  ℕ, zero, suc, ◌+◌, ◌-◌, ◌*◌, ◌/◌, ◌^◌, List, [], ◌∷◌, ◌++◌, Option, none, some, leb, ltb, ◌==◌,
  Bool, true, false, ◌&&◌, if◌then◌else◌, add_size, sub_size, get_or, take, drop, length,
}
use os_unixvr4_labs.Common.Int.{ℤ, pos, negsuc}
use os_unixvr4_labs.Lines.Text.{newline}
use os_unixvr4_labs.Lines.Offsets
use os_unixvr4_labs.Lines.Offsets.{
  OffsetTable, line_len, Walking, scan_piece, add_last, Event, poll_failed, timed_out,
  nothing_typed, typed, Reply, failure, must_be_positive, must_not_exceed, printed,
}

abbrev pub cache_limit : ℕ
cache_limit = 2 ^ 20

-- The pointer `cache`: NULL, MAP_FAILED or the bytes from there on.
pub data Cache : Type 0 where
  null map_failed : Cache
  mapped : List ℕ → Cache

pub record LineTable : Type 0 where
  pub table : OffsetTable
  pub file_size : ℕ
  pub cache : Cache
  pub cache_len : ℕ
  pub cache_idx : ℕ

abbrev pub is_null : Cache → Bool
is_null null = true
is_null map_failed = false
is_null (mapped bytes) = false

abbrev pub bytes_at : Cache → List ℕ
bytes_at null = []
bytes_at map_failed = []
bytes_at (mapped bytes) = bytes

-- `stat` is the file size that fstat(2) finds; `none` is -1. The window's length and place are
-- not set.
unfoldable pub init_table : List ℕ → Option ℕ → ℕ → ℕ → Option LineTable
init_table fresh none some_len some_idx = none
init_table fresh (some st_size) some_len some_idx = some (record {
  table = Offsets.init_table fresh;
  file_size = st_size;
  cache = null;
  cache_len = some_len;
  cache_idx = some_idx;
})

-- The number of bytes of the piece of the file at `gl_off`.
unfoldable pub piece_size : ℕ → ℕ → ℕ
piece_size file_size gl_off =
    if leb cache_limit (sub_size file_size gl_off) then cache_limit else sub_size file_size gl_off

-- The loop of `get_table` over the pieces of the file. `mmap n offset` is what mmap(2) returns for
-- `n` bytes at `offset`, `none` for MAP_FAILED. The result `none` is EXIT_FAILURE, or the fuel ran
-- out.
unfoldable pub map_all :
    ℕ → (List ℕ → ℕ → List ℕ) → (ℕ → ℕ → Option (List ℕ)) → Walking → ℕ → ℕ → Option Walking
map_all zero realloc mmap s file_size gl_off = none
map_all (suc fuel) realloc mmap s file_size gl_off = elim (ltb gl_off file_size) [
  | false ↦ some s
  | true ↦ elim (mmap (piece_size file_size gl_off) gl_off) [
    | none ↦ none
    | some bytes ↦ elim (scan_piece (suc (length bytes)) realloc s bytes) [
      | none ↦ none
      | some s' ↦
          map_all fuel realloc mmap s' file_size (add_size gl_off (piece_size file_size gl_off))
    ]
  ]
]

unfoldable pub get_table :
    (List ℕ → ℕ → List ℕ) → (ℕ → ℕ → Option (List ℕ)) → LineTable → Option LineTable
get_table realloc mmap this =
    elim (map_all (suc this.file_size) realloc mmap
      (record { table = this.table; line_size = 0; offset = 0 }) this.file_size 0) [
        | none ↦ none
        | some s ↦ some (record this { table = add_last realloc s })
      ]

-- Whether the line at `index` lies in the window.
unfoldable pub in_window : LineTable → ℕ → Bool
in_window this index =
    if is_null this.cache
    then false
    else leb this.cache_idx (get_or this.table.offsets index 0)
      && leb (get_or this.table.offsets (add_size index 1) 0)
          (add_size this.cache_idx this.cache_len)

-- `&cache[offsets[index] - cache_idx]`, as the bytes from there on.
unfoldable pub line_in_window : LineTable → ℕ → List ℕ
line_in_window this index =
    drop (sub_size (get_or this.table.offsets index 0) this.cache_idx) (bytes_at this.cache)

unfoldable pub no_window : LineTable → LineTable
no_window this = record this { cache = null; cache_len = 0; cache_idx = 0 }

-- The size of the new window.
unfoldable pub window_size : LineTable → ℕ → ℕ
window_size this index =
    if ltb cache_limit (line_len this.table index)
    then line_len this.table index
    else if ltb this.file_size cache_limit
    then this.file_size
    else cache_limit

-- Its place, before it is aligned.
unfoldable pub window_offset : LineTable → ℕ → ℕ
window_offset this index =
    let right_byte_count = sub_size this.file_size (get_or this.table.offsets index 0) in
    if ltb right_byte_count (window_size this index)
    then sub_size this.file_size (window_size this index)
    else get_or this.table.offsets index 0

-- The last part of `get_line`: a new window is mapped.
unfoldable pub map_window :
    (ℕ → ℕ → Option (List ℕ)) → ℕ → LineTable → ℕ → Option (List ℕ) × LineTable
map_window mmap page this index =
    let offset = window_offset this index in
    let aligned_offset = offset / page * page in
    let aligned_size = add_size (window_size this index) (sub_size offset aligned_offset) in
    elim (mmap aligned_size aligned_offset) [
      | none ↦ (none, record this { cache = map_failed })
      | some bytes ↦
          let t = record this {
            cache = mapped bytes;
            cache_len = aligned_size;
            cache_idx = aligned_offset;
          } in
          (some (line_in_window t index), t)
    ]

-- The result `none` is NULL, else the bytes from the pointer on. `munmap n` is true unless
-- munmap(2) returns -1 for a window of `n` bytes.
unfoldable pub get_line :
    (ℕ → ℕ → Option (List ℕ)) → (ℕ → Bool) → ℕ → LineTable → ℕ → Option (List ℕ) × LineTable
get_line mmap munmap page this index =
    if in_window this index
    then (some (line_in_window this index), this)
    else if is_null this.cache
    then map_window mmap page this index
    else if munmap this.cache_len
    then map_window mmap page (no_window this) index
    else (none, no_window this)

-- The bytes that `print_line` writes; `none` is EXIT_FAILURE.
unfoldable pub print_line :
    (ℕ → ℕ → Option (List ℕ)) → (ℕ → Bool) → ℕ → LineTable → ℕ → Option (List ℕ) × LineTable
print_line mmap munmap page this index =
    let n = line_len this.table index in
    let r = get_line mmap munmap page this index in
    (
      elim r.0 [
        | none ↦ none
        | some line ↦
            some (
              take n line ++ (if get_or line (sub_size n 1) 0 == newline then [] else newline ∷ []))
      ],
      r.1,
    )

-- The loop that prints the lines from `i` on, with its rounds left.
unfoldable pub print_all :
    (ℕ → ℕ → Option (List ℕ)) → (ℕ → Bool) → ℕ → LineTable → ℕ → ℕ → List Reply
print_all mmap munmap page this zero i = []
print_all mmap munmap page this (suc rounds) i =
    let r = print_line mmap munmap page this i in
    elim r.0 [
      | none ↦ failure ∷ []
      | some bytes ↦ printed bytes ∷ print_all mmap munmap page r.1 rounds (i + 1)
    ]

-- The loop of `main`, until it ends or no more happens.
unfoldable pub session :
    (ℕ → ℕ → Option (List ℕ)) → (ℕ → Bool) → ℕ → LineTable → List Event → List Reply
session mmap munmap page this [] = []
session mmap munmap page this (poll_failed ∷ es) = failure ∷ []
session mmap munmap page this (timed_out ∷ es) = print_all mmap munmap page this this.table.count 0
session mmap munmap page this (nothing_typed ∷ es) = []
session mmap munmap page this (typed (pos zero) ∷ es) = []
session mmap munmap page this (typed (negsuc n) ∷ es) =
    must_be_positive ∷ session mmap munmap page this es
session mmap munmap page this (typed (pos (suc index)) ∷ es) =
    elim (ltb this.table.count (suc index)) [
      | true ↦ must_not_exceed this.table.count ∷ session mmap munmap page this es
      | false ↦
          let r = print_line mmap munmap page this index in
          elim r.0 [
            | none ↦ failure ∷ []
            | some bytes ↦ printed bytes ∷ session mmap munmap page r.1 es
          ]
    ]
