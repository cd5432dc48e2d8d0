-- ===== src/Lines/Tests.antt =====
-- The theorems on the line tables at a text of two lines, the second without a newline, and runs.
use os_unixvr4_labs.Common.{
  ℕ, ◌⊎◌, ◌-◌, ◌≡◌, refl, true, List, [], ◌∷◌, ◌++◌, Option, some, none, arith, map, take, drop,
  length, length-append, replicate, length-replicate, get_elem?, inl, inr,
}
use os_unixvr4_labs.Common.Int.{ℤ, pos, negsuc}
use os_unixvr4_labs.Lines.Text.{lines}
use os_unixvr4_labs.Lines.Pieces
use os_unixvr4_labs.Lines.Array.{KeepsCells, take-all_append}
use os_unixvr4_labs.Lines.Lengths
use os_unixvr4_labs.Lines.Lengths.Walk
use os_unixvr4_labs.Lines.Lengths.Walk.{get_table_lem, AllNonempty}
use os_unixvr4_labs.Lines.Lengths.Print
use os_unixvr4_labs.Lines.Lengths.Print.{session_lem}
use os_unixvr4_labs.Lines.Offsets
use os_unixvr4_labs.Lines.Offsets.{typed, timed_out, scan_piece}
use os_unixvr4_labs.Lines.Offsets.Scan
use os_unixvr4_labs.Lines.Offsets.Walk.{get_table-IsTable}
use os_unixvr4_labs.Lines.Offsets.Print as OffsetsPrint
use os_unixvr4_labs.Lines.Offsets.Print.{session-lines}
use os_unixvr4_labs.Lines.Mapped
use os_unixvr4_labs.Lines.Mapped.{null, init_table, get_line}
use os_unixvr4_labs.Lines.Mapped.Walk.{get_table-HasFile}
use os_unixvr4_labs.Lines.Mapped.Window.{HasFile, Got, Covers, IsNew, get_line_lem}
use os_unixvr4_labs.Lines.Mapped.Print as MappedPrint
use os_unixvr4_labs.Lines.Mapped.Print.{session-HasFile}

-- A realloc(3) that fills the new cells with zeros.
abbrev growing : List ℕ → ℕ → List ℕ
growing xs n = xs ++ replicate (n - length xs) 0

growing-KeepsCells : KeepsCells growing
growing-KeepsCells = record {
  cells = λ xs n h. take-all_append xs (replicate (n - length xs) 0) (length xs) refl;
  size = λ xs n h. omega (
    arith,
    length-append xs (replicate (n - length xs) 0),
    length-replicate {A = ℕ} (n - length xs) 0,
  );
}

abbrev two_reads : List (List ℕ)
two_reads = (65 ∷ []) ∷ (10 ∷ 66 ∷ []) ∷ []

abbrev two_lines : List ℕ
two_lines = 65 ∷ 10 ∷ 66 ∷ []

two_reads-AllNonempty : AllNonempty two_reads
two_reads-AllNonempty = (λ e. cc, (λ e. cc, tt))

abbrev reading : ℕ → ℕ → List ℕ
reading offset n = take n (drop offset two_lines)

abbrev mapping : ℕ → ℕ → Option (List ℕ)
mapping n offset = some (take n (drop offset two_lines))

abbrev zeros : ℕ → List ℕ
zeros n = replicate n 0

abbrev numbers : List ℤ
numbers = pos 2 ∷ pos 7 ∷ negsuc 0 ∷ pos 1 ∷ pos 0 ∷ []

get_table_lem_example :
    ((t : Lengths.LineTable) × (Lengths.get_table growing (zeros 16) (zeros 16) (map some two_reads)
        ≡ some t)
      × Walk.IsTable t (lines two_lines))
    × ((reads : List (Option (List ℕ)))
        → Lengths.get_table growing (zeros 16) (zeros 16) (map some two_reads ++ none ∷ reads)
          ≡ none)
get_table_lem_example =
    get_table_lem growing (zeros 16) (zeros 16) two_reads growing-KeepsCells refl refl
      two_reads-AllNonempty (omega arith)

abbrev lengths_table : Lengths.LineTable
lengths_table = record {
  count = 2;
  capacity = 16;
  lengths = 1 ∷ 1 ∷ zeros 14;
  offsets = 0 ∷ 2 ∷ zeros 14;
}

lengths_table-IsTable : Walk.IsTable lengths_table (lines two_lines)
unfolding lines
lengths_table-IsTable = record {
  counted = refl;
  within = omega arith;
  capacious = omega arith;
  lengths_size = refl;
  offsets_size = refl;
  lengths_are = body_lengths;
  offsets_are = refl;
}
  where
    body_lengths : take 2 (1 ∷ 1 ∷ zeros 14) ≡ map Walk.body_length (lines two_lines)
    body_lengths = unfold Pieces.chomp in refl

session_lem_example :
    Lengths.session reading zeros lengths_table numbers
    ≡ Print.expected_session (lines two_lines) numbers
session_lem_example =
    session_lem reading zeros two_lines lengths_table numbers (omega arith) (λ o n. refl)
      (λ n. length-replicate n 0) lengths_table-IsTable

get_table-IsTable_example :
    ((t : Offsets.OffsetTable) × (Offsets.get_table growing (zeros 16) (map some two_reads)
        ≡ some t)
      × Scan.IsTable t (lines two_lines))
    × ((reads : List (Option (List ℕ)))
        → Offsets.get_table growing (zeros 16) (map some two_reads ++ none ∷ reads) ≡ none)
get_table-IsTable_example =
    get_table-IsTable growing (zeros 16) two_reads growing-KeepsCells refl two_reads-AllNonempty
      (omega arith)

abbrev offset_table : Offsets.OffsetTable
offset_table = record { count = 2; capacity = 16; offsets = 0 ∷ 2 ∷ 3 ∷ zeros 13 }

offset_table-IsTable : Scan.IsTable offset_table (lines two_lines)
unfolding lines
offset_table-IsTable = record {
  counted = refl;
  within = omega arith;
  capacious = omega arith;
  size = refl;
  starts_are = refl;
  end_is = inr refl;
}

abbrev events : List Offsets.Event
events = typed (pos 2) ∷ typed (pos 7) ∷ typed (negsuc 0) ∷ timed_out ∷ []

session-lines_example :
    Offsets.session reading zeros offset_table events
    ≡ OffsetsPrint.expected_session (lines two_lines) events
session-lines_example =
    session-lines reading zeros two_lines offset_table events (omega arith) (λ o n. refl)
      (λ n. length-replicate n 0) offset_table-IsTable

abbrev opened : Mapped.LineTable
opened = record {
  table = record { count = 0; capacity = 16; offsets = zeros 16 };
  file_size = 3;
  cache = null;
  cache_len = 0;
  cache_idx = 0;
}

opened-init : init_table (zeros 16) (some 3) 0 0 ≡ some opened
unfolding init_table Offsets.init_table
opened-init = refl

get_table-HasFile_example :
    (t' : Mapped.LineTable) × (Mapped.get_table growing mapping opened ≡ some t')
    × HasFile t' two_lines
get_table-HasFile_example =
    get_table-HasFile 4096 two_lines mapping growing (zeros 16) 0 0 opened refl (omega arith)
      (λ n o some_bytes at inside. refl) growing-KeepsCells refl opened-init

abbrev filled : Mapped.LineTable
filled = record opened { table = offset_table }

filled-HasFile : HasFile filled two_lines
filled-HasFile = record { table = offset_table-IsTable; file_size = refl; window = inl refl }

second_line : get_elem? (lines two_lines) 1 ≡ some (66 ∷ [])
unfolding lines
second_line = refl

get_line_lem_example :
    (bytes : List ℕ) × (t' : Mapped.LineTable) × (get_line mapping (λ n. true) 4096 filled 1
      ≡ (some bytes, t'))
    × Got filled t' two_lines (66 ∷ []) bytes
    × ((Covers filled (66 ∷ []) 1 × (t' ≡ filled))
        ⊎ ((¬ Covers filled (66 ∷ []) 1) × IsNew 4096 t' (66 ∷ []) 1))
get_line_lem_example =
    get_line_lem two_lines (66 ∷ []) 1 4096 mapping (λ n. true) filled (omega arith) second_line
      (λ n o some_bytes at inside. refl) (λ n. refl) filled-HasFile

session-HasFile_example :
    Mapped.session mapping (λ n. true) 4096 filled events
    ≡ MappedPrint.expected_session (lines two_lines) events
session-HasFile_example =
    session-HasFile two_lines 4096 mapping (λ n. true) filled events (omega arith)
      (λ n o some_bytes at inside. refl) (λ n. refl) filled-HasFile
