-- ===== src/Lines/Offsets/Walk.antt =====
-- The walk of lab6 over the file makes the table of its lines.
use os_unixvr4_labs.Common.{
  ℕ, zero, suc, ◌+◌, ◌<◌, ◌≡◌, refl, sym, ap, subst, ◌∙◌, true, false, List, [], ◌∷◌, ◌++◌, Option,
  some, none, append-nil, ◌==◌, length, length-append, arith, Option-cases, inl, inr, map, take,
  drop, length-take, length-drop, add_size, max_object,
}
use os_unixvr4_labs.Lines.Text.{
  newline, concat, lines, lines-cut, tail_line, Cut, cut, cut_from, cut_from-append,
}
use os_unixvr4_labs.Lines.Pieces.{concat-snoc, IsCut, cut-IsCut, cut_from-IsCut}
use os_unixvr4_labs.Lines.Array.{KeepsCells}
use os_unixvr4_labs.Lines.Lengths.Walk.{AllNonempty}
use os_unixvr4_labs.Lines.Offsets.{
  OffsetTable, init_table, memchr, Walking, add_line, scan_piece, read_all, add_last, get_table,
}
use os_unixvr4_labs.Lines.Offsets.Scan.{IsTable, memchr-none, memchr-some, add-IsTable}

-- The walk has met the complete lines and the rest of `k`.
pub record HasWalked (s : Walking) (k : Cut) : Type 0 where
  pub table : IsTable s.table k.complete
  pub size : s.line_size ≡ length k.pending
  pub place : s.offset ≡ length (concat k.complete)

scan_piece-end :
    (fuel : ℕ) (realloc : List ℕ → ℕ → List ℕ) (s : Walking) (xs : List ℕ)
    → memchr xs newline ≡ none
    → scan_piece (suc fuel) realloc s xs
      ≡ some (record s { line_size = add_size s.line_size (length xs) })
unfolding scan_piece
scan_piece-end fuel realloc s xs e = rw (e, scan_piece) refl

scan_piece-line :
    (fuel : ℕ) (realloc : List ℕ → ℕ → List ℕ) (s : Walking) (xs : List ℕ) (i : ℕ)
    → memchr xs newline ≡ some i
    → scan_piece (suc fuel) realloc s xs
      ≡ scan_piece fuel realloc (add_line realloc s (suc i)) (drop (suc i) xs)
unfolding scan_piece
scan_piece-line fuel realloc s xs i e = rw (e, scan_piece) refl

module _ {realloc : List ℕ → ℕ → List ℕ} (keeps : KeepsCells realloc) where
  line-HasWalked :
      (s : Walking) (k : Cut) (n : ℕ) (line : List ℕ)
      → IsCut k n
      → n + length line < max_object
      → HasWalked s k
      → HasWalked
          (add_line realloc s (length line))
          (record { complete = k.complete ++ (k.pending ++ line) ∷ []; pending = [] })
  unfolding add_line
  line-HasWalked s k n line v small w =
      let whole : add_size s.line_size (length line) ≡ length (k.pending ++ line) =
        omega (arith, w.size, v.total, length-append k.pending line) in
      let total = length-append k.pending line in
      record {
        table =
            add-IsTable keeps s.table k.complete (k.pending ++ line)
              (add_size s.line_size (length line)) s.offset
              (omega (arith, w.table.counted, v.few, v.total)) whole w.place
              (omega (arith, w.place, w.size, v.total, total)) w.table;
        size = refl;
        place = omega (
          arith,
          w.place,
          w.size,
          v.total,
          total,
          ap length (concat-snoc k.complete (k.pending ++ line)),
          length-append (concat k.complete) (k.pending ++ line),
        );
      }

  -- A piece is scanned to its end.
  pub scan-HasWalked :
      (fuel : ℕ) (s : Walking) (k : Cut) (n : ℕ) (xs : List ℕ)
      → length xs < fuel
      → IsCut k n
      → n + length xs < max_object
      → HasWalked s k
      → (s' : Walking) × (scan_piece fuel realloc s xs ≡ some s') × HasWalked s' (cut_from k xs)
  scan-HasWalked zero s k n xs h v small w = absurd (omega arith)
  scan-HasWalked (suc fuel) s k n xs h v small w = elim (Option-cases (memchr xs newline)) [
    | inl e ↦ (
      record s { line_size = add_size s.line_size (length xs) },
      scan_piece-end fuel realloc s xs e,
      subst (HasWalked (record s { line_size = add_size s.line_size (length xs) }))
          (sym (memchr-none xs k e))
          (record {
            table = w.table;
            size = omega (arith, w.size, v.total, length-append k.pending xs);
            place = w.place;
          }),
    )
    | inr (i, e) ↦
        let (step, l) = memchr-some xs k i e in
        let line = take (suc i) xs in
        let k1 : Cut = record { complete = k.complete ++ (k.pending ++ line) ∷ []; pending = [] } in
        let long : length line ≡ suc i = omega (arith, length-take (suc i) xs, l) in
        let w1 : HasWalked (add_line realloc s (suc i)) k1 =
          subst (λ m. HasWalked (add_line realloc s m) k1) long
            (line-HasWalked s k n line v (omega (arith, long, l)) w) in
        let v1 : IsCut k1 (n + length line) = record {
          free = tt;
          total = omega (
            arith,
            v.total,
            ap length (concat-snoc k.complete (k.pending ++ line)),
            length-append (concat k.complete) (k.pending ++ line),
            length-append k.pending line,
          );
          few = omega (
            arith,
            v.few,
            long,
            ap length (concat-snoc k.complete (k.pending ++ line)),
            length-append (concat k.complete) (k.pending ++ line),
            length-append k.pending line,
            length-append k.complete ((k.pending ++ line) ∷ []),
          );
        } in
        let (s', done, w') =
          scan-HasWalked fuel (add_line realloc s (suc i)) k1 (n + length line) (drop (suc i) xs)
            (omega (arith, length-drop (suc i) xs, l)) v1
            (omega (arith, length-drop (suc i) xs, long, l)) w1 in
        (s', scan_piece-line fuel realloc s xs i e ∙ done, subst (HasWalked s') (sym step) w')
  ]

  read_all-step :
      (s s' : Walking) (c : ℕ) (cs : List ℕ) (reads : List (Option (List ℕ)))
      → scan_piece (suc (length (c ∷ cs))) realloc s (c ∷ cs) ≡ some s'
      → read_all realloc s (some (c ∷ cs) ∷ reads) ≡ read_all realloc s' reads
  unfolding read_all
  read_all-step s s' c cs reads e = rw (e, read_all) refl

  -- All pieces are scanned, whatever follows.
  read-HasWalked :
      (s : Walking) (k : Cut) (n : ℕ) (chunks : List (List ℕ)) (reads : List (Option (List ℕ)))
      → AllNonempty chunks
      → IsCut k n
      → n + length (concat chunks) < max_object
      → HasWalked s k
      → (s' : Walking) × (read_all realloc s (map some chunks ++ reads) ≡ read_all realloc s' reads)
        × HasWalked s' (cut_from k (concat chunks))
  unfolding cut_from
  read-HasWalked s k n [] reads full v small w = (s, refl, w)
  read-HasWalked s k n ([] ∷ chunks) reads full v small w = absurd (full.0 refl)
  read-HasWalked s k n ((c ∷ cs) ∷ chunks) reads full v small w =
      let long = length-append (c ∷ cs) (concat chunks) in
      let (s1, e1, w1) =
        scan-HasWalked (suc (length (c ∷ cs))) s k n (c ∷ cs) (omega arith) v (omega (arith, long))
          w in
      let (s', e, w') =
        read-HasWalked s1 (cut_from k (c ∷ cs)) (n + length (c ∷ cs)) chunks reads full.1
          (cut_from-IsCut k n (c ∷ cs) v) (omega (arith, long)) w1 in
      (
        s',
        read_all-step s s1 c cs (map some chunks ++ reads) e1 ∙ e,
        subst (HasWalked s') (sym (cut_from-append k (c ∷ cs) (concat chunks))) w',
      )

  pub last-IsTable :
      (s : Walking) (ls : List (List ℕ)) (p : List ℕ)
      → s.table.count < max_object
      → length (concat ls) + length p < max_object
      → IsTable s.table ls
      → s.line_size ≡ length p
      → s.offset ≡ length (concat ls)
      → IsTable (add_last realloc s) (ls ++ tail_line p)
  unfolding add_last
  last-IsTable s ls [] small total v size place =
      let none_left : (s.line_size == 0) ≡ true = ground arith in
      subst (IsTable (add_last realloc s)) (sym (append-nil ls)) (rw none_left v)
  last-IsTable s ls (c ∷ cs) small total v size place =
      let some_left : (s.line_size == 0) ≡ false = ground arith in
      rw some_left (
        add-IsTable keeps s.table ls (c ∷ cs) s.line_size s.offset small size place
          (omega (arith, size, place)) v)

abbrev pub start_walk : List ℕ → Walking
start_walk fresh = record { table = init_table fresh; line_size = 0; offset = 0 }

pub start-HasWalked : (fresh : List ℕ) → length fresh ≡ 16 → HasWalked (start_walk fresh) (cut [])
unfolding init_table cut
start-HasWalked fresh e = record {
  table = record {
    counted = refl;
    within = omega arith;
    capacious = omega arith;
    size = e;
    starts_are = refl;
    end_is = inl refl;
  };
  size = refl;
  place = refl;
}

get_table-read :
    (realloc : List ℕ → ℕ → List ℕ) (fresh : List ℕ) (reads : List (Option (List ℕ)))
    (o : Option Walking)
    → read_all realloc (start_walk fresh) reads ≡ o
    → get_table realloc fresh reads ≡ elim o [ none ↦ none | some s ↦ some (add_last realloc s) ]
unfolding get_table
get_table-read realloc fresh reads o e =
    ap (λ (z : Option Walking). elim z [ none ↦ none | some s ↦ some (add_last realloc s) ]) e

-- However read(2) cuts the file into pieces, the walk from newline to newline ends with the fuel
-- of one round more than the bytes of a piece, and `get_table` makes the table of the lines: their
-- number, the offset of each, and the end of the last, in an array that is large enough. An error
-- of read(2) behind any of the pieces makes it fail.
pub get_table-IsTable :
    (realloc : List ℕ → ℕ → List ℕ) (fresh : List ℕ) (chunks : List (List ℕ))
    → KeepsCells realloc
    → length fresh ≡ 16
    → AllNonempty chunks
    → length (concat chunks) < max_object
    → ((t : OffsetTable) × (get_table realloc fresh (map some chunks) ≡ some t)
        × IsTable t (lines (concat chunks)))
      × ((reads : List (Option (List ℕ)))
          → get_table realloc fresh (map some chunks ++ none ∷ reads) ≡ none)
unfolding cut read_all
get_table-IsTable realloc fresh chunks keeps e full small =
    let text = concat chunks in
    let k = cut-IsCut text in
    let (s, done, w) =
      read-HasWalked keeps (start_walk fresh) (cut []) 0 chunks [] full (cut-IsCut []) (omega arith)
        (start-HasWalked fresh e) in
    (
      (
        add_last realloc s,
        get_table-read realloc fresh (map some chunks) (some s)
            (ap (read_all realloc (start_walk fresh)) (sym (append-nil (map some chunks))) ∙ done),
        subst (IsTable (add_last realloc s)) (sym (lines-cut text)) (
            last-IsTable keeps s (cut text).complete (cut text).pending
              (omega (arith, w.table.counted, k.few, k.total)) (omega (arith, k.total)) w.table
              w.size w.place),
      ),
      λ reads.
          let (s', failed, _) =
            read-HasWalked keeps (start_walk fresh) (cut []) 0 chunks (none ∷ reads) full
              (cut-IsCut []) (omega arith) (start-HasWalked fresh e) in
          get_table-read realloc fresh (map some chunks ++ none ∷ reads) none failed,
    )
