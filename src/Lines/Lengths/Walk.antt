-- ===== src/Lines/Lengths/Walk.antt =====
-- The walk of lab5 over the file makes the table of its lines.
use os_unixvr4_labs.Common.{
  ℕ, suc, ◌+◌, ◌*◌, ◌/◌, ◌≤◌, ◌<◌, ◌≡◌, ◌≢◌, refl, sym, ap, ap₂, subst, ◌∙◌, true, false, List, [],
  ◌∷◌, ◌++◌, Option, some, none, append-nil, append_assoc, ◌==◌, leb, length, length-append, arith,
  Bool-cases, inl, inr, map, take, set, length-set, add_size, sub_size, max_object,
}
use mathlib.Core.List.{map-append}
use os_unixvr4_labs.Lines.Text.{
  newline, concat, lines, lines-cut, tail_line, Cut, cut, cut_char, cut-snoc,
}
use os_unixvr4_labs.Lines.Pieces.{
  starts, concat-snoc, starts-snoc, chomp, chomp-line, chomp-free, IsCut, cut-IsCut,
}
use os_unixvr4_labs.Lines.Array.{KeepsCells, take-set_snoc, take-realloc}
use os_unixvr4_labs.Lines.Lengths.{
  LineTable, init_table, lt_reserve, lt_add, Walking, add_char, add_chars, read_all, add_last,
  get_table,
}

abbrev pub body_length : List ℕ → ℕ
body_length l = length (chomp l)

-- The table describes the lines `ls`.
pub record IsTable (t : LineTable) (ls : List (List ℕ)) : Type 0 where
  pub counted : t.count ≡ length ls
  pub within : t.count ≤ t.capacity
  pub capacious : 16 ≤ t.capacity
  pub lengths_size : length t.lengths ≡ t.capacity
  pub offsets_size : length t.offsets ≡ t.capacity
  pub lengths_are : take t.count t.lengths ≡ map body_length ls
  pub offsets_are : take t.count t.offsets ≡ starts 0 ls

module _ {realloc : List ℕ → ℕ → List ℕ} (keeps : KeepsCells realloc) where
  reserve-IsTable :
      (t : LineTable) (ls : List (List ℕ))
      → t.count < max_object
      → IsTable t ls
      → IsTable (lt_reserve realloc t) ls
        × (suc (lt_reserve realloc t).count ≤ (lt_reserve realloc t).capacity)
        × ((lt_reserve realloc t).count ≡ t.count)
  unfolding lt_reserve
  reserve-IsTable t ls small v = elim (Bool-cases (leb (add_size t.count 1) t.capacity)) [
    | inl e ↦ rw e (v, ground (arith, small), refl)
    | inr e ↦
        let full : t.count ≡ t.capacity = ground (arith, v.within, small) in
        rw e (
          record {
            counted = v.counted;
            within = omega (arith, v.within, v.capacious);
            capacious = omega (arith, v.capacious);
            lengths_size =
                keeps.size t.lengths (t.capacity * 3 / 2) (omega (arith, v.lengths_size));
            offsets_size =
                keeps.size t.offsets (t.capacity * 3 / 2) (omega (arith, v.offsets_size));
            lengths_are =
                take-realloc keeps t.lengths t.count (t.capacity * 3 / 2)
                  (omega (arith, v.lengths_size, v.within)) (omega (arith, v.lengths_size))
                ∙ v.lengths_are;
            offsets_are =
                take-realloc keeps t.offsets t.count (t.capacity * 3 / 2)
                  (omega (arith, v.offsets_size, v.within)) (omega (arith, v.offsets_size))
                ∙ v.offsets_are;
          },
          omega (arith, v.capacious, full),
          refl,
        )
  ]

  add-IsTable :
      (t : LineTable) (ls : List (List ℕ)) (l : List ℕ) (n offset : ℕ)
      → t.count < max_object
      → n ≡ body_length l
      → offset ≡ length (concat ls)
      → IsTable t ls
      → IsTable (lt_add realloc t n offset) (ls ++ l ∷ [])
  unfolding lt_add
  add-IsTable t ls l n offset small en eo v =
      let (r, room, same) = reserve-IsTable t ls small v in
      let t' = lt_reserve realloc t in
      let eo' : offset ≡ 0 + length (concat ls) = omega (arith, eo) in
      let next : add_size t'.count 1 ≡ suc t'.count = omega (arith, same) in
      record {
        counted = omega (arith, r.counted, length-append ls (l ∷ []), small, same);
        within = omega (arith, room, same);
        capacious = r.capacious;
        lengths_size = length-set t'.lengths t'.count n ∙ r.lengths_size;
        offsets_size = length-set t'.offsets t'.count offset ∙ r.offsets_size;
        lengths_are =
            ap (λ k. take k (set t'.lengths t'.count n)) next
            ∙ take-set_snoc t'.lengths t'.count n (omega (arith, room, r.lengths_size))
            ∙ ap₂ (λ a b. a ++ b ∷ []) r.lengths_are en
            ∙ sym (map-append body_length ls (l ∷ []));
        offsets_are =
            ap (λ k. take k (set t'.offsets t'.count offset)) next
            ∙ take-set_snoc t'.offsets t'.count offset (omega (arith, room, r.offsets_size))
            ∙ ap₂ (λ a b. a ++ b ∷ []) r.offsets_are eo'
            ∙ sym (starts-snoc 0 ls l);
      }

-- The walk has met the complete lines and the rest of `k`.
record HasWalked (s : Walking) (k : Cut) : Type 0 where
  table : IsTable s.table k.complete
  size : s.line_size ≡ length k.pending
  place : s.offset ≡ length (concat k.complete)

module _ {realloc : List ℕ → ℕ → List ℕ} (keeps : KeepsCells realloc) where
  char-HasWalked :
      (s : Walking) (k : Cut) (c n : ℕ)
      → n < max_object
      → IsCut k n
      → HasWalked s k
      → HasWalked (add_char realloc s c) (cut_char k c)
  unfolding add_char
  char-HasWalked s k c n small v w = elim (Bool-cases (c == newline)) [
    | inl e ↦
        let same : c ≡ newline = ground arith in
        rw e (record {
          table =
              add-IsTable keeps s.table k.complete (k.pending ++ c ∷ [])
                (sub_size (add_size s.line_size 1) 1) s.offset
                (omega (arith, w.table.counted, v.few, v.total))
                (rw same (omega (arith, w.size, v.total, ap length (chomp-line k.pending v.free))))
                w.place w.table;
          size = refl;
          place = omega (
            arith,
            w.size,
            w.place,
            v.total,
            ap length (concat-snoc k.complete (k.pending ++ c ∷ [])),
            length-append (concat k.complete) (k.pending ++ c ∷ []),
            length-append k.pending (c ∷ []),
          );
        })
    | inr e ↦ rw e (record {
      table = w.table;
      size = omega (arith, w.size, v.total, length-append k.pending (c ∷ []));
      place = w.place;
    })
  ]

  chars-HasWalked :
      (s : Walking) (text xs : List ℕ)
      → length text + length xs < max_object
      → HasWalked s (cut text)
      → HasWalked (add_chars realloc s xs) (cut (text ++ xs))
  unfolding add_chars
  chars-HasWalked s text [] small w = subst (λ z. HasWalked s (cut z)) (sym (append-nil text)) w
  chars-HasWalked s text (x ∷ xs) small w =
      subst (λ z. HasWalked (add_chars realloc (add_char realloc s x) xs) (cut z))
        (append_assoc text (x ∷ []) xs)
        (chars-HasWalked (add_char realloc s x) (text ++ x ∷ []) xs
          (omega (arith, length-append text (x ∷ [])))
          (subst (HasWalked (add_char realloc s x)) (sym (cut-snoc text x))
            (char-HasWalked s (cut text) x (length text) (omega arith) (cut-IsCut text) w)))

  last-IsTable :
      (s : Walking) (ls : List (List ℕ)) (p : List ℕ)
      → s.table.count < max_object
      → IsTable s.table ls
      → s.line_size ≡ length p
      → s.offset ≡ length (concat ls)
      → body_length p ≡ length p
      → IsTable (add_last realloc s) (ls ++ tail_line p)
  unfolding add_last
  last-IsTable s ls [] small v size place free =
      let none_left : (s.line_size == 0) ≡ true = ground arith in
      subst (IsTable (add_last realloc s)) (sym (append-nil ls)) (rw none_left v)
  last-IsTable s ls (c ∷ cs) small v size place free =
      let some_left : (s.line_size == 0) ≡ false = ground arith in
      rw some_left (
        add-IsTable keeps s.table ls (c ∷ cs) s.line_size s.offset small (omega (arith, size, free))
          place v)

add_chars-append :
    (realloc : List ℕ → ℕ → List ℕ) (s : Walking) (xs ys : List ℕ)
    → add_chars realloc s (xs ++ ys) ≡ add_chars realloc (add_chars realloc s xs) ys
unfolding add_chars
add_chars-append realloc s [] ys = refl
add_chars-append realloc s (x ∷ xs) ys = add_chars-append realloc (add_char realloc s x) xs ys

-- Results of read(2) that are no end of the file.
abbrev pub AllNonempty : List (List ℕ) → Type 0
AllNonempty [] = Unit {0}
AllNonempty (c ∷ cs) = (c ≢ []) × AllNonempty cs

read_all-chunks :
    (realloc : List ℕ → ℕ → List ℕ) (s : Walking) (chunks : List (List ℕ))
    → AllNonempty chunks
    → read_all realloc s (map some chunks) ≡ some (add_chars realloc s (concat chunks))
unfolding read_all add_chars
read_all-chunks realloc s [] n = refl
read_all-chunks realloc s ([] ∷ chunks) n = absurd (n.0 refl)
read_all-chunks realloc s ((c ∷ cs) ∷ chunks) n =
    read_all-chunks realloc (add_chars realloc s (c ∷ cs)) chunks n.1
    ∙ ap some (sym (add_chars-append realloc s (c ∷ cs) (concat chunks)))

read_all-error :
    (realloc : List ℕ → ℕ → List ℕ) (s : Walking) (chunks : List (List ℕ))
    (reads : List (Option (List ℕ)))
    → AllNonempty chunks
    → read_all realloc s (map some chunks ++ none ∷ reads) ≡ none
unfolding read_all
read_all-error realloc s [] reads n = refl
read_all-error realloc s ([] ∷ chunks) reads n = absurd (n.0 refl)
read_all-error realloc s ((c ∷ cs) ∷ chunks) reads n =
    read_all-error realloc (add_chars realloc s (c ∷ cs)) chunks reads n.1

abbrev start_walk : List ℕ → List ℕ → Walking
start_walk fresh_lengths fresh_offsets = record {
  table = init_table fresh_lengths fresh_offsets;
  line_size = 0;
  offset = 0;
}

start-HasWalked :
    (fresh_lengths fresh_offsets : List ℕ)
    → length fresh_lengths ≡ 16
    → length fresh_offsets ≡ 16
    → HasWalked (start_walk fresh_lengths fresh_offsets) (cut [])
unfolding init_table cut
start-HasWalked fl fo el eo = record {
  table = record {
    counted = refl;
    within = omega arith;
    capacious = omega arith;
    lengths_size = el;
    offsets_size = eo;
    lengths_are = refl;
    offsets_are = refl;
  };
  size = refl;
  place = refl;
}

get_table-read :
    (realloc : List ℕ → ℕ → List ℕ) (fresh_lengths fresh_offsets : List ℕ)
    (reads : List (Option (List ℕ))) (s : Walking)
    → read_all realloc (start_walk fresh_lengths fresh_offsets) reads ≡ some s
    → get_table realloc fresh_lengths fresh_offsets reads ≡ some (add_last realloc s)
unfolding get_table
get_table-read realloc fl fo reads s e = rw (e, get_table) refl

-- However read(2) cuts the file into pieces, `get_table` makes the table of its lines: their
-- number, their lengths without the newline, and their offsets, in arrays that are large enough.
-- An error of read(2) behind any of the pieces makes it fail.
pub get_table_lem :
    (realloc : List ℕ → ℕ → List ℕ) (fresh_lengths fresh_offsets : List ℕ) (chunks : List (List ℕ))
    → KeepsCells realloc
    → length fresh_lengths ≡ 16
    → length fresh_offsets ≡ 16
    → AllNonempty chunks
    → length (concat chunks) < max_object
    → ((t : LineTable) × (get_table realloc fresh_lengths fresh_offsets (map some chunks) ≡ some t)
        × IsTable t (lines (concat chunks)))
      × ((reads : List (Option (List ℕ)))
          → get_table realloc fresh_lengths fresh_offsets (map some chunks ++ none ∷ reads) ≡ none)
unfolding get_table
get_table_lem realloc fl fo chunks keeps el eo n small =
    let text = concat chunks in
    let s = add_chars realloc (start_walk fl fo) text in
    let w =
      chars-HasWalked keeps (start_walk fl fo) [] text (omega arith)
        (start-HasWalked fl fo el eo) in
    let k = cut-IsCut text in
    (
      (
        add_last realloc s,
        get_table-read realloc fl fo (map some chunks) s
            (read_all-chunks realloc (start_walk fl fo) chunks n),
        subst (IsTable (add_last realloc s)) (sym (lines-cut text)) (
            last-IsTable keeps s (cut text).complete (cut text).pending
              (omega (arith, w.table.counted, k.few, k.total)) w.table w.size w.place
              (ap length (chomp-free (cut text).pending k.free))),
      ),
      λ reads. rw (read_all-error realloc (start_walk fl fo) chunks reads n, get_table) refl,
    )
