-- ===== src/Lines/Offsets/Print.antt =====
-- What lab6 prints of a line, and a whole session.
use os_unixvr4_labs.Common.{
  ℕ, zero, suc, ◌+◌, ◌-◌, ◌≤◌, ◌<◌, ◌≡◌, refl, sym, ap, ap₂, subst, ◌∙◌, List, [], ◌∷◌, ◌++◌,
  Option, some, none, ◌==◌, ltb, ltb→lt, ltb→le, if◌then◌else◌, length, arith, Bool-cases, inl, inr,
  map, take, drop, get_or, get_elem?, write_at, add_size, sub_size, max_object,
}
use os_unixvr4_labs.Common.Int.{pos, negsuc}
use os_unixvr4_labs.Lines.Text.{newline, concat, lines}
use os_unixvr4_labs.Lines.Pieces.{
  starts, piece-read, piece-end, concat-lines, lines-nonempty, lines-few,
}
use os_unixvr4_labs.Lines.Array.{
  get_or-take, get_elem?-bound, get_elem?-lt, get_elem?-ge, write_at-start, take-snoc,
  take-all_append, get_or-append, drop-get, drop-all,
}
use os_unixvr4_labs.Lines.Lengths.Print.{ReadsText}
use os_unixvr4_labs.Lines.Offsets.{
  OffsetTable, line_len, newline_literal, print_line, Event, poll_failed, timed_out, nothing_typed,
  typed, Reply, failure, must_be_positive, must_not_exceed, printed, print_all, session,
}
use os_unixvr4_labs.Lines.Offsets.Scan.{IsTable}

-- The cells of the table: the place of each line, and the end of the last.
cells_are :
    (t : OffsetTable) (ls : List (List ℕ))
    → IsTable t ls
    → 0 < t.count
    → take (suc t.count) t.offsets ≡ starts 0 ls ++ (0 + length (concat ls)) ∷ []
cells_are t ls v some_lines =
    take-snoc t.offsets t.count (omega (arith, v.size, v.within))
    ∙ ap₂ (λ a b. a ++ b ∷ []) v.starts_are
        (elim v.end_is [
          | inl none_there ↦ absurd (omega (arith, none_there))
          | inr e ↦ omega (arith, e)
        ])

-- A line's place and length in the table.
pub entry :
    (t : OffsetTable) (text l : List ℕ) (i : ℕ)
    → length text < max_object
    → IsTable t (lines text)
    → get_elem? (lines text) i ≡ some l
    → (line_len t i ≡ length l)
      × (take (length l) (drop (get_or t.offsets i 0) text) ≡ l)
      × (get_or t.offsets i 0 + length l ≤ length text)
      × (get_or t.offsets (add_size i 1) 0 ≡ get_or t.offsets i 0 + length l)
unfolding line_len
entry t text l i small v e =
    let ls = lines text in
    let bound = get_elem?-bound ls i l e in
    let cells = cells_are t ls v (omega (arith, bound, v.counted)) in
    let (k, at, piece, within) = piece-read ls i l 0 e in
    let whole : length (concat ls) ≡ length text = ap length (concat-lines text) in
    let here : get_or t.offsets i 0 ≡ k =
      sym (get_or-take t.offsets t.count i 0 (omega (arith, bound, v.counted)))
      ∙ ap (λ z. get_or z i 0) v.starts_are
      ∙ omega (arith, at) in
    let behind : get_or t.offsets (suc i) 0 ≡ k + length l =
      sym (get_or-take t.offsets (suc t.count) (suc i) 0 (omega (arith, bound, v.counted)))
      ∙ ap (λ z. get_or z (suc i) 0) cells
      ∙ piece-end ls i l 0 e
      ∙ omega (arith, at) in
    let next : add_size i 1 ≡ suc i = omega (arith, bound, v.counted, lines-few text) in
    (
      ap (λ j. sub_size (get_or t.offsets j 0) (get_or t.offsets i 0)) next
          ∙ omega (arith, here, behind, within, whole),
      ap (λ j. take (length l) (drop j text)) here
          ∙ subst (λ z. take (length l) (drop k z) ≡ l) (concat-lines text) piece,
      omega (arith, here, within, whole),
      ap (λ j. get_or t.offsets j 0) next ∙ behind ∙ omega (arith, here),
    )

-- What a user should see of a line: the line, and a newline and a byte 0 if it has no newline.
abbrev pub shown_line : List ℕ → List ℕ
shown_line l = l ++ (if get_or l (length l - 1) 0 == newline then [] else newline_literal)

print_line_lem :
    (read_at : ℕ → ℕ → List ℕ) (fresh text : List ℕ) (t : OffsetTable) (i : ℕ) (l : List ℕ)
    → length text < max_object
    → ReadsText read_at text
    → IsTable t (lines text)
    → get_elem? (lines text) i ≡ some l
    → length l ≤ length fresh
    → print_line read_at fresh t i ≡ shown_line l
unfolding print_line
print_line_lem read_at fresh text t i l small reads v e room =
    let (len, piece, within, end) = entry t text l i small v e in
    let some_bytes = lines-nonempty text i l e in
    let got : write_at fresh 0 (read_at (get_or t.offsets i 0) (line_len t i))
        ≡ l ++ drop (length l) fresh =
      ap (write_at fresh 0)
        (ap (read_at (get_or t.offsets i 0)) len ∙ reads (get_or t.offsets i 0) (length l) ∙ piece)
      ∙ write_at-start l fresh room in
    let last : sub_size (line_len t i) 1 ≡ length l - 1 = omega (arith, len, some_bytes, within) in
    ap₂ (λ (a : List ℕ) (c : ℕ). a ++ (if c == newline then [] else newline_literal))
      (ap₂ take len got ∙ take-all_append l (drop (length l) fresh) (length l) refl)
      (ap₂ (λ a j. get_or a j 0) got last
        ∙ get_or-append l (drop (length l) fresh) (length l - 1) 0 (omega (arith, some_bytes)))

-- The answers to what happens, read off the lines themselves.
abbrev pub reply_for : ℕ → Option (List ℕ) → Reply
reply_for count none = must_not_exceed count
reply_for count (some l) = printed (shown_line l)

abbrev pub all_lines : List (List ℕ) → List Reply
all_lines ls = map (λ l. printed (shown_line l)) ls

unfoldable pub expected_session : List (List ℕ) → List Event → List Reply
expected_session ls [] = []
expected_session ls (poll_failed ∷ es) = failure ∷ []
expected_session ls (timed_out ∷ es) = all_lines ls
expected_session ls (nothing_typed ∷ es) = []
expected_session ls (typed (pos zero) ∷ es) = []
expected_session ls (typed (negsuc n) ∷ es) = must_be_positive ∷ expected_session ls es
expected_session ls (typed (pos (suc i)) ∷ es) =
    reply_for (length ls) (get_elem? ls i) ∷ expected_session ls es

module _ (read_at : ℕ → ℕ → List ℕ) (malloc : ℕ → List ℕ) (text : List ℕ) (t : OffsetTable)
    (small : length text < max_object) (reads : ReadsText read_at text)
    (gives : (size : ℕ) → length (malloc size) ≡ size) (v : IsTable t (lines text)) where
  printed-line :
      (i : ℕ) (l : List ℕ)
      → get_elem? (lines text) i ≡ some l
      → print_line read_at (malloc (line_len t i)) t i ≡ shown_line l
  printed-line i l e =
      print_line_lem read_at (malloc (line_len t i)) text t i l small reads v e
        (omega (arith, gives (line_len t i), (entry t text l i small v e).0))

  print_all_lem :
      (rounds i : ℕ)
      → i + rounds ≡ t.count
      → print_all read_at malloc t rounds i ≡ all_lines (drop i (lines text))
  unfolding print_all
  print_all_lem zero i h = ap all_lines (sym (drop-all (lines text) i (omega (arith, v.counted))))
  print_all_lem (suc rounds) i h =
      let (l, e) = get_elem?-lt (lines text) i (omega (arith, v.counted)) in
      ap₂ (λ a b. printed a ∷ b) (printed-line i l e)
        (print_all_lem rounds (i + 1) (omega arith)
          ∙ ap (λ k. all_lines (drop k (lines text))) {y = suc i} (omega arith))
      ∙ ap all_lines (sym (drop-get (lines text) i l e))

  answer_lem :
      (i : ℕ)
      → (if ltb t.count (suc i)
          then must_not_exceed t.count
          else printed (print_line read_at (malloc (line_len t i)) t i))
        ≡ reply_for (length (lines text)) (get_elem? (lines text) i)
  answer_lem i = elim (Bool-cases (ltb t.count (suc i))) [
    | inl e ↦ rw e (
        ap must_not_exceed v.counted
        ∙ ap (reply_for (length (lines text))) (
            sym (get_elem?-ge (lines text) i (omega (arith, ltb→lt t.count (suc i) e, v.counted)))))
    | inr e ↦
        let (l, el) =
          get_elem?-lt (lines text) i (omega (arith, ltb→le t.count (suc i) e, v.counted)) in
        rw e (ap printed (printed-line i l el) ∙ ap (reply_for (length (lines text))) (sym el))
  ]

-- A session of lab6 over the table of a text: each number gets its line, with a newline and a byte
-- 0 behind it if it is a last line without newline, or the error that is due; when no number comes
-- in time all lines are printed and the session ends. The file is at rest, and malloc gives the
-- room that it is asked for.
pub session-lines :
    (read_at : ℕ → ℕ → List ℕ) (malloc : ℕ → List ℕ) (text : List ℕ) (t : OffsetTable)
    (es : List Event)
    → length text < max_object
    → ReadsText read_at text
    → ((size : ℕ) → length (malloc size) ≡ size)
    → IsTable t (lines text)
    → session read_at malloc t es ≡ expected_session (lines text) es
unfolding session expected_session
session-lines read_at malloc text t [] small reads gives v = refl
session-lines read_at malloc text t (poll_failed ∷ es) small reads gives v = refl
session-lines read_at malloc text t (timed_out ∷ es) small reads gives v =
    print_all_lem read_at malloc text t small reads gives v t.count 0 (omega arith)
session-lines read_at malloc text t (nothing_typed ∷ es) small reads gives v = refl
session-lines read_at malloc text t (typed (pos zero) ∷ es) small reads gives v = refl
session-lines read_at malloc text t (typed (negsuc n) ∷ es) small reads gives v =
    ap (λ z. must_be_positive ∷ z) (session-lines read_at malloc text t es small reads gives v)
session-lines read_at malloc text t (typed (pos (suc i)) ∷ es) small reads gives v =
    ap₂ (λ a b. a ∷ b) (answer_lem read_at malloc text t small reads gives v i)
      (session-lines read_at malloc text t es small reads gives v)
