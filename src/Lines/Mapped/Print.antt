-- ===== src/Lines/Mapped/Print.antt =====
-- What lab7 prints of a line, and a whole session.
use os_unixvr4_labs.Common.{
  ℕ, zero, suc, ◌+◌, ◌-◌, ◌<◌, ◌≡◌, refl, sym, ap, ap₂, ◌∙◌, Bool, true, false, List, [], ◌∷◌, ◌++◌,
  Option, some, none, ◌==◌, ltb, ltb→lt, ltb→le, if◌then◌else◌, length, arith, Bool-cases, inl, inr,
  map, take, drop, get_or, get_elem?, sub_size, max_object,
}
use os_unixvr4_labs.Common.Int.{pos, negsuc}
use os_unixvr4_labs.Lines.Text.{newline, lines}
use os_unixvr4_labs.Lines.Pieces.{lines-nonempty}
use os_unixvr4_labs.Lines.Array.{get_elem?-lt, get_elem?-ge, get_or-take, drop-get, drop-all}
use os_unixvr4_labs.Lines.Offsets.{
  line_len, Event, poll_failed, timed_out, nothing_typed, typed, Reply, failure, must_be_positive,
  must_not_exceed, printed,
}
use os_unixvr4_labs.Lines.Offsets.Print.{entry}
use os_unixvr4_labs.Lines.Mapped.{LineTable, print_line, print_all, session}
use os_unixvr4_labs.Lines.Mapped.Window.{MapsText, HasFile, get_line_lem}

-- What a user should see of a line: the line, and a newline if it has none.
abbrev pub shown_line : List ℕ → List ℕ
shown_line l = l ++ (if get_or l (length l - 1) 0 == newline then [] else newline ∷ [])

-- The answers to what happens, read off the lines themselves.
abbrev pub reply_for : ℕ → Option (List ℕ) → Reply
reply_for count none = must_not_exceed count
reply_for count (some l) = printed (shown_line l)

abbrev pub all_lines : List (List ℕ) → List Reply
all_lines ls = map (λ l. printed (shown_line l)) ls

unfoldable pub expected_session : List (List ℕ) → List Event → List Reply
expected_session ls [] = []
expected_session ls (poll_failed ∷ es) = failure ∷ []
expected_session ls (timed_out ∷ es) = all_lines ls
expected_session ls (nothing_typed ∷ es) = []
expected_session ls (typed (pos zero) ∷ es) = []
expected_session ls (typed (negsuc n) ∷ es) = must_be_positive ∷ expected_session ls es
expected_session ls (typed (pos (suc i)) ∷ es) =
    reply_for (length ls) (get_elem? ls i) ∷ expected_session ls es

module _ (text : List ℕ) (page : ℕ) (mmap : ℕ → ℕ → Option (List ℕ)) (munmap : ℕ → Bool)
    (small : length text < max_object) (maps : MapsText mmap page text)
    (unmaps : (n : ℕ) → munmap n ≡ true) where
  printed-line :
      (t : LineTable) (i : ℕ) (l : List ℕ)
      → HasFile t text
      → get_elem? (lines text) i ≡ some l
      → (t' : LineTable) × (print_line mmap munmap page t i ≡ (some (shown_line l), t'))
        × HasFile t' text
        × (t'.table ≡ t.table)
  unfolding print_line
  printed-line t i l f at =
      let (bytes, t', got, g, how) =
        get_line_lem text l i page mmap munmap t small at maps unmaps f in
      let (len, piece, within, end) = entry t.table text l i small f.table at in
      let some_bytes = lines-nonempty text i l at in
      let last : get_or bytes (sub_size (line_len t.table i) 1) 0 ≡ get_or l (length l - 1) 0 =
        ap (λ k. get_or bytes k 0) {y = length l - 1} (omega (arith, len, some_bytes, within))
        ∙ sym (get_or-take bytes (length l) (length l - 1) 0 (omega (arith, some_bytes)))
        ∙ ap (λ z. get_or z (length l - 1) 0) g.line in
      (
        t',
        rw (got, print_line)
            (ap (λ z. (some z, t'))
              (ap₂ (λ (a : List ℕ) (c : ℕ). a ++ (if c == newline then [] else newline ∷ []))
                (ap (λ k. take k bytes) len ∙ g.line) last)),
        g.file,
        g.same_table,
      )

  print_all-step :
      (t t' : LineTable) (rounds i : ℕ) (bytes : List ℕ)
      → print_line mmap munmap page t i ≡ (some bytes, t')
      → print_all mmap munmap page t (suc rounds) i
        ≡ printed bytes ∷ print_all mmap munmap page t' rounds (i + 1)
  unfolding print_all
  print_all-step t t' rounds i bytes e =
      rw (e, print_all)
        (ap
          (λ (z : Option (List ℕ) × LineTable).
            printed bytes ∷ print_all mmap munmap page z.1 rounds (i + 1))
          e)

  print_all_from :
      (t : LineTable) (rounds i : ℕ)
      → i + rounds ≡ length (lines text)
      → HasFile t text
      → print_all mmap munmap page t rounds i ≡ all_lines (drop i (lines text))
  unfolding print_all
  print_all_from t zero i h f = ap all_lines (sym (drop-all (lines text) i (omega arith)))
  print_all_from t (suc rounds) i h f =
      let (l, at) = get_elem?-lt (lines text) i (omega arith) in
      let (t', e, f', same) = printed-line t i l f at in
      print_all-step t t' rounds i (shown_line l) e
      ∙ ap (λ z. printed (shown_line l) ∷ z)
          (print_all_from t' rounds (i + 1) (omega arith) f'
            ∙ ap (λ k. all_lines (drop k (lines text))) {y = suc i} (omega arith))
      ∙ ap all_lines (sym (drop-get (lines text) i l at))

  session-beyond :
      (t : LineTable) (i : ℕ) (es : List Event)
      → ltb t.table.count (suc i) ≡ true
      → session mmap munmap page t (typed (pos (suc i)) ∷ es)
        ≡ must_not_exceed t.table.count ∷ session mmap munmap page t es
  unfolding session
  session-beyond t i es e = rw (e, session) refl

  session-line :
      (t t' : LineTable) (i : ℕ) (es : List Event) (bytes : List ℕ)
      → ltb t.table.count (suc i) ≡ false
      → print_line mmap munmap page t i ≡ (some bytes, t')
      → session mmap munmap page t (typed (pos (suc i)) ∷ es)
        ≡ printed bytes ∷ session mmap munmap page t' es
  unfolding session
  session-line t t' i es bytes e p =
      rw (e, session)
        (rw p (
          ap (λ (z : Option (List ℕ) × LineTable). printed bytes ∷ session mmap munmap page z.1 es)
            p))

  session-from :
      (t : LineTable) (es : List Event)
      → HasFile t text
      → session mmap munmap page t es ≡ expected_session (lines text) es
  unfolding session expected_session
  session-from t [] f = refl
  session-from t (poll_failed ∷ es) f = refl
  session-from t (timed_out ∷ es) f =
      ap (λ k. print_all mmap munmap page t k 0) f.table.counted
      ∙ print_all_from t (length (lines text)) 0 (omega arith) f
  session-from t (nothing_typed ∷ es) f = refl
  session-from t (typed (pos zero) ∷ es) f = refl
  session-from t (typed (negsuc n) ∷ es) f = ap (λ z. must_be_positive ∷ z) (session-from t es f)
  session-from t (typed (pos (suc i)) ∷ es) f = elim (Bool-cases (ltb t.table.count (suc i))) [
    | inl e ↦
        session-beyond t i es e
        ∙ ap₂ (λ a b. a ∷ b)
            (ap must_not_exceed f.table.counted
              ∙ ap (reply_for (length (lines text))) (
                  sym (
                    get_elem?-ge (lines text) i
                      (omega (arith, ltb→lt t.table.count (suc i) e, f.table.counted)))))
            (session-from t es f)
    | inr e ↦
        let (l, at) =
          get_elem?-lt (lines text) i
            (omega (arith, ltb→le t.table.count (suc i) e, f.table.counted)) in
        let (t', p, f', same) = printed-line t i l f at in
        session-line t t' i es (shown_line l) e p
        ∙ ap₂ (λ a b. a ∷ b) (ap (reply_for (length (lines text))) (sym at)) (session-from t' es f')
  ]

-- A session of lab7 over a mapped file, where mmap(2) and munmap(2) do what they promise: each
-- number gets its line, with a newline behind it if it has none, or the error that is due; when no
-- number comes in time all lines are printed and the session ends. The window that stays mapped
-- from line to line makes no difference.
pub session-HasFile :
    (text : List ℕ) (page : ℕ) (mmap : ℕ → ℕ → Option (List ℕ)) (munmap : ℕ → Bool) (t : LineTable)
    (es : List Event)
    → length text < max_object
    → MapsText mmap page text
    → ((n : ℕ) → munmap n ≡ true)
    → HasFile t text
    → session mmap munmap page t es ≡ expected_session (lines text) es
session-HasFile text page mmap munmap t es small maps unmaps f =
    session-from text page mmap munmap small maps unmaps t es f
