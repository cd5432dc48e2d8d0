-- ===== src/Lines/Lengths/Print.antt =====
-- What lab5 prints of a line, and a whole session.
use os_unixvr4_labs.Common.{
  ℕ, zero, suc, ◌≤◌, ◌<◌, ◌≡◌, refl, sym, ap, ap₂, subst, ◌∙◌, List, [], ◌∷◌, ◌++◌, Option, some,
  none, ltb, ltb→lt, ltb→le, length, arith, Bool-cases, inl, inr, take, drop, set, get_or,
  get_elem?, write_at, add_size, max_object,
}
use os_unixvr4_labs.Common.Int.{ℤ, pos, negsuc}
use os_unixvr4_labs.Lines.Text.{newline, lines}
use os_unixvr4_labs.Lines.Pieces.{starts, chomp, piece-read, concat-lines}
use os_unixvr4_labs.Lines.Array.{
  get_or-take, get_or-map, get_elem?-bound, get_elem?-lt, get_elem?-ge, take_shorter, set-behind,
}
use os_unixvr4_labs.Lines.Lengths.{
  LineTable, c_string, print_line, Reply, finished, must_be_positive, must_not_exceed, printed,
  answer, session,
}
use os_unixvr4_labs.Lines.Lengths.Walk.{body_length, IsTable}

chomp-short : (l : List ℕ) → length (chomp l) ≤ length l
unfolding chomp
chomp-short [] = omega arith
chomp-short (c ∷ cs) = ground (arith, chomp-short cs)

take-chomp : (l : List ℕ) → take (length (chomp l)) l ≡ chomp l
unfolding chomp
take-chomp [] = refl
take-chomp (c ∷ cs) = ground (arith, take-chomp cs)

c_string-append : (xs rest : List ℕ) → c_string (xs ++ 0 ∷ rest) ≡ c_string xs
unfolding c_string
c_string-append [] rest = refl
c_string-append (x ∷ xs) rest = ground (arith, c_string-append xs rest)

-- The place of a line in a table, and the length that is stored for it.
entry :
    (t : LineTable) (ls : List (List ℕ)) (i : ℕ) (l : List ℕ)
    → IsTable t ls
    → get_elem? ls i ≡ some l
    → (get_or t.lengths i 0 ≡ body_length l) × (get_or t.offsets i 0 ≡ get_or (starts 0 ls) i 0)
entry t ls i l v e =
    let within : i < t.count = omega (arith, get_elem?-bound ls i l e, v.counted) in
    (
      sym (get_or-take t.lengths t.count i 0 within)
          ∙ ap (λ z. get_or z i 0) v.lengths_are
          ∙ get_or-map body_length ls i l e,
      sym (get_or-take t.offsets t.count i 0 within) ∙ ap (λ z. get_or z i 0) v.offsets_are,
    )

-- `read_at` reads a file that holds `text`.
abbrev pub ReadsText : (ℕ → ℕ → List ℕ) → List ℕ → Type 0
ReadsText read_at text = (offset n : ℕ) → read_at offset n ≡ take n (drop offset text)

print_line_lem :
    (read_at : ℕ → ℕ → List ℕ) (fresh text : List ℕ) (t : LineTable) (i : ℕ) (l : List ℕ)
    → ReadsText read_at text
    → IsTable t (lines text)
    → get_elem? (lines text) i ≡ some l
    → body_length l < length fresh
    → print_line read_at fresh t i ≡ c_string (chomp l) ++ newline ∷ []
unfolding print_line
print_line_lem read_at fresh text t i l reads v e room =
    let (len, off) = entry t (lines text) i l v e in
    let (k, at, piece, within) = piece-read (lines text) i l 0 e in
    let body : take (body_length l) (drop k text) ≡ chomp l =
      take_shorter (body_length l) (length l) (drop k text) l (chomp-short l)
        (subst (λ z. take (length l) (drop k z) ≡ l) (concat-lines text) piece)
      ∙ take-chomp l in
    let got : read_at (get_or t.offsets i 0) (get_or t.lengths i 0) ≡ chomp l =
      ap₂ read_at {y = k} (omega (arith, off, at)) len ∙ reads k (body_length l) ∙ body in
    ap (λ z. c_string z ++ newline ∷ [])
      (ap₂ (λ a n. set (write_at fresh 0 a) n 0) got len ∙ set-behind (chomp l) fresh 0 room)
    ∙ ap (λ z. z ++ newline ∷ []) (c_string-append (chomp l) (drop (suc (length (chomp l))) fresh))

-- What a user should see of a line.
abbrev pub shown_line : List ℕ → List ℕ
shown_line l = c_string (chomp l) ++ newline ∷ []

abbrev pub reply_for : ℕ → Option (List ℕ) → Reply
reply_for count none = must_not_exceed count
reply_for count (some l) = printed (shown_line l)

-- The answer to a number, read off the lines themselves.
abbrev pub expected : List (List ℕ) → ℤ → Reply
expected ls (pos zero) = finished
expected ls (negsuc n) = must_be_positive
expected ls (pos (suc i)) = reply_for (length ls) (get_elem? ls i)

unfoldable pub expected_session : List (List ℕ) → List ℤ → List Reply
expected_session ls [] = []
expected_session ls (n ∷ ns) =
    let rest = expected_session ls ns in elim (expected ls n) [ finished ↦ [] | r ↦ r ∷ rest ]

answer_lem :
    (read_at : ℕ → ℕ → List ℕ) (malloc : ℕ → List ℕ) (text : List ℕ) (t : LineTable) (n : ℤ)
    → length text < max_object
    → ReadsText read_at text
    → ((size : ℕ) → length (malloc size) ≡ size)
    → IsTable t (lines text)
    → answer read_at malloc t n ≡ expected (lines text) n
unfolding answer
answer_lem read_at malloc text t (pos zero) small reads gives v = refl
answer_lem read_at malloc text t (negsuc n) small reads gives v = refl
answer_lem read_at malloc text t (pos (suc i)) small reads gives v =
    elim (Bool-cases (ltb t.count (suc i))) [
      | inl e ↦ rw e (
          ap must_not_exceed v.counted
          ∙ ap (reply_for (length (lines text))) (
              sym
                (get_elem?-ge (lines text) i (omega (arith, ltb→lt t.count (suc i) e, v.counted)))))
      | inr e ↦
          let (l, el) =
            get_elem?-lt (lines text) i (omega (arith, ltb→le t.count (suc i) e, v.counted)) in
          rw e (
            ap printed (
              print_line_lem read_at (malloc (add_size (get_or t.lengths i 0) 1)) text t i l reads v
                el (room l el))
            ∙ ap (reply_for (length (lines text))) (sym el))
    ]
  where
    room :
        (l : List ℕ)
        → get_elem? (lines text) i ≡ some l
        → body_length l < length (malloc (add_size (get_or t.lengths i 0) 1))
    room l el =
        let (k, at, piece, within) = piece-read (lines text) i l 0 el in
        omega (
          arith,
          gives (add_size (get_or t.lengths i 0) 1),
          (entry t (lines text) i l v el).0,
          chomp-short l,
          within,
          ap length (concat-lines text),
        )

-- A session over the table of a text: each number gets the answer that the lines of the text call
-- for, a line without its newline up to a byte 0, an error for a number that is negative or too
-- large, and 0 ends it. The file is at rest, and malloc gives the room that it is asked for.
pub session_lem :
    (read_at : ℕ → ℕ → List ℕ) (malloc : ℕ → List ℕ) (text : List ℕ) (t : LineTable) (ns : List ℤ)
    → length text < max_object
    → ReadsText read_at text
    → ((size : ℕ) → length (malloc size) ≡ size)
    → IsTable t (lines text)
    → session read_at malloc t ns ≡ expected_session (lines text) ns
unfolding session expected_session
session_lem read_at malloc text t [] small reads gives v = refl
session_lem read_at malloc text t (n ∷ ns) small reads gives v =
    ap₂ next (answer_lem read_at malloc text t n small reads gives v)
      (session_lem read_at malloc text t ns small reads gives v)
  where
    next : Reply → List Reply → List Reply
    next r rest = elim r [ finished ↦ [] | q ↦ q ∷ rest ]
