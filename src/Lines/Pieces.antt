-- ===== src/Lines/Pieces.antt =====
-- Where the pieces of a text begin, and the pieces read back from the text.
use os_unixvr4_labs.Common.{
  ℕ, zero, suc, ◌+◌, ◌≤◌, ◌<◌, ◌≡◌, ◌≢◌, refl, sym, ap, ◌∙◌, List, [], ◌∷◌, ◌++◌, append-nil,
  append_assoc, ◌==◌, if◌then◌else◌, length, length-append, arith, Bool-cases, inl, inr, get_elem?,
  get_or, some, take, drop,
}
use os_unixvr4_labs.Lines.Text.{newline, concat, lines, cut_from, cons_first, Cut, cut, cut_char}

-- The place of each piece, the first at `o`.
abbrev pub starts : ℕ → List (List ℕ) → List ℕ
starts o [] = []
starts o (l ∷ ls) = o ∷ starts (o + length l) ls

pub length-starts : (o : ℕ) (ls : List (List ℕ)) → length (starts o ls) ≡ length ls
length-starts o [] = refl
length-starts o (l ∷ ls) = ap suc (length-starts (o + length l) ls)

pub concat-snoc : (ls : List (List ℕ)) (l : List ℕ) → concat (ls ++ l ∷ []) ≡ concat ls ++ l
concat-snoc [] l = append-nil l
concat-snoc (x ∷ ls) l = ap (λ z. x ++ z) (concat-snoc ls l) ∙ sym (append_assoc x (concat ls) l)

pub starts-snoc :
    (o : ℕ) (ls : List (List ℕ)) (l : List ℕ)
    → starts o (ls ++ l ∷ []) ≡ starts o ls ++ (o + length (concat ls)) ∷ []
starts-snoc o [] l = ap (λ z. z ∷ []) (omega arith)
starts-snoc o (x ∷ ls) l =
    ap (λ z. o ∷ z)
      (starts-snoc (o + length x) ls l
        ∙ ap (λ z. starts (o + length x) ls ++ z ∷ []) (omega (arith, length-append x (concat ls))))

concat-cons_first : (c : ℕ) (ls : List (List ℕ)) → concat (cons_first c ls) ≡ c ∷ concat ls
concat-cons_first c [] = refl
concat-cons_first c (l ∷ ls) = refl

pub concat-lines : (text : List ℕ) → concat (lines text) ≡ text
unfolding lines
concat-lines [] = refl
concat-lines (c ∷ cs) = elim (Bool-cases (c == newline)) [
  | inl e ↦ rw e (ap (λ z. c ∷ z) (concat-lines cs))
  | inr e ↦ rw e (concat-cons_first c (lines cs) ∙ ap (λ z. c ∷ z) (concat-lines cs))
]

take-append : (l r : List ℕ) → take (length l) (l ++ r) ≡ l
take-append [] r = refl
take-append (x ∷ l) r = ap (λ z. x ∷ z) (take-append l r)

drop-append : (l r : List ℕ) (n : ℕ) → drop (length l + n) (l ++ r) ≡ drop n r
drop-append [] r n = ap (λ k. drop k r) {y = n} (omega arith)
drop-append (x ∷ l) r n =
    ap (λ k. drop k ((x ∷ l) ++ r)) {y = suc (length l + n)} (omega arith) ∙ drop-append l r n

-- A piece is as long as it is at its place in the text.
pub piece-read :
    (ls : List (List ℕ)) (i : ℕ) (l : List ℕ) (o : ℕ)
    → get_elem? ls i ≡ some l
    → (k : ℕ) × (get_or (starts o ls) i 0 ≡ o + k)
      × (take (length l) (drop k (concat ls)) ≡ l)
      × (k + length l ≤ length (concat ls))
piece-read [] i l o e = absurd (ground arith)
piece-read (x ∷ ls) zero l o e =
    let same : x ≡ l = ground arith in
    (
      0,
      omega arith,
      ap (λ z. take (length l) (z ++ concat ls)) same ∙ take-append l (concat ls),
      omega (arith, length-append x (concat ls), ap length same),
    )
piece-read (x ∷ ls) (suc i) l o e =
    let (k, at, piece, within) = piece-read ls i l (o + length x) e in
    (
      length x + k,
      omega (arith, at),
      ap (take (length l)) (drop-append x (concat ls) k) ∙ piece,
      omega (arith, within, length-append x (concat ls)),
    )

-- A piece ends where the next begins, or with the text.
pub piece-end :
    (ls : List (List ℕ)) (i : ℕ) (l : List ℕ) (o : ℕ)
    → get_elem? ls i ≡ some l
    → get_or (starts o ls ++ (o + length (concat ls)) ∷ []) (suc i) 0
      ≡ get_or (starts o ls) i 0 + length l
piece-end [] i l o e = absurd (ground arith)
piece-end (x ∷ []) zero l o e =
    let same : x ≡ l = ground arith in omega (arith, length-append x [], ap length same)
piece-end (x ∷ y ∷ ls) zero l o e = let same : x ≡ l = ground arith in omega (arith, ap length same)
piece-end (x ∷ ls) (suc i) l o e =
    ap (λ z. get_or (starts (o + length x) ls ++ z ∷ []) (suc i) 0)
      (omega (arith, length-append x (concat ls)))
    ∙ piece-end ls i l (o + length x) e

-- Bytes of one line, without its newline.
abbrev pub IsFree : List ℕ → Type 0
IsFree [] = Unit {0}
IsFree (c ∷ cs) = (c ≢ newline) × IsFree cs

IsFree-snoc : (p : List ℕ) (c : ℕ) → IsFree p → c ≢ newline → IsFree (p ++ c ∷ [])
IsFree-snoc [] c f h = (h, tt)
IsFree-snoc (x ∷ p) c f h = (f.0, IsFree-snoc p c f.1 h)

-- A line without its newline.
unfoldable pub chomp : List ℕ → List ℕ
chomp [] = []
chomp (c ∷ cs) = if c == newline then [] else c ∷ chomp cs

pub chomp-free : (p : List ℕ) → IsFree p → chomp p ≡ p
unfolding chomp
chomp-free [] f = refl
chomp-free (c ∷ cs) f = ground (arith, chomp-free cs f.1)

pub chomp-line : (p : List ℕ) → IsFree p → chomp (p ++ newline ∷ []) ≡ p
unfolding chomp
chomp-line [] f = refl
chomp-line (c ∷ cs) f = ground (arith, chomp-line cs f.1)

-- What holds of the complete lines and the rest of a text of `n` bytes.
pub record IsCut (s : Cut) (n : ℕ) : Type 0 where
  pub free : IsFree s.pending
  pub total : length (concat s.complete) + length s.pending ≡ n
  pub few : length s.complete ≤ length (concat s.complete)

cut_char-IsCut : (s : Cut) (c n : ℕ) → IsCut s n → IsCut (cut_char s c) (n + 1)
cut_char-IsCut s c n v = elim (Bool-cases (c == newline)) [
  | inl e ↦ rw e (record {
    free = tt;
    total = omega (
      arith,
      v.total,
      ap length (concat-snoc s.complete (s.pending ++ c ∷ [])),
      length-append (concat s.complete) (s.pending ++ c ∷ []),
      length-append s.pending (c ∷ []),
    );
    few = omega (
      arith,
      v.few,
      ap length (concat-snoc s.complete (s.pending ++ c ∷ [])),
      length-append (concat s.complete) (s.pending ++ c ∷ []),
      length-append s.pending (c ∷ []),
      length-append s.complete ((s.pending ++ c ∷ []) ∷ []),
    );
  })
  | inr e ↦ rw e (record {
    free = IsFree-snoc s.pending c v.free (ground arith);
    total = omega (arith, v.total, length-append s.pending (c ∷ []));
    few = v.few;
  })
]

pub cut_from-IsCut :
    (s : Cut) (n : ℕ) (xs : List ℕ) → IsCut s n → IsCut (cut_from s xs) (n + length xs)
unfolding cut_from
cut_from-IsCut s n [] v = record { free = v.free; total = omega (arith, v.total); few = v.few }
cut_from-IsCut s n (x ∷ xs) v =
    let r = cut_from-IsCut (cut_char s x) (n + 1) xs (cut_char-IsCut s x n v) in
    record { free = r.free; total = omega (arith, r.total); few = r.few }

pub cut-IsCut : (text : List ℕ) → IsCut (cut text) (length text)
unfolding cut
cut-IsCut text =
    let r =
      cut_from-IsCut (record { complete = []; pending = [] }) 0 text
        (record { free = tt; total = refl; few = omega arith }) in
    record { free = r.free; total = omega (arith, r.total); few = r.few }

cons_first-few : (c : ℕ) (ls : List (List ℕ)) → length (cons_first c ls) ≤ suc (length ls)
cons_first-few c [] = omega arith
cons_first-few c (l ∷ ls) = omega arith

-- A text has no more lines than bytes.
pub lines-few : (text : List ℕ) → length (lines text) ≤ length text
unfolding lines
lines-few [] = omega arith
lines-few (c ∷ cs) = elim (Bool-cases (c == newline)) [
  | inl e ↦ rw e (omega (arith, lines-few cs))
  | inr e ↦ rw e (omega (arith, lines-few cs, cons_first-few c (lines cs)))
]

cons_first-nonempty :
    (c : ℕ) (ls : List (List ℕ)) (i : ℕ) (l : List ℕ)
    → ((j : ℕ) → get_elem? ls j ≡ some l → 0 < length l)
    → get_elem? (cons_first c ls) i ≡ some l
    → 0 < length l
cons_first-nonempty c [] zero l h e =
    let same : c ∷ [] ≡ l = ground arith in omega (arith, ap length same)
cons_first-nonempty c [] (suc i) l h e = absurd (ground arith)
cons_first-nonempty c (m ∷ ms) zero l h e =
    let same : c ∷ m ≡ l = ground arith in omega (arith, ap length same)
cons_first-nonempty c (m ∷ ms) (suc i) l h e = h (suc i) e

cons-nonempty :
    (c : ℕ) (ls : List (List ℕ)) (i : ℕ) (l : List ℕ)
    → ((j : ℕ) → get_elem? ls j ≡ some l → 0 < length l)
    → get_elem? ((c ∷ []) ∷ ls) i ≡ some l
    → 0 < length l
cons-nonempty c ls zero l h e =
    let same : c ∷ [] ≡ l = ground arith in omega (arith, ap length same)
cons-nonempty c ls (suc i) l h e = h i e

-- No line is empty.
pub lines-nonempty :
    (text : List ℕ) (i : ℕ) (l : List ℕ) → get_elem? (lines text) i ≡ some l → 0 < length l
unfolding lines
lines-nonempty [] i l e = absurd (ground arith)
lines-nonempty (c ∷ cs) i l e = elim (Bool-cases (c == newline)) [
  | inl n ↦
      cons-nonempty c (lines cs) i l (λ j. lines-nonempty cs j l)
        (ap (λ b. get_elem? (if b then (c ∷ []) ∷ lines cs else cons_first c (lines cs)) i) (sym n)
          ∙ e)
  | inr n ↦
      cons_first-nonempty c (lines cs) i l (λ j. lines-nonempty cs j l)
        (ap (λ b. get_elem? (if b then (c ∷ []) ∷ lines cs else cons_first c (lines cs)) i) (sym n)
          ∙ e)
]
