-- ===== src/Lines/Text.antt =====
-- The lines of a text, as a list of pieces that end behind each newline, and the same by a walk
-- from the left that holds the complete lines and the rest. No file of the repository is modelled.
use os_unixvr4_labs.Common.{
  ℕ, ◌≡◌, refl, sym, ap, ◌∙◌, List, [], ◌∷◌, ◌++◌, append_assoc, ◌==◌, if◌then◌else◌, Bool-cases,
  inl, inr,
}

abbrev pub newline : ℕ
newline = 10

-- `c` before the first line of a list of lines.
abbrev pub cons_first : ℕ → List (List ℕ) → List (List ℕ)
cons_first c [] = (c ∷ []) ∷ []
cons_first c (l ∷ ls) = (c ∷ l) ∷ ls

-- The lines of a text, each with its newline; the last may have none.
unfoldable pub lines : List ℕ → List (List ℕ)
lines [] = []
lines (c ∷ cs) = let rest = lines cs in if c == newline then (c ∷ []) ∷ rest else cons_first c rest

abbrev pub concat : List (List ℕ) → List ℕ
concat [] = []
concat (l ∷ ls) = l ++ concat ls

-- The complete lines of what is read, and what is behind them.
pub record Cut : Type 0 where
  pub complete : List (List ℕ)
  pub pending : List ℕ

abbrev pub cut_char : Cut → ℕ → Cut
cut_char s c =
    if c == newline
    then record { complete = s.complete ++ (s.pending ++ c ∷ []) ∷ []; pending = [] }
    else record { complete = s.complete; pending = s.pending ++ c ∷ [] }

unfoldable pub cut_from : Cut → List ℕ → Cut
cut_from s [] = s
cut_from s (c ∷ cs) = cut_from (cut_char s c) cs

unfoldable pub cut : List ℕ → Cut
unfolding cut_from
cut text = cut_from (record { complete = []; pending = [] }) text

abbrev pub tail_line : List ℕ → List (List ℕ)
tail_line [] = []
tail_line (c ∷ cs) = (c ∷ cs) ∷ []

-- `p` before the first line of a text.
abbrev prepend : List ℕ → List (List ℕ) → List (List ℕ)
prepend p [] = tail_line p
prepend p (l ∷ ls) = (p ++ l) ∷ ls

prepend-nil : (ls : List (List ℕ)) → prepend [] ls ≡ ls
prepend-nil [] = refl
prepend-nil (l ∷ ls) = refl

prepend-cons_first :
    (p : List ℕ) (c : ℕ) (ls : List (List ℕ))
    → prepend (p ++ c ∷ []) ls ≡ prepend p (cons_first c ls)
prepend-cons_first [] c [] = refl
prepend-cons_first (x ∷ p) c [] = refl
prepend-cons_first p c (l ∷ ls) = ap (λ z. z ∷ ls) (append_assoc p (c ∷ []) l)

cut_from-lines :
    (s : Cut) (xs : List ℕ)
    → (cut_from s xs).complete ++ tail_line (cut_from s xs).pending
      ≡ s.complete ++ prepend s.pending (lines xs)
unfolding cut_from lines
cut_from-lines s [] = refl
cut_from-lines s (c ∷ cs) = elim (Bool-cases (c == newline)) [
  | inl e ↦
      cut_from-lines (cut_char s c) cs
      ∙ rw e (
          ap (λ z. (s.complete ++ (s.pending ++ c ∷ []) ∷ []) ++ z) (prepend-nil (lines cs))
          ∙ append_assoc s.complete ((s.pending ++ c ∷ []) ∷ []) (lines cs))
  | inr e ↦
      cut_from-lines (cut_char s c) cs
      ∙ rw e (ap (λ z. s.complete ++ z) (prepend-cons_first s.pending c (lines cs)))
]

pub cut_from-append :
    (s : Cut) (xs ys : List ℕ) → cut_from s (xs ++ ys) ≡ cut_from (cut_from s xs) ys
unfolding cut_from
cut_from-append s [] ys = refl
cut_from-append s (x ∷ xs) ys = cut_from-append (cut_char s x) xs ys

pub cut-snoc : (text : List ℕ) (c : ℕ) → cut (text ++ c ∷ []) ≡ cut_char (cut text) c
unfolding cut
cut-snoc text c = cut_from-append (record { complete = []; pending = [] }) text (c ∷ [])

-- The lines of a text are its complete lines and its rest.
pub lines-cut : (text : List ℕ) → lines text ≡ (cut text).complete ++ tail_line (cut text).pending
unfolding cut
lines-cut text =
    sym (cut_from-lines (record { complete = []; pending = [] }) text ∙ prepend-nil (lines text))
