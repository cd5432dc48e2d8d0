-- ===== src/Protocol/Escape.antt =====
-- Byte stuffing as a function on lists, and its inverse.
use os_unixvr4_labs.Common.{
  ℕ, ◌+◌, ◌≤◌, ◌<◌, ◌≡◌, refl, ap, List, [], ◌∷◌, ◌++◌, true, false, arith, length, Bool-cases, inl,
  inr, if◌then◌else◌,
}
use os_unixvr4_labs.Protocol.{need_escape, message_escape, counted_length}

-- Each byte that is marked is preceded by an escape.
unfoldable pub escape_char : ℕ → List ℕ
escape_char c = if need_escape c then message_escape ∷ c ∷ [] else c ∷ []

pub escape_char-plain : (c : ℕ) → need_escape c ≡ false → escape_char c ≡ c ∷ []
unfolding escape_char
escape_char-plain c e = rw e

pub escape_char-marked : (c : ℕ) → need_escape c ≡ true → escape_char c ≡ message_escape ∷ c ∷ []
unfolding escape_char
escape_char-marked c e = rw e

pub length-escape_char : (c : ℕ) → 0 < length (escape_char c)
unfolding escape_char
length-escape_char c = ground arith

unfoldable pub escape : List ℕ → List ℕ
unfolding escape_char
escape [] = []
escape (c ∷ cs) = escape_char c ++ escape cs

pub escape-append : (xs ys : List ℕ) → escape (xs ++ ys) ≡ escape xs ++ escape ys
unfolding escape
escape-append [] ys = refl
escape-append (x ∷ xs) ys = elim (Bool-cases (need_escape x)) [
  | inl e ↦ rw e (ap (λ r. message_escape ∷ x ∷ r) (escape-append xs ys))
  | inr e ↦ rw e (ap (λ r. x ∷ r) (escape-append xs ys))
]

-- What `message_length` counts is the length of the stuffed text.
pub counted_length_lem : (xs : List ℕ) → counted_length xs ≡ length (escape xs)
unfolding counted_length escape
counted_length_lem [] = refl
counted_length_lem (x ∷ xs) = ground (arith, counted_length_lem xs)

pub length-escape-le : (xs : List ℕ) → length (escape xs) ≤ length xs + length xs
unfolding escape
length-escape-le [] = omega arith
length-escape-le (x ∷ xs) = ground (arith, length-escape-le xs)

pub length-le-escape : (xs : List ℕ) → length xs ≤ length (escape xs)
unfolding escape
length-le-escape [] = omega arith
length-le-escape (x ∷ xs) = ground (arith, length-le-escape xs)
