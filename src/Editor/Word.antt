-- ===== src/Editor/Word.antt =====
-- lab17/lab17.c: the last word of the line.
use os_unixvr4_labs.Common.{
  ℕ, zero, suc, ◌≤◌, ◌≡◌, refl, List, [], ◌∷◌, Bool, true, false, not, if◌then◌else◌, Bool-cases,
  inl, inr, get_or, arith, ◌==◌,
}
use os_unixvr4_labs.Editor.{Words, wp_empty, pop_from, wp_pop_word}

-- The first `n` cells, the last one first.
unfoldable pub typed : List ℕ → ℕ → List ℕ
typed line zero = []
typed line (suc n) = get_or line n 0 ∷ typed line n

-- What is behind the elements at the front that pass a test.
pub skip_while : (ℕ → Bool) → List ℕ → List ℕ
skip_while test [] = []
skip_while test (c ∷ cs) = if test c then skip_while test cs else c ∷ cs

-- A line, its end first, without its last word and the spaces behind it.
abbrev pub without_word : (ℕ → Bool) → List ℕ → List ℕ
without_word is_space cs = skip_while (λ c. not (is_space c)) (skip_while is_space cs)

module _ (is_space : ℕ → Bool) where
  pub pop_from-le : (line : List ℕ) (found : Bool) (n : ℕ) → pop_from is_space line found n ≤ n
  unfolding pop_from
  pop_from-le line found zero = omega arith
  pop_from-le line found (suc n) = ground (arith, pop_from-le line found n, pop_from-le line true n)

  pop_from-found :
      (line : List ℕ) (n : ℕ)
      → typed line (pop_from is_space line true n)
        ≡ skip_while (λ c. not (is_space c)) (typed line n)
  unfolding pop_from typed skip_while
  pop_from-found line zero = refl
  pop_from-found line (suc n) = elim (Bool-cases (is_space (get_or line n 0))) [
    | inl e ↦ rw e refl
    | inr e ↦ rw e (pop_from-found line n)
  ]

  pop_from-typed :
      (line : List ℕ) (n : ℕ)
      → typed line (pop_from is_space line false n) ≡ without_word is_space (typed line n)
  unfolding pop_from typed skip_while
  pop_from-typed line zero = refl
  pop_from-typed line (suc n) = elim (Bool-cases (is_space (get_or line n 0))) [
    | inl e ↦ rw e (pop_from-typed line n)
    | inr e ↦ rw (e, e) (pop_from-found line n)
  ]

  -- `wp_pop_word` takes off the line exactly its last word and the spaces behind it, leaves the
  -- array alone, and returns the new length, which is not larger than the old one.
  pub wp_pop_word-typed :
      (this : Words)
      → (typed this.line (wp_pop_word is_space this).0.count
          ≡ without_word is_space (typed this.line this.count))
        × ((wp_pop_word is_space this).0.line ≡ this.line)
        × ((wp_pop_word is_space this).1 ≡ (wp_pop_word is_space this).0.count)
        × ((wp_pop_word is_space this).0.count ≤ this.count)
  unfolding wp_pop_word wp_empty typed skip_while pop_from
  wp_pop_word-typed this = elim (Bool-cases (this.count == 0)) [
    | inl e ↦
        let z : this.count ≡ 0 = ground arith in rw (e, z) (refl, refl, refl, omega (arith, z))
    | inr e ↦
        rw e
          (pop_from-typed this.line this.count, refl, refl, pop_from-le this.line false this.count)
  ]
