-- ===== src/Editor/Shape.antt =====
-- lab17/lab17.c: the cursor and the array of characters go together.
use os_unixvr4_labs.Common.{
  ℕ, zero, suc, ◌+◌, ◌-◌, ◌≤◌, ◌<◌, ◌≡◌, refl, sym, ap, subst, ◌∙◌, List, [], ◌∷◌, Bool, true,
  false, ◌==◌, set, length, length-set, arith, ltb, add_size, sub_size,
}
use os_unixvr4_labs.Editor.{
  Words, Cursor, max_columns, zeros, wp_empty, wp_full, wp_clear, wp_put, wp_add, wp_add_ar,
  put_all, wp_del, tc_clear, tc_erase, tc_werase, tc_kill, tc_nl, tc_bel, tc_echo, wp_pop_word,
  wp_get_word, word_length, copy, backspace,
}
use native.Mathlib.Decide.{ℕ_discrete}
use os_unixvr4_labs.Editor.Word.{wp_pop_word-typed}

-- The array has its 40 places, and the cursor stands behind the characters that are in it.
pub record IsCursor (this : Cursor) : Type 0 where
  pub sized : length this.wp.line ≡ max_columns
  pub placed : this.line_pos ≡ this.wp.count
  pub fits : this.wp.count ≤ max_columns

length-zeros : (n : ℕ) → length (zeros n) ≡ n
unfolding zeros
length-zeros zero = refl
length-zeros (suc n) = ap suc (length-zeros n)

pub wp_clear-length : length wp_clear.line ≡ max_columns
unfolding wp_clear
wp_clear-length = length-zeros max_columns

pub wp_clear-count : wp_clear.count ≡ 0
unfolding wp_clear
wp_clear-count = refl

pub tc_clear-IsCursor : IsCursor tc_clear
unfolding tc_clear wp_clear
tc_clear-IsCursor = record { sized = length-zeros max_columns; placed = refl; fits = omega arith }

pub tc_clear-start : tc_clear.line_pos < max_columns
unfolding tc_clear
tc_clear-start = omega arith

-- Adding characters that there is room for.
pub put_all-length :
    (this : Words) (s : List ℕ)
    → length this.line ≡ max_columns
    → this.count + length s ≤ max_columns
    → (length (put_all this s).line ≡ max_columns)
      × ((put_all this s).count ≡ this.count + length s)
unfolding put_all wp_put
put_all-length this [] h k = (h, omega arith)
put_all-length this (c ∷ s) h k =
    let (a, b) =
      put_all-length (wp_put this c) s (length-set this.line this.count c ∙ h) (omega arith) in
    (a, omega (arith, b))

pub wp_add_ar_lem :
    (s : List ℕ) → length s ≤ max_columns → wp_add_ar wp_clear s ≡ put_all wp_clear s
unfolding wp_add_ar
wp_add_ar_lem s h =
    let e : ltb max_columns (add_size (length s) wp_clear.count) ≡ false =
      ground (arith, wp_clear-count) in
    rw e refl

pub length-copy : (n : ℕ) (line : List ℕ) (i : ℕ) → length (copy n line i) ≡ n
unfolding copy
length-copy zero line i = refl
length-copy (suc n) line i = ap suc (length-copy n line (suc i))

pub tc_echo_lem :
    (this : Cursor) (c : ℕ)
    → IsCursor this
    → this.line_pos < max_columns
    → tc_echo this c ≡ (
      record {
        line_pos = suc this.line_pos;
        wp = record { line = set this.wp.line this.wp.count c; count = suc this.wp.count };
      },
      c ∷ [],
    )
unfolding tc_echo wp_add wp_full wp_put
tc_echo_lem this c v h =
    let not_full : (this.wp.count == max_columns) ≡ false = ground (arith, v.placed) in
    let a : add_size this.line_pos 1 ≡ suc this.line_pos = omega arith in
    let b : add_size this.wp.count 1 ≡ suc this.wp.count = omega (arith, v.placed) in
    rw (not_full, a, b) refl

pub tc_echo-IsCursor :
    (this : Cursor) (c : ℕ)
    → IsCursor this
    → this.line_pos < max_columns
    → IsCursor (tc_echo this c).0
tc_echo-IsCursor this c v h =
    subst (λ z. IsCursor z.0) (sym (tc_echo_lem this c v h))
      (record {
        sized = length-set this.wp.line this.wp.count c ∙ v.sized;
        placed = ap suc v.placed;
        fits = omega (arith, v.placed);
      })

-- The cursor one place to the left.
abbrev pub step_back : Cursor → Cursor
step_back this = record {
  line_pos = this.line_pos - 1;
  wp = record this.wp { count = this.wp.count - 1 };
}

pub tc_erase_lem :
    (this : Cursor)
    → IsCursor this
    → 0 < this.line_pos
    → tc_erase this ≡ (step_back this, backspace 1)
unfolding tc_erase wp_del wp_empty
tc_erase_lem this v h =
    let e : (this.line_pos == 0) ≡ false = ground arith in
    let f : (this.wp.count == 0) ≡ false = ground (arith, v.placed) in
    let a : sub_size this.line_pos 1 ≡ this.line_pos - 1 = omega (arith, v.placed, v.fits) in
    let b : sub_size this.wp.count 1 ≡ this.wp.count - 1 = omega (arith, v.placed, v.fits) in
    rw (e, f, a, b) refl

pub tc_erase-start : (this : Cursor) → this.line_pos ≡ 0 → tc_erase this ≡ (this, [])
unfolding tc_erase
tc_erase-start this h = let e : (this.line_pos == 0) ≡ true = ground arith in rw e refl

pub tc_erase-IsCursor : (this : Cursor) → IsCursor this → IsCursor (tc_erase this).0
tc_erase-IsCursor this v = elim (ℕ_discrete this.line_pos 0) [
  | yes z ↦ subst (λ z. IsCursor z.0) (sym (tc_erase-start this z)) v
  | no z ↦
      subst (λ z. IsCursor z.0) (sym (tc_erase_lem this v (omega arith)))
        (record {
          sized = v.sized;
          placed = ap (λ n. n - 1) v.placed;
          fits = omega (arith, v.fits);
        })
]

pub tc_kill-IsCursor : (this : Cursor) → IsCursor (tc_kill this).0
unfolding tc_kill
tc_kill-IsCursor this = tc_clear-IsCursor

pub tc_nl-IsCursor : (this : Cursor) → IsCursor (tc_nl this).0
unfolding tc_nl
tc_nl-IsCursor this = tc_clear-IsCursor

pub tc_bel-IsCursor : (this : Cursor) → IsCursor this → IsCursor (tc_bel this).0
unfolding tc_bel
tc_bel-IsCursor this v = v

module _ (is_space : ℕ → Bool) where
  pub word_length-le : (n : ℕ) (line : List ℕ) (i : ℕ) → word_length is_space n line i ≤ n
  unfolding word_length
  word_length-le zero line i = omega arith
  word_length-le (suc n) line i = ground (arith, word_length-le n line (suc i))

  pub tc_werase_lem :
      (this : Cursor)
      → IsCursor this
      → 0 < this.line_pos
      → tc_werase is_space this ≡ (
        record {
          line_pos = (wp_pop_word is_space this.wp).0.count;
          wp = (wp_pop_word is_space this.wp).0;
        },
        backspace (this.line_pos - (wp_pop_word is_space this.wp).0.count),
      )
  unfolding tc_werase wp_empty
  tc_werase_lem this v h =
      let (t, l, p, b) = wp_pop_word-typed is_space this.wp in
      let e : (this.wp.count == 0) ≡ false = ground (arith, v.placed) in
      let a : sub_size this.line_pos (wp_pop_word is_space this.wp).1
          ≡ this.line_pos - (wp_pop_word is_space this.wp).0.count =
        omega (arith, v.placed, v.fits, p, b) in
      rw (e, a, p) refl

  pub tc_werase-start :
      (this : Cursor) → IsCursor this → this.line_pos ≡ 0 → tc_werase is_space this ≡ (this, [])
  unfolding tc_werase wp_empty
  tc_werase-start this v h =
      let e : (this.wp.count == 0) ≡ true = ground (arith, v.placed) in rw e refl

  pub tc_werase-IsCursor : (this : Cursor) → IsCursor this → IsCursor (tc_werase is_space this).0
  tc_werase-IsCursor this v = elim (ℕ_discrete this.line_pos 0) [
    | yes z ↦ subst (λ z. IsCursor z.0) (sym (tc_werase-start this v z)) v
    | no z ↦
        let (t, l, p, b) = wp_pop_word-typed is_space this.wp in
        subst (λ z. IsCursor z.0) (sym (tc_werase_lem this v (omega arith)))
          (record { sized = ap length l ∙ v.sized; placed = refl; fits = omega (arith, v.fits, b) })
  ]

  pub wp_get_word-short : (this : Words) → length (wp_get_word is_space this) ≤ max_columns
  unfolding wp_get_word
  wp_get_word-short this = omega (
    arith,
    length-copy
        (word_length is_space (max_columns - (wp_pop_word is_space this).1) this.line
          (wp_pop_word is_space this).1)
        this.line (wp_pop_word is_space this).1,
    word_length-le (max_columns - (wp_pop_word is_space this).1) this.line
        (wp_pop_word is_space this).1,
  )
