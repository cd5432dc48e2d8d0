-- ===== src/Editor/Steps.antt =====
-- lab17/lab17.c: what a typed character does, by cases, and the state in a whole session.
use os_unixvr4_labs.Common.{
  ℕ, ◌≤◌, ◌<◌, ◌≡◌, ◌≢◌, refl, sym, ap, subst, List, [], ◌∷◌, ◌++◌, Bool, true, false, not, ◌&&◌,
  ◌==◌, if◌then◌else◌, Bool-cases, if_elim, inl, inr, ◌⊎◌, length, mod-eq_of_lt, ◌%◌, arith, Option,
  none, some,
}
use os_unixvr4_labs.Editor.{
  Cursor, Keys, max_columns, wp_clear, put_all, tc_clear, tc_erase, tc_werase, tc_kill, tc_eol,
  tc_nl, tc_bel, tc_echo, tc_carry, and_then, wp_get_word, is_printable, word_at, tc_print,
  type_char, type_all, newline, backspace,
}
use os_unixvr4_labs.Editor.Shape.{
  IsCursor, wp_clear-length, wp_clear-count, wp_add_ar_lem, tc_clear-IsCursor, tc_clear-start,
  put_all-length, tc_echo-IsCursor, tc_erase-IsCursor, tc_kill-IsCursor, tc_nl-IsCursor,
  tc_bel-IsCursor, tc_werase-IsCursor, wp_get_word-short,
}

and_then-IsCursor :
    (step : Cursor × List ℕ) (c : ℕ)
    → IsCursor step.0
    → step.0.line_pos < max_columns
    → IsCursor (and_then step (λ t. tc_echo t c)).0
unfolding and_then
and_then-IsCursor (this, out) c v h = tc_echo-IsCursor this c v h

module _ (is_space : ℕ → Bool) where
  -- The state behind a carried word.
  abbrev pub carried : List ℕ → Cursor
  carried word = record { line_pos = length word; wp = put_all wp_clear word }

  carried-IsCursor : (word : List ℕ) → length word ≤ max_columns → IsCursor (carried word)
  carried-IsCursor word h =
      let v = tc_clear-IsCursor in
      let (a, b) =
        put_all-length wp_clear word wp_clear-length (omega (arith, h, wp_clear-count)) in
      record {
        sized = a;
        placed = omega (arith, b, wp_clear-count);
        fits = omega (arith, b, h, wp_clear-count);
      }

  pub tc_carry_lem :
      (this : Cursor)
      → ((length (wp_get_word is_space this.wp) ≡ max_columns)
          × (tc_carry is_space this ≡ (tc_clear, newline ∷ [])))
        ⊎ ((length (wp_get_word is_space this.wp) < max_columns)
            × (tc_carry is_space this ≡ (
              carried (wp_get_word is_space this.wp),
              backspace (length (wp_get_word is_space this.wp))
                  ++ newline ∷ wp_get_word is_space this.wp,
            )))
  unfolding tc_carry
  tc_carry_lem this = elim (Bool-cases (length (wp_get_word is_space this.wp) == max_columns)) [
    | inl e ↦ inl (ground arith, rw e refl)
    | inr e ↦
        let short = wp_get_word-short is_space this.wp in
        inr (ground arith, rw (e, wp_add_ar_lem (wp_get_word is_space this.wp) short) refl)
  ]

  pub tc_carry-IsCursor :
      (this : Cursor)
      → IsCursor (tc_carry is_space this).0 × ((tc_carry is_space this).0.line_pos < max_columns)
  tc_carry-IsCursor this = elim (tc_carry_lem this) [
    | inl (h, e) ↦
        subst (λ z. IsCursor z.0 × (z.0.line_pos < max_columns)) (sym e)
          (tc_clear-IsCursor, tc_clear-start)
    | inr (h, e) ↦
        subst (λ z. IsCursor z.0 × (z.0.line_pos < max_columns)) (sym e)
          (carried-IsCursor (wp_get_word is_space this.wp) (omega arith), h)
  ]

  module _ (is_graph : ℕ → Bool) (past : ℕ) where
    abbrev Visible : ℕ → Type 0
    Visible c = (is_printable is_space is_graph c ≡ true) × (c ≢ newline)

    tc_eol_lem : (this : Cursor) → IsCursor this → tc_eol this ≡ (this.line_pos == max_columns)
    unfolding tc_eol
    tc_eol_lem this v = ground (arith, v.placed, v.fits, full, small)
      where
        small : this.line_pos < max_columns → this.line_pos % max_columns ≡ this.line_pos
        small h = mod-eq_of_lt h

        full : this.line_pos ≡ max_columns → this.line_pos % max_columns ≡ 0
        full e = ap (λ z. z % max_columns) e

    -- What a typed character does, by cases: a property of the state and the output holds behind
    -- it when it holds behind each operation that `main` may run.
    pub type_char-cases :
        (P : Cursor × List ℕ → Type 0) (keys : Keys) (this : Cursor) (c : ℕ)
        → IsCursor this
        → P (tc_erase this)
        → P (tc_werase is_space this)
        → P (tc_kill this)
        → P (tc_bel this)
        → P (tc_nl this)
        → (Visible c → this.line_pos < max_columns → P (tc_echo this c))
        → (Visible c
            → is_space c ≡ false
            → this.line_pos ≡ max_columns
            → P (and_then (tc_carry is_space this) (λ t. tc_echo t c)))
        → P (type_char is_space is_graph past keys this c)
    unfolding type_char tc_print
    type_char-cases P keys this c v erase werase kill bel nl echo carry =
        if_elim P (c == keys.verase) _ _ (λ e. erase)
          (λ e.
            if_elim P (c == keys.vwerase) _ _ (λ e. werase)
              (λ e.
                if_elim P (c == keys.vkill) _ _ (λ e. kill)
                  (λ e. if_elim P (is_printable is_space is_graph c) _ _ print (λ e. bel))))
      where
        at_end :
            Visible c
            → this.line_pos ≡ max_columns
            → P (
                if not (is_space c) && not (is_space (word_at past this.wp this.line_pos))
                then and_then (tc_carry is_space this) (λ t. tc_echo t c)
                else tc_nl this)
        at_end seen full =
            if_elim P (not (is_space c) && not (is_space (word_at past this.wp this.line_pos))) _ _
              (λ e. carry seen (ground arith) full) (λ e. nl)

        print : is_printable is_space is_graph c ≡ true → P (tc_print is_space is_graph past this c)
        print e =
            if_elim P (not (is_printable is_space is_graph c)) _ _ (λ f. absurd (ground arith))
              (λ f.
                if_elim P (c == newline) _ _ (λ g. nl)
                  (λ g.
                    if_elim P (tc_eol this) _ _
                      (λ h. at_end (e, ground arith) (ground (arith, tc_eol_lem this v)))
                      (λ h.
                        echo (e, ground arith)
                          (ground (arith, tc_eol_lem this v, v.placed, v.fits)))))

    type_char-IsCursor :
        (keys : Keys) (this : Cursor) (c : ℕ)
        → IsCursor this
        → IsCursor (type_char is_space is_graph past keys this c).0
    type_char-IsCursor keys this c v =
        type_char-cases (λ z. IsCursor z.0) keys this c v (tc_erase-IsCursor this v)
          (tc_werase-IsCursor is_space this v) (tc_kill-IsCursor this) (tc_bel-IsCursor this v)
          (tc_nl-IsCursor this) (λ seen h. tc_echo-IsCursor this c v h)
          (λ seen s h.
            let (w, l) = tc_carry-IsCursor this in and_then-IsCursor (tc_carry is_space this) c w l)

    -- In a whole session, whatever is typed and whatever the read behind the array gives, the
    -- cursor stands behind the characters of the line, which are at most 40, the size of the array.
    pub type_all-IsCursor :
        (keys : Keys) (this : Cursor) (c : ℕ) (reads : List (Option ℕ))
        → IsCursor this
        → IsCursor (type_all is_space is_graph past keys this c reads).0
    unfolding type_all
    type_all-IsCursor keys this c [] v = v
    type_all-IsCursor keys this c (none ∷ reads) v =
        if_elim (λ (z : Cursor × List ℕ). IsCursor z.0) ((this.line_pos == 0) && (c == keys.veof)) _
          _ (λ e. v)
          (λ e.
            type_all-IsCursor keys (type_char is_space is_graph past keys this c).0 c reads
              (type_char-IsCursor keys this c v))
    type_all-IsCursor keys this c (some d ∷ reads) v =
        if_elim (λ (z : Cursor × List ℕ). IsCursor z.0) ((this.line_pos == 0) && (d == keys.veof)) _
          _ (λ e. v)
          (λ e.
            type_all-IsCursor keys (type_char is_space is_graph past keys this d).0 d reads
              (type_char-IsCursor keys this d v))
