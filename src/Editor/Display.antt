-- ===== src/Editor/Display.antt =====
-- lab17/lab17.c: the row that the terminal shows is the line that the editor keeps.
use os_unixvr4_labs.Common.{
  ℕ, zero, suc, ◌+◌, ◌-◌, ◌≤◌, ◌<◌, ◌≡◌, refl, sym, ap, ap₂, subst, ◌∙◌, List, [], ◌∷◌, set, get_or,
  length, arith, drop, get_or-set_self, get_or-set_ne, length-set,
}
use native.Mathlib.Decide.{ℕ_discrete}
use os_unixvr4_labs.Editor.{Cursor, max_columns, backspace, tc_clear, wp_clear}
use os_unixvr4_labs.Editor.Word.{typed}
use os_unixvr4_labs.Editor.Shape.{IsCursor, tc_clear-IsCursor}
use os_unixvr4_labs.Editor.Screen.{
  Terminal, show, show_all, Blank, Seen, show-Seen, show_all-backspace, Blank-blanks, Blank-drop,
}

typed-set : (line : List ℕ) (n i c : ℕ) → n ≤ i → typed (set line i c) n ≡ typed line n
unfolding typed
typed-set line zero i c h = refl
typed-set line (suc n) i c h =
    ap₂ ◌∷◌ (get_or-set_ne line i n c 0 (λ e. absurd (omega arith)))
      (typed-set line n i c (omega arith))

length-typed : (line : List ℕ) (n : ℕ) → length (typed line n) ≡ n
unfolding typed
length-typed line zero = refl
length-typed line (suc n) = ap suc (length-typed line n)

drop-typed : (line : List ℕ) (j n k : ℕ) → n ≡ j + k → drop j (typed line n) ≡ typed line k
unfolding typed
drop-typed line zero n k h = ap (typed line) (omega arith)
drop-typed line (suc j) zero k h = absurd (omega arith)
drop-typed line (suc j) (suc n) k h = drop-typed line j n k (omega arith)

typed-put :
    (line : List ℕ) (n c : ℕ) → n < length line → typed (set line n c) (suc n) ≡ c ∷ typed line n
unfolding typed
typed-put line n c h = ap₂ ◌∷◌ (get_or-set_self line n c 0 h) (typed-set line n n c (omega arith))

-- The terminal shows the line left of its cursor and nothing right of it.
pub record Shows (this : Cursor) (t : Terminal) : Type 0 where
  pub cursor : IsCursor this
  pub row : t.left ≡ typed this.wp.line this.wp.count
  pub blank : Blank t.right
  pub seen : (i : ℕ) → i < this.wp.count → Seen (get_or this.wp.line i 0)

-- A new row.
pub Shows-start :
    (rows : List (List ℕ)) → Shows tc_clear (record { rows = rows; left = []; right = [] })
unfolding tc_clear wp_clear typed Blank
Shows-start rows = record {
  cursor = tc_clear-IsCursor;
  row = refl;
  blank = _;
  seen = λ i h. absurd (omega arith);
}

pub Shows-left :
    (this : Cursor) (t : Terminal) (k : ℕ) (line : List ℕ)
    → Shows this t
    → k ≤ this.line_pos
    → line ≡ this.wp.line
    → Shows
        (record { line_pos = k; wp = record { line = line; count = k } })
        (show_all t (backspace (this.line_pos - k)))
Shows-left this t k line s h e =
    let wide : this.line_pos - k ≤ length t.left =
      omega (arith, s.cursor.placed, ap length s.row, length-typed this.wp.line this.wp.count) in
    subst (Shows (record { line_pos = k; wp = record { line = line; count = k } }))
      (sym (show_all-backspace t.rows (this.line_pos - k) t.left t.right wide))
      (record {
        cursor = record {
          sized = ap length e ∙ s.cursor.sized;
          placed = refl;
          fits = omega (arith, s.cursor.placed, s.cursor.fits);
        };
        row =
            ap (drop (this.line_pos - k)) s.row
            ∙ drop-typed this.wp.line (this.line_pos - k) this.wp.count k
                (omega (arith, s.cursor.placed))
            ∙ ap (λ l. typed l k) (sym e);
        blank = Blank-blanks (this.line_pos - k) t.right s.blank;
        seen = λ i l.
            subst (λ z. Seen (get_or z i 0)) (sym e) (s.seen i (omega (arith, s.cursor.placed)));
      })

-- The state behind a character that there is room for.
abbrev pub echoed : Cursor → ℕ → Cursor
echoed this c = record {
  line_pos = suc this.line_pos;
  wp = record { line = set this.wp.line this.wp.count c; count = suc this.wp.count };
}

pub Shows-put :
    (this : Cursor) (t : Terminal) (c : ℕ)
    → Shows this t
    → Seen c
    → this.line_pos < max_columns
    → Shows (echoed this c) (show t c)
Shows-put this t c s v h =
    subst
      (Shows (record {
        line_pos = suc this.line_pos;
        wp = record { line = set this.wp.line this.wp.count c; count = suc this.wp.count };
      }))
      (sym (show-Seen t c v))
      (record {
        cursor = record {
          sized = length-set this.wp.line this.wp.count c ∙ s.cursor.sized;
          placed = ap suc s.cursor.placed;
          fits = omega (arith, s.cursor.placed);
        };
        row = sym (
            typed-put this.wp.line this.wp.count c (omega (arith, s.cursor.sized, s.cursor.placed))
            ∙ ap (◌∷◌ c) (sym s.row));
        blank = Blank-drop t.right s.blank;
        seen = λ i l. elim (ℕ_discrete i this.wp.count) [
          | yes e ↦
              subst Seen
                (sym (
                  ap (λ z. get_or (set this.wp.line this.wp.count c) z 0) e
                  ∙ get_or-set_self this.wp.line this.wp.count c 0
                      (omega (arith, s.cursor.sized, s.cursor.placed))))
                v
          | no e ↦
              subst Seen (sym (get_or-set_ne this.wp.line this.wp.count i c 0 (λ z. e (sym z))))
                (s.seen i (omega arith))
        ];
      })
