-- ===== src/Editor/Session.antt =====
-- lab17/lab17.c: the terminal behind each operation of the editor, and behind a session.
use os_unixvr4_labs.Common.{
  ℕ, zero, suc, ◌+◌, ◌-◌, ◌≤◌, ◌<◌, ◌≡◌, ◌≢◌, refl, sym, ap, ap₂, subst, ◌∙◌, List, [], ◌∷◌, ◌++◌,
  Bool, true, ◌&&◌, ◌==◌, if_elim, inl, inr, ◌⊎◌, set, get_or, length, arith, Option, none, some,
}
use native.Mathlib.Decide.{ℕ_discrete}
use os_unixvr4_labs.Editor.{
  Words, Cursor, Keys, max_columns, backspace, newline, put_all, wp_put, copy, tc_clear, wp_clear,
  tc_erase, tc_werase, tc_kill, tc_nl, tc_bel, tc_echo, tc_carry, and_then, type_char, type_all,
  edit, wp_pop_word, wp_get_word, word_length, is_printable,
}
use os_unixvr4_labs.Editor.Word.{typed, wp_pop_word-typed}
use os_unixvr4_labs.Editor.Shape.{
  tc_clear-IsCursor, tc_echo_lem, tc_erase_lem, tc_erase-start, tc_werase_lem, tc_werase-start,
  word_length-le,
}
use os_unixvr4_labs.Editor.Steps.{tc_carry_lem, tc_carry-IsCursor, carried, type_char-cases}
use os_unixvr4_labs.Editor.Screen.{
  Terminal, rev_append, show, show_all, Seen, show_all-append, show-newline, show-bell,
}
use os_unixvr4_labs.Editor.Display.{Shows, Shows-start, Shows-left, Shows-put, echoed}

-- Lists of characters that a terminal shows.
AllSeen : List ℕ → Type 0
AllSeen [] = Unit
AllSeen (c ∷ cs) = Seen c × AllSeen cs

copy-AllSeen :
    (n : ℕ) (line : List ℕ) (k : ℕ)
    → ((i : ℕ) → i < k + n → Seen (get_or line i 0))
    → AllSeen (copy n line k)
unfolding copy AllSeen
copy-AllSeen zero line k h = _
copy-AllSeen (suc n) line k h =
    (h k (omega arith), copy-AllSeen n line (suc k) (λ i l. h i (omega (arith, l))))

Shows-word :
    (this : Cursor) (t : Terminal) (word : List ℕ)
    → Shows this t
    → AllSeen word
    → this.line_pos + length word ≤ max_columns
    → Shows
        (record { line_pos = this.line_pos + length word; wp = put_all this.wp word })
        (show_all t word)
unfolding AllSeen put_all show_all wp_put
Shows-word this t [] s v h =
    subst (λ z. Shows (record { line_pos = z; wp = this.wp }) t) (omega arith) s
Shows-word this t (c ∷ cs) s v h =
    let (v1, v2) = v in
    let rest =
      Shows-word (echoed this c) (show t c) cs (Shows-put this t c s v1 (omega arith)) v2
        (omega arith) in
    subst
      (λ (z : ℕ × ℕ).
        Shows
          (record {
            line_pos = z.0;
            wp = put_all (record { line = set this.wp.line this.wp.count c; count = z.1 }) cs;
          })
          (show_all (show t c) cs))
      (ap₂ (λ a b. (a, b)) (omega arith) (omega (arith, s.cursor.placed))) rest

-- An operation keeps the terminal in step.
Keeps : Terminal → Cursor × List ℕ → Type 0
Keeps t step = Shows step.0 (show_all t step.1)

Shows-silent : (this : Cursor) (t : Terminal) → Shows this t → Keeps t (this, [])
unfolding Keeps show_all
Shows-silent this t s = s

shows-then :
    (t : Terminal) (step rest : Cursor × List ℕ)
    → Keeps (show_all t step.1) rest
    → Keeps t (rest.0, step.1 ++ rest.1)
unfolding Keeps
shows-then t step rest k = subst (Shows rest.0) (sym (show_all-append t step.1 rest.1)) k

Shows-and_then :
    (t : Terminal) (step : Cursor × List ℕ) (f : Cursor → Cursor × List ℕ)
    → Keeps t step
    → ((t' : Terminal) → Shows step.0 t' → Keeps t' (f step.0))
    → Keeps t (and_then step f)
unfolding Keeps and_then
Shows-and_then t step f k h =
    subst (Shows (f step.0).0) (sym (show_all-append t step.1 (f step.0).1))
      (h (show_all t step.1) k)

Shows-echo :
    (this : Cursor) (t : Terminal) (c : ℕ)
    → Shows this t
    → Seen c
    → this.line_pos < max_columns
    → Keeps t (tc_echo this c)
unfolding Keeps show_all
Shows-echo this t c s v h =
    subst (λ z. Shows z.0 (show_all t z.1)) (sym (tc_echo_lem this c s.cursor h))
      (Shows-put this t c s v h)

Shows-erase : (this : Cursor) (t : Terminal) → Shows this t → Keeps t (tc_erase this)
unfolding Keeps show_all
Shows-erase this t s = elim (ℕ_discrete this.line_pos 0) [
  | yes z ↦ subst (λ z. Shows z.0 (show_all t z.1)) (sym (tc_erase-start this z)) s
  | no z ↦
      subst (λ z. Shows z.0 (show_all t z.1)) (sym (tc_erase_lem this s.cursor (omega arith)))
        (subst
          (λ (n : ℕ × ℕ).
            Shows
              (record {
                line_pos = this.line_pos - 1;
                wp = record { line = this.wp.line; count = n.0 };
              })
              (show_all t (backspace n.1)))
          (ap₂ (λ a b. (a, b)) (ap (λ n. n - 1) s.cursor.placed) (omega arith))
          (Shows-left this t (this.line_pos - 1) this.wp.line s (omega arith) refl))
]

-- An empty line is a cleared one.
Shows-empty : (this : Cursor) (t : Terminal) → Shows this t → this.wp.count ≡ 0 → Shows tc_clear t
unfolding tc_clear wp_clear typed
Shows-empty this t s e = record {
  cursor = tc_clear-IsCursor;
  row = s.row ∙ ap (typed this.wp.line) e;
  blank = s.blank;
  seen = λ i h. absurd (omega arith);
}

Shows-newline : (this : Cursor) (t : Terminal) → Shows this t → Shows tc_clear (show t newline)
Shows-newline this t s =
    subst (Shows tc_clear) (sym (show-newline t)) (Shows-start (rev_append t.left t.right ∷ t.rows))

Shows-kill : (this : Cursor) (t : Terminal) → Shows this t → Keeps t (tc_kill this)
unfolding Keeps tc_kill
Shows-kill this t s =
    subst (λ n. Shows tc_clear (show_all t (backspace n))) (omega arith)
      (Shows-empty _ _ (Shows-left this t 0 this.wp.line s (omega arith) refl) refl)

Shows-nl : (this : Cursor) (t : Terminal) → Shows this t → Keeps t (tc_nl this)
unfolding Keeps tc_nl show_all
Shows-nl this t s = Shows-newline this t s

Shows-bel : (this : Cursor) (t : Terminal) → Shows this t → Keeps t (tc_bel this)
unfolding Keeps tc_bel show_all
Shows-bel this t s = subst (Shows this) (sym (show-bell t)) s

tc_clear_lem : tc_clear ≡ record { line_pos = 0; wp = wp_clear }
unfolding tc_clear
tc_clear_lem = refl

Shows-row :
    (this : Cursor) (t : Terminal) (word : List ℕ)
    → Shows this t
    → AllSeen word
    → length word ≤ max_columns
    → Shows
        (record { line_pos = length word; wp = put_all wp_clear word })
        (show_all t (newline ∷ word))
unfolding show_all
Shows-row this t word s v h =
    subst
      (λ n.
        Shows (record { line_pos = n; wp = put_all wp_clear word })
          (show_all (show t newline) word))
      (omega arith)
      (Shows-word (record { line_pos = 0; wp = wp_clear }) (show t newline) word
        (subst (λ z. Shows z (show t newline)) tc_clear_lem (Shows-newline this t s)) v
        (omega arith))

-- Characters that are no tab, form feed or carriage return: those advance the cursor of a
-- terminal by other than one place.
abbrev pub NoTab : ℕ → Type 0
NoTab c = (c < 9) ⊎ ((c ≡ newline) ⊎ (13 < c))

unfoldable pub NoTabs : List (Option ℕ) → Type 0
NoTabs [] = Unit
NoTabs (none ∷ reads) = NoTabs reads
NoTabs (some c ∷ reads) = NoTab c × NoTabs reads

module _ (is_space : ℕ → Bool) where
  Shows-werase : (this : Cursor) (t : Terminal) → Shows this t → Keeps t (tc_werase is_space this)
  unfolding Keeps show_all
  Shows-werase this t s = elim (ℕ_discrete this.line_pos 0) [
    | yes z ↦
        subst (λ z. Shows z.0 (show_all t z.1)) (sym (tc_werase-start is_space this s.cursor z)) s
    | no z ↦
        let (p, l, q, b) = wp_pop_word-typed is_space this.wp in
        subst (λ z. Shows z.0 (show_all t z.1))
          (sym (tc_werase_lem is_space this s.cursor (omega arith)))
          (Shows-left this t (wp_pop_word is_space this.wp).0.count
            (wp_pop_word is_space this.wp).0.line s (omega (arith, b, s.cursor.placed)) l)
  ]

  word-AllSeen :
      (this : Words)
      → this.count ≤ max_columns
      → ((i : ℕ) → i < max_columns → Seen (get_or this.line i 0))
      → AllSeen (wp_get_word is_space this)
  unfolding wp_get_word
  word-AllSeen this h seen =
      let (p, l, q, b) = wp_pop_word-typed is_space this in
      let short =
        word_length-le is_space (max_columns - (wp_pop_word is_space this).1) this.line
          (wp_pop_word is_space this).1 in
      copy-AllSeen
        (word_length is_space (max_columns - (wp_pop_word is_space this).1) this.line
          (wp_pop_word is_space this).1)
        this.line (wp_pop_word is_space this).1 (λ i l. seen i (omega (arith, q, b, short)))

  Shows-carry :
      (this : Cursor) (t : Terminal)
      → Shows this t
      → this.line_pos ≡ max_columns
      → Keeps t (tc_carry is_space this)
  unfolding Keeps show_all
  Shows-carry this t s full = elim (tc_carry_lem is_space this) [
    | inl (h, e) ↦ subst (λ z. Shows z.0 (show_all t z.1)) (sym e) (Shows-newline this t s)
    | inr (h, e) ↦
        subst (λ z. Shows z.0 (show_all t z.1)) (sym e)
          (behind (wp_get_word is_space this.wp) (omega arith)
            (word-AllSeen this.wp s.cursor.fits (λ i l. s.seen i (omega (arith, s.cursor.placed)))))
  ]
    where
      behind :
          (word : List ℕ)
          → length word ≤ max_columns
          → AllSeen word
          → Shows (carried is_space word) (show_all t (backspace (length word) ++ newline ∷ word))
      behind word short seen =
          let erased : Shows _ (show_all t (backspace (length word))) =
            subst
              (λ n.
                Shows
                  (record {
                    line_pos = this.line_pos - length word;
                    wp = record { line = this.wp.line; count = this.line_pos - length word };
                  })
                  (show_all t (backspace n)))
              (omega arith)
              (Shows-left this t (this.line_pos - length word) this.wp.line s (omega arith) refl) in
          subst (Shows (carried is_space word))
            (sym (show_all-append t (backspace (length word)) (newline ∷ word)))
            (Shows-row _ (show_all t (backspace (length word))) word erased seen short)

  module _ (is_graph : ℕ → Bool) where
    -- isgraph(3) and isspace(3) in the C locale.
    pub record IsAscii : Type 0 where
      pub graphs : (c : ℕ) → is_graph c ≡ true → (32 < c) × (c < 127)
      pub spaces : (c : ℕ) → is_space c ≡ true → (c ≡ 32) ⊎ ((9 ≤ c) × (c < 14))

    visible :
        (c : ℕ) → IsAscii → NoTab c → is_printable is_space is_graph c ≡ true → c ≢ newline → Seen c
    unfolding is_printable
    visible c ascii n p h = ground (arith, ascii.graphs c, ascii.spaces c)

  module _ (is_graph : ℕ → Bool) (past : ℕ) where
    Shows-char :
        (keys : Keys) (this : Cursor) (t : Terminal) (c : ℕ)
        → IsAscii is_graph
        → NoTab c
        → Shows this t
        → Keeps t (type_char is_space is_graph past keys this c)
    Shows-char keys this t c ascii no_tab s =
        type_char-cases is_space is_graph past (Keeps t) keys this c s.cursor (Shows-erase this t s)
          (Shows-werase this t s) (Shows-kill this t s) (Shows-bel this t s) (Shows-nl this t s)
          (λ v h. Shows-echo this t c s (visible is_graph c ascii no_tab v.0 v.1) h)
          (λ v e full.
            let (w, l) = tc_carry-IsCursor is_space this in
            Shows-and_then t (tc_carry is_space this) (λ z. tc_echo z c) (Shows-carry this t s full)
              (λ t' s'.
                Shows-echo (tc_carry is_space this).0 t' c s'
                  (visible is_graph c ascii no_tab v.0 v.1) l))

    -- Along the loop of `main` the terminal stays in step.
    type_all-Shows :
        (keys : Keys) (this : Cursor) (t : Terminal) (c : ℕ) (reads : List (Option ℕ))
        → IsAscii is_graph
        → NoTab c
        → NoTabs reads
        → Shows this t
        → Shows
            (type_all is_space is_graph past keys this c reads).0
            (show_all t (type_all is_space is_graph past keys this c reads).1)
    unfolding type_all NoTabs Keeps
    type_all-Shows keys this t c [] ascii n ns s = Shows-silent this t s
    type_all-Shows keys this t c (none ∷ reads) ascii n ns s =
        if_elim (Keeps t) ((this.line_pos == 0) && (c == keys.veof)) _ _
          (λ e. Shows-silent this t s)
          (λ e. shows-then t (type_char is_space is_graph past keys this c) _ (
            type_all-Shows keys (type_char is_space is_graph past keys this c).0
              (show_all t (type_char is_space is_graph past keys this c).1) c reads ascii n ns
              (Shows-char keys this t c ascii n s)))
    type_all-Shows keys this t c (some d ∷ reads) ascii n ns s =
        if_elim (Keeps t) ((this.line_pos == 0) && (d == keys.veof)) _ _
          (λ e. Shows-silent this t s)
          (λ e. shows-then t (type_char is_space is_graph past keys this d) _ (
            type_all-Shows keys (type_char is_space is_graph past keys this d).0
              (show_all t (type_char is_space is_graph past keys this d).1) d reads ascii ns.0 ns.1
              (Shows-char keys this t d ascii ns.0 s)))

    -- Between terminals the editor comes to an end of its input, and then the row of the terminal
    -- is, up to the cursor, the line that the editor keeps, with nothing but spaces behind it,
    -- however characters were typed, erased, erased by words, or carried to a new row, and
    -- whatever the read behind the array gives. It starts on an empty row, and no tab, form feed
    -- or carriage return is typed.
    pub edit-Shows :
        (keys : Keys) (c : ℕ) (reads : List (Option ℕ)) (rows : List (List ℕ))
        → IsAscii is_graph
        → NoTab c
        → NoTabs reads
        → (end : Cursor × List ℕ) × (edit is_space is_graph past true true keys c reads ≡ some end)
          × Shows end.0 (show_all (record { rows = rows; left = []; right = [] }) end.1)
    unfolding edit
    edit-Shows keys c reads rows ascii n ns = (
      type_all is_space is_graph past keys tc_clear c reads,
      refl,
      type_all-Shows keys tc_clear (record { rows = rows; left = []; right = [] }) c reads ascii n
          ns (Shows-start rows),
    )
