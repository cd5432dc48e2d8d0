-- ===== src/Editor.antt =====
-- lab17/lab17.c: the line editor for a terminal of 40 columns.
-- A character is its ASCII code. isspace(3), isgraph(3) and the control characters of termios(3)
-- are arguments. `past` is what a read of the array `line` one place behind its end gives.
-- An operation gives the new state with the bytes that it writes to the terminal.
pub mod Word
pub mod Shape
pub mod Steps
pub mod Screen
pub mod Display
pub mod Session
mod Tests
use os_unixvr4_labs.Common.{
  ℕ, zero, suc, ◌+◌, ◌-◌, ◌%◌, List, [], ◌∷◌, ◌++◌, Option, none, some, ltb, ◌==◌, Bool, true,
  false, not, ◌&&◌, ◌||◌, if◌then◌else◌, add_size, sub_size, set, get_or, length,
}

abbrev pub max_columns : ℕ
max_columns = 40

pub record Words : Type 0 where
  pub line : List ℕ
  pub count : ℕ

unfoldable pub wp_empty : Words → Bool
wp_empty this = this.count == 0

unfoldable pub wp_full : Words → Bool
wp_full this = this.count == max_columns

-- memset(3) with 0.
pub zeros : ℕ → List ℕ
zeros zero = []
zeros (suc n) = 0 ∷ zeros n

unfoldable pub wp_clear : Words
wp_clear = record { line = zeros max_columns; count = 0 }

-- `this->line[this->count++] = c`
unfoldable pub wp_put : Words → ℕ → Words
wp_put this c = record { line = set this.line this.count c; count = add_size this.count 1 }

unfoldable pub wp_add : Words → ℕ → Words
wp_add this c = if wp_full this then this else wp_put this c

unfoldable pub put_all : Words → List ℕ → Words
put_all this [] = this
put_all this (c ∷ s) = put_all (wp_put this c) s

unfoldable pub wp_add_ar : Words → List ℕ → Words
wp_add_ar this s = if ltb max_columns (add_size (length s) this.count) then this else put_all this s

unfoldable pub wp_del : Words → Words
wp_del this = if wp_empty this then this else record this { count = sub_size this.count 1 }

-- `write(STDOUT_FILENO, "\b \b", sizeof("\b \b"))`, with the byte 0 that ends the string.
abbrev pub erase_one : List ℕ
erase_one = 8 ∷ 32 ∷ 8 ∷ 0 ∷ []

unfoldable pub backspace : ℕ → List ℕ
backspace zero = []
backspace (suc n) = erase_one ++ backspace n

abbrev pub newline : ℕ
newline = 10

pub record Cursor : Type 0 where
  pub line_pos : ℕ
  pub wp : Words

unfoldable pub tc_clear : Cursor
tc_clear = record { line_pos = 0; wp = wp_clear }

unfoldable pub tc_erase : Cursor → Cursor × List ℕ
tc_erase this =
    if this.line_pos == 0
    then (this, [])
    else (record { line_pos = sub_size this.line_pos 1; wp = wp_del this.wp }, backspace 1)

unfoldable pub tc_kill : Cursor → Cursor × List ℕ
tc_kill this = (tc_clear, backspace this.line_pos)

unfoldable pub tc_eol : Cursor → Bool
tc_eol this = not (this.line_pos == 0) && ((this.line_pos % max_columns) == 0)

unfoldable pub tc_nl : Cursor → Cursor × List ℕ
tc_nl this = (tc_clear, newline ∷ [])

unfoldable pub tc_bel : Cursor → Cursor × List ℕ
tc_bel this = (this, 7 ∷ [])

-- A write of the character itself.
unfoldable pub tc_echo : Cursor → ℕ → Cursor × List ℕ
tc_echo this c = (record { line_pos = add_size this.line_pos 1; wp = wp_add this.wp c }, c ∷ [])

-- One operation behind another.
unfoldable pub and_then : Cursor × List ℕ → (Cursor → Cursor × List ℕ) → Cursor × List ℕ
and_then (c, out) f = let (c', out') = f c in (c', out ++ out')

-- The characters of termios(3) that `main` compares with.
pub record Keys : Type 0 where
  pub veof : ℕ
  pub verase : ℕ
  pub vwerase : ℕ
  pub vkill : ℕ

-- `n` characters of the array.
unfoldable pub copy : ℕ → List ℕ → ℕ → List ℕ
copy zero line i = []
copy (suc n) line i = get_or line i 0 ∷ copy n line (suc i)

-- `this->wp.line[i]`, a place behind the array included.
unfoldable pub word_at : ℕ → Words → ℕ → ℕ
word_at past this i = if ltb i max_columns then get_or this.line i 0 else past

unfoldable pub is_printable : (ℕ → Bool) → (ℕ → Bool) → ℕ → Bool
is_printable is_space is_graph c = is_graph c || is_space c

module _ (is_space : ℕ → Bool) where
  -- The loop of `wp_pop_word` from a count on; the result is the count that is left.
  unfoldable pub pop_from : List ℕ → Bool → ℕ → ℕ
  pop_from line found zero = 0
  pop_from line found (suc n) =
      let skip = pop_from line found n in
      let inside = pop_from line true n in
      if is_space (get_or line n 0) then (if found then suc n else skip) else inside

  unfoldable pub wp_pop_word : Words → Words × ℕ
  wp_pop_word this =
      if wp_empty this
      then (this, 0)
      else let pos = pop_from this.line false this.count in (record this { count = pos }, pos)

  -- The length of the word at a place, of at most `n` characters.
  unfoldable pub word_length : ℕ → List ℕ → ℕ → ℕ
  word_length zero line i = 0
  word_length (suc n) line i =
      let rest = word_length n line (suc i) in if is_space (get_or line i 0) then 0 else suc rest

  unfoldable pub wp_get_word : Words → List ℕ
  wp_get_word this =
      let pos = (wp_pop_word this).1 in
      copy (word_length (max_columns - pos) this.line pos) this.line pos

  unfoldable pub tc_werase : Cursor → Cursor × List ℕ
  tc_werase this =
      if wp_empty this.wp
      then (this, [])
      else let (wp, pos) = wp_pop_word this.wp in
        (record { line_pos = pos; wp = wp }, backspace (sub_size this.line_pos pos))

  unfoldable pub tc_carry : Cursor → Cursor × List ℕ
  tc_carry this =
      let word = wp_get_word this.wp in
      if length word == max_columns then (tc_clear, newline ∷ []) else (
        record { line_pos = length word; wp = wp_add_ar wp_clear word },
        backspace (length word) ++ newline ∷ word,
      )

  module _ (is_graph : ℕ → Bool) (past : ℕ) where
    unfoldable pub tc_print : Cursor → ℕ → Cursor × List ℕ
    tc_print this c =
        if not (is_printable is_space is_graph c)
        then (this, [])
        else (if c == newline
            then tc_nl this
            else (if tc_eol this
                then (if not (is_space c) && not (is_space (word_at past this.wp this.line_pos))
                    then and_then (tc_carry this) (λ t. tc_echo t c)
                    else tc_nl this)
                else tc_echo this c))

    -- The body of the loop of `main`, without the test for the end.
    unfoldable pub type_char : Keys → Cursor → ℕ → Cursor × List ℕ
    type_char keys this c =
        if c == keys.verase
        then tc_erase this
        else (if c == keys.vwerase
            then tc_werase this
            else (if c == keys.vkill
                then tc_kill this
                else (if is_printable is_space is_graph c then tc_print this c else tc_bel this)))

    -- The loop of `main` over the calls of read(2): `none` is -1, which leaves the character as
    -- it is, and once they are used up it returns 0.
    unfoldable pub type_all : Keys → Cursor → ℕ → List (Option ℕ) → Cursor × List ℕ
    type_all keys this c [] = (this, [])
    type_all keys this c (read ∷ reads) =
        let d : ℕ = elim read [ none ↦ c | some d ↦ d ] in
        let step = type_char keys this d in
        let rest = type_all keys step.0 d reads in
        if (this.line_pos == 0) && (d == keys.veof) then (this, []) else (rest.0, step.1 ++ rest.1)

    -- `main`, with what isatty(3) says of the input and the output; `none` is EXIT_FAILURE.
    unfoldable pub edit : Bool → Bool → Keys → ℕ → List (Option ℕ) → Option (Cursor × List ℕ)
    edit in_tty out_tty keys c reads =
        if not in_tty || not out_tty then none else some (type_all keys tc_clear c reads)
