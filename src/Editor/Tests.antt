-- ===== src/Editor/Tests.antt =====
-- Runs of lab17's editor, with the classes of ASCII.
use os_unixvr4_labs.Common.{
  ℕ, ◌≤◌, ◌≡◌, List, [], ◌∷◌, Bool, true, ◌&&◌, ◌||◌, ◌==◌, ltb, Option, none, some, inr, arith,
}
use os_unixvr4_labs.Editor.{Words, Cursor, Keys, edit, type_all, tc_clear, wp_pop_word}
use os_unixvr4_labs.Editor.Word.{typed, without_word, wp_pop_word-typed}
use os_unixvr4_labs.Editor.Shape.{IsCursor, tc_clear-IsCursor}
use os_unixvr4_labs.Editor.Steps.{type_all-IsCursor}
use os_unixvr4_labs.Editor.Screen.{show_all}
use os_unixvr4_labs.Editor.Display.{Shows}
use os_unixvr4_labs.Editor.Session.{IsAscii, NoTabs, edit-Shows}

abbrev ascii_space : ℕ → Bool
ascii_space c = (c == 32) || (ltb 8 c && ltb c 14)

abbrev ascii_graph : ℕ → Bool
ascii_graph c = ltb 32 c && ltb c 127

ascii_IsAscii : IsAscii ascii_space ascii_graph
ascii_IsAscii = record { graphs = λ c h. ground arith; spaces = λ c h. ground arith }

abbrev keys : Keys
keys = record { veof = 4; verase = 127; vwerase = 23; vkill = 21 }

-- "ab cd", the last word erased, "e", an error of read(2), and the end.
abbrev input : List (Option ℕ)
input = some 97 ∷ some 98 ∷ some 32 ∷ some 99 ∷ some 23 ∷ some 101 ∷ none ∷ []

input-NoTabs : NoTabs input
unfolding NoTabs
input-NoTabs = (
  inr (inr (omega arith)),
  (
    inr (inr (omega arith)),
    (
      inr (inr (omega arith)),
      (inr (inr (omega arith)), (inr (inr (omega arith)), (inr (inr (omega arith)), _))),
    ),
  ),
)

abbrev two_words : Words
two_words = record { line = 97 ∷ 32 ∷ 98 ∷ 99 ∷ 32 ∷ []; count = 5 }

wp_pop_word-typed_example :
    (typed two_words.line (wp_pop_word ascii_space two_words).0.count
      ≡ without_word ascii_space (typed two_words.line two_words.count))
    × ((wp_pop_word ascii_space two_words).0.line ≡ two_words.line)
    × ((wp_pop_word ascii_space two_words).1 ≡ (wp_pop_word ascii_space two_words).0.count)
    × ((wp_pop_word ascii_space two_words).0.count ≤ two_words.count)
wp_pop_word-typed_example = wp_pop_word-typed ascii_space two_words

type_all-IsCursor_example : IsCursor (type_all ascii_space ascii_graph 40 keys tc_clear 97 input).0
type_all-IsCursor_example =
    type_all-IsCursor ascii_space ascii_graph 40 keys tc_clear 97 input tc_clear-IsCursor

edit-Shows_example :
    (end : Cursor × List ℕ) × (edit ascii_space ascii_graph 40 true true keys 97 input ≡ some end)
    × Shows end.0 (show_all (record { rows = []; left = []; right = [] }) end.1)
edit-Shows_example =
    edit-Shows ascii_space ascii_graph 40 keys 97 input [] ascii_IsAscii (inr (inr (omega arith)))
      input-NoTabs
