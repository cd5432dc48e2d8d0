-- ===== src/Editor/Screen.antt =====
-- lab17/lab17.c: what a terminal shows of the bytes that the editor writes.
use os_unixvr4_labs.Common.{
  ℕ, zero, suc, ◌≤◌, ◌<◌, ◌≡◌, refl, ap, ◌∙◌, List, [], ◌∷◌, ◌++◌, ◌||◌, ◌==◌, if◌then◌else◌,
  length, arith, drop,
}
use os_unixvr4_labs.Editor.{backspace, erase_one, newline}

-- A terminal: the rows that are done, the last first, and the row of the cursor, what is left of
-- the cursor, the nearest first, and what is right of it.
pub record Terminal : Type 0 where
  pub rows : List (List ℕ)
  pub left : List ℕ
  pub right : List ℕ

-- The elements of the first list, the last one first, before the second.
unfoldable pub rev_append : List ℕ → List ℕ → List ℕ
rev_append [] ys = ys
rev_append (x ∷ xs) ys = rev_append xs (x ∷ ys)

unfoldable pub cursor_left : Terminal → Terminal
cursor_left t = elim t.left [ [] ↦ t | c ∷ left ↦ record t { left = left; right = c ∷ t.right } ]

-- The bytes 0 and 7 show nothing, 8 moves the cursor, and 10 starts a row; any other one is shown
-- at the cursor.
unfoldable pub show : Terminal → ℕ → Terminal
show t c =
    if (c == 0) || (c == 7)
    then t
    else (if c == 8
        then cursor_left t
        else (if c == newline
            then record { rows = rev_append t.left t.right ∷ t.rows; left = []; right = [] }
            else record t { left = c ∷ t.left; right = drop 1 t.right }))

unfoldable pub show_all : Terminal → List ℕ → Terminal
show_all t [] = t
show_all t (c ∷ cs) = show_all (show t c) cs

-- Only spaces.
unfoldable pub Blank : List ℕ → Type 0
Blank [] = Unit
Blank (c ∷ cs) = (c ≡ 32) × Blank cs

-- A code that a terminal shows: a space or what is behind it in ASCII.
abbrev pub Seen : ℕ → Type 0
Seen c = (32 ≤ c) × (c < 127)

pub show_all-append :
    (t : Terminal) (xs ys : List ℕ) → show_all t (xs ++ ys) ≡ show_all (show_all t xs) ys
unfolding show_all
show_all-append t [] ys = refl
show_all-append t (x ∷ xs) ys = show_all-append (show t x) xs ys

pub show-Seen :
    (t : Terminal) (c : ℕ)
    → Seen c
    → show t c ≡ record { rows = t.rows; left = c ∷ t.left; right = drop 1 t.right }
unfolding show
show-Seen t c (a, b) = ground arith

pub show-newline :
    (t : Terminal)
    → show t newline ≡ record { rows = rev_append t.left t.right ∷ t.rows; left = []; right = [] }
unfolding show
show-newline t = refl

pub show-bell : (t : Terminal) → show t 7 ≡ t
unfolding show
show-bell t = refl

show_all-erase_one :
    (rows : List (List ℕ)) (c : ℕ) (left right : List ℕ)
    → show_all (record { rows = rows; left = c ∷ left; right = right }) erase_one
      ≡ record { rows = rows; left = left; right = 32 ∷ right }
unfolding show_all show cursor_left
show_all-erase_one rows c left right = refl

-- Spaces before a list.
pub blanks : ℕ → List ℕ → List ℕ
blanks zero right = right
blanks (suc n) right = blanks n (32 ∷ right)

-- `backspace` erases the characters left of the cursor.
pub show_all-backspace :
    (rows : List (List ℕ)) (n : ℕ) (left right : List ℕ)
    → n ≤ length left
    → show_all (record { rows = rows; left = left; right = right }) (backspace n)
      ≡ record { rows = rows; left = drop n left; right = blanks n right }
unfolding show_all backspace blanks
show_all-backspace rows zero left right h = refl
show_all-backspace rows (suc n) [] right h = absurd (omega arith)
show_all-backspace rows (suc n) (c ∷ left) right h =
    show_all-append (record { rows = rows; left = c ∷ left; right = right }) erase_one (backspace n)
    ∙ ap (λ z. show_all z (backspace n)) (show_all-erase_one rows c left right)
    ∙ show_all-backspace rows n left (32 ∷ right) (omega arith)

pub Blank-blanks : (n : ℕ) (right : List ℕ) → Blank right → Blank (blanks n right)
unfolding blanks Blank
Blank-blanks zero right b = b
Blank-blanks (suc n) right b = Blank-blanks n (32 ∷ right) (refl, b)

pub Blank-drop : (right : List ℕ) → Blank right → Blank (drop 1 right)
unfolding Blank
Blank-drop [] b = b
Blank-drop (c ∷ cs) (e, b) = b
