-- ===== src/Lines/Mapped/Window.antt =====
-- The window of lab7 lies in the file, begins at a page, and holds the line that is asked for.
use os_unixvr4_labs.Common.{
  ℕ, zero, suc, ◌+◌, ◌-◌, ◌*◌, ◌/◌, ◌%◌, ◌≤◌, ◌<◌, ◌≡◌, ◌⊎◌, refl, sym, ap, ap₂, ◌∙◌, Bool, true,
  false, List, [], ◌∷◌, Option, some, length, length-take, length-drop, arith, Bool-cases, inl, inr,
  take, drop, get_or, get_elem?, add_size, sub_size, max_object,
}
use mathlib.Core.Bool.{true≢false}
use native.Mathlib.Nat.{div-mul-le_self, mul-mod_left}
use os_unixvr4_labs.Lines.Text.{lines}
use os_unixvr4_labs.Lines.Pieces.{lines-nonempty}
use os_unixvr4_labs.Lines.Array.{take_shorter}
use os_unixvr4_labs.Lines.Offsets.Scan.{IsTable}
use os_unixvr4_labs.Lines.Offsets.Print.{entry}
use os_unixvr4_labs.Lines.Mapped.{
  LineTable, mapped, is_null, bytes_at, in_window, line_in_window, no_window, window_size,
  window_offset, map_window, get_line,
}

-- mmap(2) of a file that holds `text`: a window inside the file that begins at a page and is not
-- empty is mapped.
abbrev pub MapsText : (ℕ → ℕ → Option (List ℕ)) → ℕ → List ℕ → Type 0
MapsText mmap page text =
    (n offset : ℕ)
    → 0 < n
    → offset % page ≡ 0
    → offset + n ≤ length text
    → mmap n offset ≡ some (take n (drop offset text))

-- The bytes that are mapped.
pub record IsWindow (t : LineTable) (text bytes : List ℕ) : Type 0 where
  pub cache_is : t.cache ≡ mapped bytes
  pub bytes_are : bytes ≡ take t.cache_len (drop t.cache_idx text)
  pub inside : t.cache_idx + t.cache_len ≤ length text

pub record HasFile (t : LineTable) (text : List ℕ) : Type 0 where
  pub table : IsTable t.table (lines text)
  pub file_size : t.file_size ≡ length text
  pub window : (is_null t.cache ≡ true) ⊎ ((bytes : List ℕ) × IsWindow t text bytes)

pub take-nil : (n : ℕ) → take {A = ℕ} n [] ≡ []
take-nil zero = refl
take-nil (suc n) = refl

drop-nil : (n : ℕ) → drop {A = ℕ} n [] ≡ []
drop-nil zero = refl
drop-nil (suc n) = refl

drop-take : (a b : ℕ) (xs : List ℕ) → drop a (take b xs) ≡ take (b - a) (drop a xs)
drop-take zero b xs = ap (λ k. take k xs) {y = b - zero} (omega arith)
drop-take (suc a) zero xs =
    sym (ap (λ k. take k (drop (suc a) xs)) {x = zero - suc a} {y = 0} (omega arith))
drop-take (suc a) (suc b) [] = sym (take-nil (suc b - suc a))
drop-take (suc a) (suc b) (x ∷ xs) =
    drop-take a b xs ∙ ap (λ k. take k (drop a xs)) {y = suc b - suc a} (omega arith)

drop-drop : (a b : ℕ) (xs : List ℕ) → drop a (drop b xs) ≡ drop (b + a) xs
drop-drop a zero xs = ap (λ k. drop k xs) (omega arith)
drop-drop a (suc b) [] = drop-nil a ∙ sym (drop-nil (suc b + a))
drop-drop a (suc b) (x ∷ xs) =
    drop-drop a b xs ∙ ap (λ k. drop k (x ∷ xs)) {x = suc (b + a)} {y = suc b + a} (omega arith)

-- What a window shows of the text at `o`.
window-shows :
    (text bytes : List ℕ) (idx len o n : ℕ)
    → bytes ≡ take len (drop idx text)
    → idx ≤ o
    → o + n ≤ idx + len
    → idx + len ≤ length text
    → (take n (drop (o - idx) bytes) ≡ take n (drop o text)) × (n ≤ length (drop (o - idx) bytes))
window-shows text bytes idx len o n e below above inside =
    let shown : drop (o - idx) bytes ≡ take (len - (o - idx)) (drop o text) =
      ap (drop (o - idx)) e
      ∙ drop-take (o - idx) len (drop idx text)
      ∙ ap (take (len - (o - idx)))
          (drop-drop (o - idx) idx text ∙ ap (λ k. drop k text) {y = o} (omega arith)) in
    (
      ap (take n) shown
          ∙ sym (
              take_shorter n (len - (o - idx)) (drop o text) (take (len - (o - idx)) (drop o text))
                (omega arith) refl),
      omega
          (arith, ap length shown, length-take (len - (o - idx)) (drop o text), length-drop o text),
    )

-- A line got: its bytes, and maybe more behind them.
pub record Got (t t' : LineTable) (text l bytes : List ℕ) : Type 0 where
  pub line : take (length l) bytes ≡ l
  pub room : length l ≤ length bytes
  pub file : HasFile t' text
  pub same_table : t'.table ≡ t.table

-- The line `l`, of the number `i`, lies in the window.
pub record Covers (t : LineTable) (l : List ℕ) (i : ℕ) : Type 0 where
  pub some_cache : is_null t.cache ≡ false
  pub below : t.cache_idx ≤ get_or t.table.offsets i 0
  pub above : get_or t.table.offsets i 0 + length l ≤ t.cache_idx + t.cache_len

-- A window that was made for the line: it begins at a page and reaches over the line.
pub record IsNew (page : ℕ) (t : LineTable) (l : List ℕ) (i : ℕ) : Type 0 where
  pub covers : Covers t l i
  pub at_page : t.cache_idx % page ≡ 0

module _ (text l : List ℕ) (i : ℕ) (small : length text < max_object)
    (at : get_elem? (lines text) i ≡ some l) where
  -- The line in a window that reaches over it.
  shown-line :
      (t : LineTable) (bytes : List ℕ)
      → IsTable t.table (lines text)
      → IsWindow t text bytes
      → t.cache_idx ≤ get_or t.table.offsets i 0
      → get_or t.table.offsets i 0 + length l ≤ t.cache_idx + t.cache_len
      → (take (length l) (line_in_window t i) ≡ l) × (length l ≤ length (line_in_window t i))
  unfolding line_in_window
  shown-line t bytes v w below above =
      let (len, piece, within, end) = entry t.table text l i small v at in
      let o = get_or t.table.offsets i 0 in
      let down : sub_size o t.cache_idx ≡ o - t.cache_idx = omega (arith, below, within) in
      let place : drop (sub_size o t.cache_idx) (bytes_at t.cache) ≡ drop (o - t.cache_idx) bytes =
        ap₂ drop down (ap bytes_at w.cache_is) in
      let (same, room) =
        window-shows text bytes t.cache_idx t.cache_len o (length l) w.bytes_are below above
          w.inside in
      (ap (take (length l)) place ∙ same ∙ piece, omega (arith, room, ap length place))

  module _ (page : ℕ) (mmap : ℕ → ℕ → Option (List ℕ)) (maps : MapsText mmap page text) where
    -- The place and size before the alignment.
    unaligned_bounds :
        (t : LineTable)
        → HasFile t text
        → let o = get_or t.table.offsets i 0 in
          (window_offset t i ≤ o)
          × (o + length l ≤ window_offset t i + window_size t i)
          × (window_offset t i + window_size t i ≤ length text)
          × (0 < window_size t i)
    unfolding window_offset window_size
    unaligned_bounds t f =
        let (len, piece, within, end) = entry t.table text l i small f.table at in
        ground (arith, len, within, f.file_size, lines-nonempty text i l at)

    -- The new window begins at a page, lies in the file, and reaches over the line.
    window_bounds :
        (t : LineTable)
        → HasFile t text
        → let o = get_or t.table.offsets i 0 in
          let aligned = window_offset t i / page * page in
          let n = add_size (window_size t i) (sub_size (window_offset t i) aligned) in
          (aligned ≤ o) × (o + length l ≤ aligned + n) × (aligned + n ≤ length text) × (0 < n)
    window_bounds t f =
        let (before, over, inside, some_bytes) = unaligned_bounds t f in
        let down = div-mul-le_self (window_offset t i) page in
        (omega arith, omega arith, omega arith, omega arith)

    map_window-Got :
        (t : LineTable)
        → HasFile t text
        → (bytes : List ℕ) × (t' : LineTable) × (map_window mmap page t i ≡ (some bytes, t'))
          × Got t t' text l bytes
          × IsNew page t' l i
    unfolding map_window
    map_window-Got t f =
        let aligned = window_offset t i / page * page in
        let n = add_size (window_size t i) (sub_size (window_offset t i) aligned) in
        let (before, over, inside, some_bytes) = window_bounds t f in
        let bytes = take n (drop aligned text) in
        let t' : LineTable = record t {
          cache = mapped bytes;
          cache_len = n;
          cache_idx = aligned;
        } in
        let e : mmap n aligned ≡ some bytes =
          maps n aligned some_bytes (mul-mod_left (window_offset t i / page) page) inside in
        let w : IsWindow t' text bytes = record {
          cache_is = refl;
          bytes_are = refl;
          inside = inside;
        } in
        let (line, room) = shown-line t' bytes f.table w before over in
        (
          line_in_window t' i,
          t',
          rw (e, map_window) refl,
          record {
            line = line;
            room = room;
            file = record { table = f.table; file_size = f.file_size; window = inr (bytes, w) };
            same_table = refl;
          },
          record {
            covers = record { some_cache = refl; below = before; above = over };
            at_page = mul-mod_left (window_offset t i / page) page;
          },
        )

in_window-parts :
    (t : LineTable) (i : ℕ)
    → in_window t i ≡ true
    → (is_null t.cache ≡ false)
      × (t.cache_idx ≤ get_or t.table.offsets i 0)
      × (get_or t.table.offsets (add_size i 1) 0 ≤ add_size t.cache_idx t.cache_len)
unfolding in_window
in_window-parts t i e = ground arith

Covers-in_window :
    (t : LineTable) (l : List ℕ) (i : ℕ)
    → get_or t.table.offsets (add_size i 1) 0 ≡ get_or t.table.offsets i 0 + length l
    → t.cache_idx + t.cache_len < max_object
    → Covers t l i
    → in_window t i ≡ true
unfolding in_window
Covers-in_window t l i end small c = ground (arith, c.some_cache, c.below, c.above, end, small)

-- A line that the table has is got whenever mmap(2) and munmap(2) do what they promise: from the
-- window, which stays as it is, just when the line lies in it, and else from a new window that
-- begins at a page, lies inside the file and holds the line. The pointer has the bytes of the line
-- behind it, and the window is right for the next call.
pub get_line_lem :
    (text l : List ℕ) (i page : ℕ) (mmap : ℕ → ℕ → Option (List ℕ)) (munmap : ℕ → Bool)
    (t : LineTable)
    → length text < max_object
    → get_elem? (lines text) i ≡ some l
    → MapsText mmap page text
    → ((n : ℕ) → munmap n ≡ true)
    → HasFile t text
    → (bytes : List ℕ) × (t' : LineTable) × (get_line mmap munmap page t i ≡ (some bytes, t'))
      × Got t t' text l bytes
      × ((Covers t l i × (t' ≡ t)) ⊎ ((¬ Covers t l i) × IsNew page t' l i))
unfolding get_line no_window
get_line_lem text l i page mmap munmap t small at maps unmaps f =
    elim (Bool-cases (in_window t i)) [
      | inl hit ↦
          let (some_cache, below, above) = in_window-parts t i hit in
          let (len, piece, within, end) = entry t.table text l i small f.table at in
          let (bytes, w) : (bytes : List ℕ) × IsWindow t text bytes = elim f.window [
            | inl e ↦ absurd (ground arith)
            | inr w ↦ w
          ] in
          let (line, room) =
            shown-line text l i small at t bytes f.table w below
              (omega (arith, above, end, w.inside)) in
          (
            line_in_window t i,
            t,
            rw (hit, get_line) refl,
            record { line = line; room = room; file = f; same_table = refl },
            inl (
              record {
                some_cache = some_cache;
                below = below;
                above = omega (arith, above, end, w.inside);
              },
              refl,
            ),
          )
      | inr miss ↦ elim (Bool-cases (is_null t.cache)) [
        | inl e ↦
            let (bytes, t', got, g, n) = map_window-Got text l i small at page mmap maps t f in
            (
              bytes,
              t',
              rw (miss, get_line) (rw (e) got),
              g,
              inr (λ c. absurd (ground (arith, c.some_cache, e)), n),
            )
        | inr e ↦
            let (len, piece, within, end) = entry t.table text l i small f.table at in
            let (old, w) : (bytes : List ℕ) × IsWindow t text bytes = elim f.window [
              | inl e' ↦ absurd (ground (arith, e', e))
              | inr w ↦ w
            ] in
            let (bytes, t', got, g, n) =
              map_window-Got text l i small at page mmap maps (no_window t)
                (record { table = f.table; file_size = f.file_size; window = inl refl }) in
            (
              bytes,
              t',
              rw (miss, get_line) (rw (e, unmaps t.cache_len) got),
              record { line = g.line; room = g.room; file = g.file; same_table = g.same_table },
              inr (
                λ c.
                    true≢false
                      (sym (Covers-in_window t l i end (omega (arith, w.inside, small)) c) ∙ miss),
                n,
              ),
            )
      ]
    ]
