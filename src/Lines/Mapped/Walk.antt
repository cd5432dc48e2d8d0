-- ===== src/Lines/Mapped/Walk.antt =====
-- The walk of lab7 over the mapped file makes the table of its lines.
use os_unixvr4_labs.Common.{
  take-all, ℕ, zero, suc, ◌+◌, ◌%◌, ◌≤◌, ◌<◌, ◌≡◌, ◌⊎◌, refl, sym, ap, subst, ◌∙◌, true, false,
  List, [], ◌∷◌, ◌++◌, Option, some, ltb, leb, length, length-take, length-drop, arith, Bool-cases,
  inl, inr, take, drop, mod-add-mod, add_size, sub_size, max_object,
}
use os_unixvr4_labs.Lines.Text.{lines-cut, cut, cut_from, cut_from-append}
use os_unixvr4_labs.Lines.Pieces.{cut-IsCut}
use os_unixvr4_labs.Lines.Array.{KeepsCells}
use os_unixvr4_labs.Lines.Offsets
use os_unixvr4_labs.Lines.Offsets.{Walking, scan_piece, add_last}
use os_unixvr4_labs.Lines.Offsets.Walk.{
  HasWalked, scan-HasWalked, last-IsTable, start-HasWalked, start_walk,
}
use os_unixvr4_labs.Lines.Offsets.Scan
use native.Mathlib.Nat.{zero-mod}
use os_unixvr4_labs.Lines.Mapped.{
  LineTable, null, cache_limit, piece_size, map_all, init_table, get_table,
}
use os_unixvr4_labs.Lines.Mapped.Window.{MapsText, HasFile, take-nil}

take-split : (a b : ℕ) (xs : List ℕ) → take (a + b) xs ≡ take a xs ++ take b (drop a xs)
take-split zero b xs = ap (λ k. take k xs) (omega arith)
take-split (suc a) b [] = take-nil (suc a + b) ∙ sym (take-nil b)
take-split (suc a) b (x ∷ xs) =
    ap (λ k. take k (x ∷ xs)) {x = suc a + b} {y = suc (a + b)} (omega arith)
    ∙ ap (λ t. x ∷ t) (take-split a b xs)

cut-append : (xs ys : List ℕ) → cut (xs ++ ys) ≡ cut_from (cut xs) ys
unfolding cut
cut-append xs ys = cut_from-append (record { complete = []; pending = [] }) xs ys

piece_size_bounds :
    (size off : ℕ)
    → size < max_object
    → off < size
    → (0 < piece_size size off)
      × (off + piece_size size off ≤ size)
      × ((off + piece_size size off ≡ size) ⊎ (piece_size size off ≡ cache_limit))
unfolding piece_size
piece_size_bounds size off small h = elim (Bool-cases (leb cache_limit (sub_size size off))) [
  | inl e ↦ rw e (omega arith, ground arith, inr refl)
  | inr e ↦ rw e (omega arith, omega arith, inl (omega arith))
]

map_all-end :
    (fuel : ℕ) (realloc : List ℕ → ℕ → List ℕ) (mmap : ℕ → ℕ → Option (List ℕ)) (s : Walking)
    (size off : ℕ)
    → ltb off size ≡ false
    → map_all (suc fuel) realloc mmap s size off ≡ some s
unfolding map_all
map_all-end fuel realloc mmap s size off e = rw (e, map_all) refl

map_all-piece :
    (fuel : ℕ) (realloc : List ℕ → ℕ → List ℕ) (mmap : ℕ → ℕ → Option (List ℕ)) (s s' : Walking)
    (size off : ℕ) (bytes : List ℕ)
    → ltb off size ≡ true
    → mmap (piece_size size off) off ≡ some bytes
    → scan_piece (suc (length bytes)) realloc s bytes ≡ some s'
    → map_all (suc fuel) realloc mmap s size off
      ≡ map_all fuel realloc mmap s' size (add_size off (piece_size size off))
unfolding map_all
map_all-piece fuel realloc mmap s s' size off bytes e m d = rw (e, map_all) (rw m (rw d refl))

module _ (page : ℕ) (pages : cache_limit % page ≡ 0) (text : List ℕ)
    (small : length text < max_object) (mmap : ℕ → ℕ → Option (List ℕ))
    (maps : MapsText mmap page text) {realloc : List ℕ → ℕ → List ℕ}
    (keeps : KeepsCells realloc) where
  next-page : (size off : ℕ) → off % page ≡ 0 → (off + cache_limit) % page ≡ 0
  next-page size off e =
      sym (mod-add-mod off page cache_limit) ∙ ap (λ k. (k + cache_limit) % page) e ∙ pages

  map-HasWalked :
      (fuel : ℕ) (s : Walking) (off : ℕ)
      → length text < fuel + off
      → off ≤ length text
      → (off ≡ length text) ⊎ (off % page ≡ 0)
      → HasWalked s (cut (take off text))
      → (s' : Walking) × (map_all fuel realloc mmap s (length text) off ≡ some s')
        × HasWalked s' (cut text)
  map-HasWalked zero s off f inside at_page w = absurd (omega arith)
  map-HasWalked (suc fuel) s off f inside at_page w = elim (Bool-cases (ltb off (length text))) [
    | inr e ↦ (
      s,
      map_all-end fuel realloc mmap s (length text) off e,
      subst (λ z. HasWalked s (cut z)) (take-all text off (ground arith)) w,
    )
    | inl e ↦
        let before : off < length text = ground arith in
        let n = piece_size (length text) off in
        let (some_bytes, fits, kind) = piece_size_bounds (length text) off small before in
        let aligned : off % page ≡ 0 = elim at_page [
          | inl over ↦ absurd (omega (arith, over, before))
          | inr a ↦ a
        ] in
        let bytes = take n (drop off text) in
        let long : length bytes ≡ n =
          omega (arith, length-take n (drop off text), length-drop off text, fits) in
        let cut_size : length (take off text) ≡ off = omega (arith, length-take off text, inside) in
        let (s1, done, w1) =
          scan-HasWalked keeps (suc (length bytes)) s (cut (take off text)) (length (take off text))
            bytes (omega arith) (cut-IsCut (take off text)) (omega (arith, cut_size, long, fits))
            w in
        let next : add_size off n ≡ off + n = omega (arith, fits) in
        let w2 : HasWalked s1 (cut (take (off + n) text)) =
          subst (HasWalked s1)
            (sym (ap cut (take-split off n text) ∙ cut-append (take off text) bytes)) w1 in
        let then_at : (off + n ≡ length text) ⊎ ((off + n) % page ≡ 0) = elim kind [
          | inl last ↦ inl last
          | inr whole ↦ inr (ap (λ k. (off + k) % page) whole ∙ next-page n off aligned)
        ] in
        let (s2, rest, w3) =
          map-HasWalked fuel s1 (off + n) (omega (arith, some_bytes)) fits then_at w2 in
        (
          s2,
          map_all-piece fuel realloc mmap s s1 (length text) off bytes e
                (maps n off some_bytes aligned fits) done
              ∙ ap (map_all fuel realloc mmap s1 (length text)) next
              ∙ rest,
          w3,
        )
  ]

-- The table that `init_table` leaves.
abbrev fresh_table : List ℕ → ℕ → ℕ → ℕ → LineTable
fresh_table fresh size some_len some_idx = record {
  table = Offsets.init_table fresh;
  file_size = size;
  cache = null;
  cache_len = some_len;
  cache_idx = some_idx;
}

get_table-mapped :
    (realloc : List ℕ → ℕ → List ℕ) (mmap : ℕ → ℕ → Option (List ℕ)) (t : LineTable) (s : Walking)
    → map_all
        (suc t.file_size)
        realloc
        mmap
        (record { table = t.table; line_size = 0; offset = 0 })
        t.file_size
        0
      ≡ some s
    → get_table realloc mmap t ≡ some (record t { table = add_last realloc s })
unfolding get_table
get_table-mapped realloc mmap t s e = rw (e, get_table) refl

-- Where pages divide the pieces of the file that are mapped in turn, `get_table` maps only such
-- pieces as mmap(2) allows, its loop ends with the fuel of one round more than the bytes of the
-- file, and it makes the table of the lines of the file, ready for `get_line`.
pub get_table-HasFile :
    (page : ℕ) (text : List ℕ) (mmap : ℕ → ℕ → Option (List ℕ)) (realloc : List ℕ → ℕ → List ℕ)
    (fresh : List ℕ) (some_len some_idx : ℕ) (t : LineTable)
    → cache_limit % page ≡ 0
    → length text < max_object
    → MapsText mmap page text
    → KeepsCells realloc
    → length fresh ≡ 16
    → init_table fresh (some (length text)) some_len some_idx ≡ some t
    → (t' : LineTable) × (get_table realloc mmap t ≡ some t') × HasFile t' text
unfolding init_table cut
get_table-HasFile page text mmap realloc fresh some_len some_idx t pages small maps keeps long e =
    let t0 = fresh_table fresh (length text) some_len some_idx in
    let k = cut-IsCut text in
    let zero_page : 0 % page ≡ 0 = zero-mod page in
    let (s, done, w) =
      map-HasWalked page pages text small mmap maps keeps (suc (length text)) (start_walk fresh) 0
        (omega arith) (omega arith) (inr zero_page) (start-HasWalked fresh long) in
    let same : t0 ≡ t = cc in
    (
      record t0 { table = add_last realloc s },
      subst (λ z. get_table realloc mmap z ≡ some (record t0 { table = add_last realloc s })) same
          (get_table-mapped realloc mmap t0 s done),
      record {
        table = subst (Scan.IsTable (add_last realloc s)) (sym (lines-cut text)) (
            last-IsTable keeps s (cut text).complete (cut text).pending
              (omega (arith, w.table.counted, k.few, k.total)) (omega (arith, k.total)) w.table
              w.size w.place);
        file_size = refl;
        window = inl refl;
      },
    )
