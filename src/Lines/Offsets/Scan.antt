-- ===== src/Lines/Offsets/Scan.antt =====
-- What memchr(3) finds, and the cut of a text at it. The table of offsets grows by one line.
use os_unixvr4_labs.Common.{
  ℕ, suc, ◌+◌, ◌*◌, ◌/◌, ◌≤◌, ◌<◌, ◌≡◌, ◌⊎◌, refl, sym, ap, ap₂, ◌∙◌, List, [], ◌∷◌, ◌++◌, some,
  none, append-nil, append_assoc, ◌==◌, leb, length, length-append, arith, Bool-cases, Option-cases,
  inl, inr, take, drop, set, get_or, length-set, get_or-set_self, add_size, max_object,
}
use os_unixvr4_labs.Lines.Text.{newline, concat, Cut, cut_from}
use os_unixvr4_labs.Lines.Pieces.{starts, concat-snoc, starts-snoc}
use os_unixvr4_labs.Lines.Array.{KeepsCells, take-set_snoc, take-set_later, take-realloc}
use os_unixvr4_labs.Lines.Offsets.{OffsetTable, lt_reserve, lt_add, memchr}

pub memchr-none :
    (xs : List ℕ) (k : Cut)
    → memchr xs newline ≡ none
    → cut_from k xs ≡ record { complete = k.complete; pending = k.pending ++ xs }
unfolding memchr cut_from
memchr-none [] k e =
    ap (λ z. record { complete = k.complete; pending = z }) (sym (append-nil k.pending))
memchr-none (x ∷ xs) k e = elim (Bool-cases (x == newline)) [
  | inl n ↦ absurd (ground arith)
  | inr n ↦ elim (Option-cases (memchr xs newline)) [
    | inl e' ↦ rw n (
        memchr-none xs (record { complete = k.complete; pending = k.pending ++ x ∷ [] }) e'
        ∙ ap (λ z. record { complete = k.complete; pending = z })
            (append_assoc k.pending (x ∷ []) xs))
    | inr (i, e') ↦ absurd (ground arith)
  ]
]

pub memchr-some :
    (xs : List ℕ) (k : Cut) (i : ℕ)
    → memchr xs newline ≡ some i
    → (cut_from k xs
        ≡ cut_from
            (record { complete = k.complete ++ (k.pending ++ take (suc i) xs) ∷ []; pending = [] })
            (drop (suc i) xs))
      × (i < length xs)
unfolding memchr cut_from
memchr-some [] k i e = absurd (ground arith)
memchr-some (x ∷ xs) k i e = elim (Bool-cases (x == newline)) [
  | inl n ↦ let first : i ≡ 0 = ground arith in rw (first, n) (refl, omega arith)
  | inr n ↦ elim (Option-cases (memchr xs newline)) [
    | inl e' ↦ absurd (ground arith)
    | inr (j, e') ↦
        let later : i ≡ suc j = ground arith in
        let (r, l) =
          memchr-some xs (record { complete = k.complete; pending = k.pending ++ x ∷ [] }) j e' in
        rw (later, n)
          (
            r
                ∙ ap
                    (λ z.
                      cut_from (record { complete = k.complete ++ z ∷ []; pending = [] })
                        (drop (suc j) xs))
                    (append_assoc k.pending (x ∷ []) (take (suc j) xs)),
            omega (arith, l),
          )
  ]
]

-- The table describes the lines `ls`.
pub record IsTable (t : OffsetTable) (ls : List (List ℕ)) : Type 0 where
  pub counted : t.count ≡ length ls
  pub within : suc t.count ≤ t.capacity
  pub capacious : 16 ≤ t.capacity
  pub size : length t.offsets ≡ t.capacity
  pub starts_are : take t.count t.offsets ≡ starts 0 ls
  pub end_is : (t.count ≡ 0) ⊎ (get_or t.offsets t.count 0 ≡ length (concat ls))

module _ {realloc : List ℕ → ℕ → List ℕ} (keeps : KeepsCells realloc) where
  -- A reservation makes room for two more cells, and keeps the offsets of the lines.
  reserve_lem :
      (t : OffsetTable) (ls : List (List ℕ))
      → t.count < max_object
      → IsTable t ls
      → let t' = lt_reserve realloc t in
        (t'.count ≡ t.count)
        × (suc (suc t'.count) ≤ t'.capacity)
        × (16 ≤ t'.capacity)
        × (length t'.offsets ≡ t'.capacity)
        × (take t'.count t'.offsets ≡ starts 0 ls)
  unfolding lt_reserve
  reserve_lem t ls small v = elim (Bool-cases (leb (add_size t.count 2) t.capacity)) [
    | inl e ↦ rw e (refl, ground (arith, small), v.capacious, v.size, v.starts_are)
    | inr e ↦
        let full : t.capacity ≤ suc t.count = ground (arith, small) in
        rw e (
          refl,
          omega (arith, v.capacious, v.within, full),
          omega (arith, v.capacious),
          keeps.size t.offsets (t.capacity * 3 / 2) (omega (arith, v.size)),
          take-realloc keeps t.offsets t.count (t.capacity * 3 / 2)
                (omega (arith, v.size, v.within)) (omega (arith, v.size))
              ∙ v.starts_are,
        )
  ]

  pub add-IsTable :
      (t : OffsetTable) (ls : List (List ℕ)) (l : List ℕ) (n offset : ℕ)
      → t.count < max_object
      → n ≡ length l
      → offset ≡ length (concat ls)
      → offset + n < max_object
      → IsTable t ls
      → IsTable (lt_add realloc t n offset) (ls ++ l ∷ [])
  unfolding lt_add
  add-IsTable t ls l n offset small en eo end v =
      let (same, room, capacious, size, starts_are) = reserve_lem t ls small v in
      let t' = lt_reserve realloc t in
      let next : add_size t'.count 1 ≡ suc t'.count = omega (arith, same) in
      let eo' : offset ≡ 0 + length (concat ls) = omega (arith, eo) in
      let first = set t'.offsets t'.count offset in
      let whole : add_size offset n ≡ length (concat (ls ++ l ∷ [])) =
        omega (arith, en, eo, ap length (concat-snoc ls l), length-append (concat ls) l) in
      record {
        counted = omega (arith, v.counted, length-append ls (l ∷ []), small, same);
        within = omega (arith, room, same);
        capacious = capacious;
        size =
            length-set first (add_size t'.count 1) (add_size offset n)
            ∙ length-set t'.offsets t'.count offset
            ∙ size;
        starts_are =
            ap (λ k. take k (set first k (add_size offset n))) next
            ∙ take-set_later first (suc t'.count) (suc t'.count) (add_size offset n) (omega arith)
            ∙ take-set_snoc t'.offsets t'.count offset (omega (arith, room, size))
            ∙ ap₂ (λ a b. a ++ b ∷ []) starts_are eo'
            ∙ sym (starts-snoc 0 ls l);
        end_is = inr (
            get_or-set_self first (add_size t'.count 1) (add_size offset n) 0
              (omega (arith, room, size, length-set t'.offsets t'.count offset))
            ∙ whole);
      }
