-- ===== src/TpBuffer/Calls.antt =====
-- `tpb_encapsulate`: when it refuses, and what it puts into the buffer.
use os_unixvr4_labs.Common.{
  ℕ, suc, ◌<◌, ◌≤◌, ◌≡◌, refl, sym, ap, ap₂, ◌∙◌, Bool, true, false, not, ◌&&◌, ◌||◌, List, [],
  ◌++◌, some, arith, length, take, drop, Bool-cases, inl, inr, ltb, if◌then◌else◌, take-all,
  length-append, append-nil, add_size, take-append-drop,
}
use mathlib.Core.Bool.{true≢false}
use native.Mathlib.Decide.{ℕ_discrete}
use os_unixvr4_labs.Cyclic.{CyclicBuffer, cb_free_space, cb_free_contiguous_space}
use os_unixvr4_labs.Cyclic.Inv.{IsValid}
use os_unixvr4_labs.Cyclic.Contents.{contents}
use os_unixvr4_labs.Protocol.Escape.{escape, escape-append}
use os_unixvr4_labs.TpBuffer.{
  TpBuffer, tpb_max_order, control_length, is_order, encapsulate_now, tpb_encapsulate,
}
use os_unixvr4_labs.TpBuffer.Frame.{put_all, all-IsValid, contents-all, opening, tpb_put_order_lem}
use os_unixvr4_labs.TpBuffer.Control.{is_order-true}
use os_unixvr4_labs.TpBuffer.Data.{Stuffed, cut_text, encapsulate_rounds_lem}

-- A prefix is no longer than the whole in its stuffed form.
length-escape_take : (xs : List ℕ) (n : ℕ) → length (escape (take n xs)) ≤ length (escape xs)
length-escape_take xs n = omega (
  arith,
  ap (λ t. length (escape t)) (take-append-drop n xs),
  ap length (escape-append (take n xs) (drop n xs)),
  length-append (escape (take n xs)) (escape (drop n xs)),
)

cut_text-all : (xs : List ℕ) → escape xs ≡ xs → cut_text xs (length xs) ≡ xs
cut_text-all xs plain =
    ap (λ t. take (length xs) (escape t)) (take-all xs (length xs) (omega arith))
    ∙ ap (take (length xs)) plain
    ∙ take-all xs (length xs) (omega arith)

-- Bytes that need no stuffing and fit in one piece are put as they are, once.
plain_whole :
    (garbage : ℕ → ℕ) (bytes : List ℕ) (b : CyclicBuffer) (r : ℕ × CyclicBuffer)
    → Stuffed garbage bytes b r
    → escape bytes ≡ bytes
    → length bytes ≤ garbage 0
    → length bytes < cb_free_contiguous_space b
    → (r.0 ≡ length bytes) × (contents r.1 ≡ contents b ++ bytes)
plain_whole garbage bytes b r s plain long fits = (
  s.total ∙ omega (arith, all, none_again),
  s.text
      ∙ ap₂ (λ j k. contents b ++ cut_text bytes j ++ cut_text bytes k) all none_again
      ∙ append-nil (contents b ++ cut_text bytes (length bytes))
      ∙ ap (◌++◌ (contents b)) (cut_text-all bytes plain),
)
  where
    all : s.first ≡ length bytes
    all = elim (ℕ_discrete s.first (length bytes)) [
      | yes e ↦ e
      | no h ↦ absurd (
          omega (
            arith,
            h,
            s.first_within,
            s.greedy (omega (arith, h, s.first_within)),
            length-escape_take bytes (suc s.first),
            ap length plain,
          ))
    ]

    none_again : s.second ≡ 0
    none_again = elim (ℕ_discrete s.second 0) [
      | yes e ↦ e
      | no h ↦ absurd (omega (arith, s.again h, all))
    ]

-- The two guards of `tpb_encapsulate`.
abbrev pub refuses : ℕ → TpBuffer → ℕ → Bool
refuses first this order =
    ltb tpb_max_order order
    || (not (is_order this.order order)
        && ltb (cb_free_space this.buffer) (add_size first (control_length this.order)))

module _ (garbage : ℕ → ℕ) (this : TpBuffer) (bytes : List ℕ) (order : ℕ) where
  abbrev marks : List ℕ
  marks = if is_order this.order order then [] else opening this.order order

  -- The buffer behind the calls of `cb_putc` for the marks.
  abbrev pub opened : CyclicBuffer
  opened = put_all this.buffer marks

  -- What a call leaves that is not refused.
  pub record Taken (r : ℕ × TpBuffer) : Type 0 where
    pub marked : contents opened ≡ contents this.buffer ++ take (cb_free_space this.buffer) marks
    pub stuffed : Stuffed garbage bytes opened (r.0, r.1.buffer)
    pub ordered : r.1.order ≡ some order
    pub plain :
        escape bytes ≡ bytes
        → length bytes ≤ garbage 0
        → length bytes < cb_free_contiguous_space opened
        → (r.0 ≡ length bytes) × (contents r.1.buffer ≡ contents opened ++ bytes)

  now-Taken :
      IsValid this.buffer
      → Taken (
          encapsulate_now garbage
            (record { buffer = put_all this.buffer marks; order = some order })
            bytes)
  unfolding encapsulate_now
  now-Taken v =
      let s =
        encapsulate_rounds_lem garbage bytes (put_all this.buffer marks) (all-IsValid marks v) in
      record {
        marked = contents-all marks v;
        stuffed = s;
        ordered = refl;
        plain = plain_whole garbage bytes (put_all this.buffer marks) _ s;
      }

  encapsulate-refused :
      (first : ℕ)
      → refuses first this order ≡ true
      → tpb_encapsulate first garbage this bytes order ≡ (0, this)
  unfolding tpb_encapsulate
  encapsulate-refused first e = elim (Bool-cases (ltb tpb_max_order order)) [
    | inl large ↦ rw large refl
    | inr small ↦ elim (Bool-cases (is_order this.order order)) [
      | inl same ↦ absurd (true≢false (sym e ∙ rw (small, same) refl))
      | inr other ↦ rw (small, other) (rw (rw (small, other) at e) refl)
    ]
  ]

  encapsulate-taken :
      (first : ℕ)
      → refuses first this order ≡ false
      → tpb_encapsulate first garbage this bytes order
        ≡ encapsulate_now garbage
            (record { buffer = put_all this.buffer marks; order = some order })
            bytes
  unfolding tpb_encapsulate
  encapsulate-taken first e = elim (Bool-cases (ltb tpb_max_order order)) [
    | inl large ↦ absurd (true≢false (rw large at e))
    | inr small ↦ elim (Bool-cases (is_order this.order order)) [
      | inl same ↦
          rw (small, same)
            (ap (λ o. encapsulate_now garbage (record { buffer = this.buffer; order = o }) bytes)
              (is_order-true this.order order same))
      | inr other ↦
          rw (small, other)
            (rw (rw (small, other) at e)
              (ap (λ t. encapsulate_now garbage t bytes) (tpb_put_order_lem this order)))
    ]
  ]

pub tpb_encapsulate_lem :
    (first : ℕ) (garbage : ℕ → ℕ) (this : TpBuffer) (bytes : List ℕ) (order : ℕ)
    → IsValid this.buffer
    → let r = tpb_encapsulate first garbage this bytes order in
      (refuses first this order ≡ true → r ≡ (0, this))
      × (refuses first this order ≡ false → Taken garbage this bytes order r)
tpb_encapsulate_lem first garbage this bytes order v = (
  λ e. encapsulate-refused garbage this bytes order first e,
  λ e.
      rw (encapsulate-taken garbage this bytes order first e)
        (now-Taken garbage this bytes order v),
)
