-- ===== src/Message/RoundTrip.antt =====
-- What `encapsulate` writes, read back by `decapsulate`.
use os_unixvr4_labs.Common.{
  ℕ, ◌<◌, ◌≡◌, ◌≢◌, inl, inr, refl, sym, ap, ap₂, ◌∙◌, true, false, not, ◌&&◌, List, [], ◌∷◌, ◌++◌,
  Option, some, arith, length, drop, append-nil, drop-eq-nil, Bool-cases, ◌==◌, subst,
}
use os_unixvr4_labs.Protocol.{message_edge}
use os_unixvr4_labs.Protocol.Escape.{escape_char, escape, length-escape_char}
use os_unixvr4_labs.Message.{MessageBuffer, encapsulate}
use os_unixvr4_labs.Message.Stream.{stream, if_put}
use os_unixvr4_labs.Message.Conserve.{IsReady, opening, closing}
use os_unixvr4_labs.Message.Encapsulate.{
  Conserved, accepted, owed, owed-other, owed-same, opening-other, set_order-own, encapsulate_lem,
}
use os_unixvr4_labs.Receiver.{Receiver, decapsulate}
use os_unixvr4_labs.Receiver.Frames.{IsAscii, Between, decapsulate_frame}

-- A call that accepts all of its data, and some, has written the whole text.
accepted_all :
    (b b' : MessageBuffer) (r : Option ℕ) (x : ℕ) (xs : List ℕ) (o : ℕ)
    → Conserved b b' r (x ∷ xs) o
    → r ≡ some (length (x ∷ xs))
    → (owed b' o ≡ []) × (stream b' ≡ stream b ++ (owed b o ++ escape (x ∷ xs)))
unfolding escape
accepted_all b b' r x xs o s e =
    let k : accepted r ≡ length (x ∷ xs) = ap accepted e in
    let paid : owed b' o ≡ [] = elim s.behind [
      | inl z ↦ absurd (omega (arith, z, k))
      | inr z ↦ z
    ] in
    let nothing : escape (drop (accepted r) (x ∷ xs)) ≡ [] =
      ap escape (drop-eq-nil (x ∷ xs) (accepted r) (omega (arith, k))) in
    (
      paid,
      sym (append-nil (stream b'))
          ∙ ap₂ (λ u v. stream b' ++ (u ++ v)) (sym paid) (sym nothing)
          ∙ s.text,
    )

accepts_all :
    (b : MessageBuffer) (x : ℕ) (xs : List ℕ) (o : ℕ)
    → IsReady b
    → (encapsulate b (x ∷ xs) o).0 ≡ some (length (x ∷ xs))
    → let b' = (encapsulate b (x ∷ xs) o).1 in
      IsReady b' × (owed b' o ≡ []) × (stream b' ≡ stream b ++ (owed b o ++ escape (x ∷ xs)))
accepts_all b x xs o v all =
    let (r, b', e, c) = encapsulate_lem b (x ∷ xs) o v in
    let c' : Conserved b ((encapsulate b (x ∷ xs) o).1) ((encapsulate b (x ∷ xs) o).0) (x ∷ xs) o =
      subst (λ (z : Option ℕ × MessageBuffer). Conserved b z.1 z.0 (x ∷ xs) o) (sym e) c in
    let w = accepted_all b _ _ x xs o c' all in (c'.ready, w.0, w.1)

owed-idle :
    (b : MessageBuffer) (o : ℕ)
    → b.start_put ≡ false
    → b.order_put ≡ false
    → owed b o ≡ message_edge ∷ escape_char o
owed-idle b o s p = elim (Bool-cases (b.order == o)) [
  | inl e ↦
      let same : b.order ≡ o = ground arith in
      owed-same b o (ground arith) ∙ ap opening (set_order-own b o e) ∙ rw (s, p, same) refl
  | inr e ↦ owed-same b o (ground arith) ∙ opening-other b o s e
]

escape_char-nonempty : (c : ℕ) → escape_char c ≢ []
escape_char-nonempty c e = absurd (omega (arith, length-escape_char c, ap length e))

append-nonempty : (xs ys : List ℕ) → ys ≢ [] → xs ++ ys ≢ []
append-nonempty [] ys n e = n e
append-nonempty (x ∷ xs) ys n e = absurd (ground arith)

nonempty-cons : (x : ℕ) (xs : List ℕ) → x ∷ xs ≢ []
nonempty-cons x xs e = absurd (ground arith)

-- A writer that owes nothing for `o` is inside a frame of `o`.
paid-inside :
    (b : MessageBuffer) (o : ℕ)
    → owed b o ≡ []
    → (b.start_put ≡ true) × (b.order_put ≡ true) × ((b.order == o) ≡ true)
paid-inside b o e = elim (Bool-cases (b.start_put && not (b.order == o))) [
  | inl c ↦ absurd (
      append-nonempty (closing b) (message_edge ∷ escape_char o) (λ q. ground arith)
        (sym (owed-other b o c) ∙ e))
  | inr c ↦ elim (Bool-cases (b.order == o)) [
    | inl same ↦
        let q : opening b ≡ [] =
          sym (ap opening (set_order-own b o same)) ∙ sym (owed-same b o c) ∙ e in
        (
          elim (Bool-cases b.start_put) [
            | inl s ↦ s
            | inr s ↦ absurd (
                nonempty-cons message_edge (if_put (not b.order_put) (escape_char b.order))
                  (rw s at q))
          ],
          elim (Bool-cases b.order_put) [
            | inl p ↦ p
            | inr p ↦ absurd (
                append-nonempty (if_put (not b.start_put) (message_edge ∷ [])) (escape_char b.order)
                  (escape_char-nonempty b.order) (rw p at q))
          ],
          same,
        )
    | inr other ↦
        let s : b.start_put ≡ false = ground arith in
        absurd (
          nonempty-cons message_edge (escape_char o)
            (sym (opening-other b o s other) ∙ sym (owed-same b o c) ∙ e))
  ]
]

owed-paid :
    (b : MessageBuffer) (o o2 : ℕ)
    → owed b o ≡ []
    → o ≢ o2
    → owed b o2 ≡ message_edge ∷ message_edge ∷ escape_char o2
owed-paid b o o2 e ne =
    let (s, p, same) = paid-inside b o e in
    let differs : (b.order == o2) ≡ false = ground arith in
    owed-other b o2 (rw (s, differs) refl)
    ∙ ap
        (λ z.
          (if_put (not z) (escape_char b.order) ++ message_edge ∷ [])
          ++ message_edge ∷ escape_char o2)
        p

-- Two frames go from the writer to the reader. A ready writer without text, between two frames,
-- accepts all of some data, at least a byte, for one order, and then all of some data, at least a
-- byte, for another order. A reader between two frames that holds the bytes that were written, and
-- is asked for more bytes than the first data has, returns the first data, and is left before the
-- second frame. The first order and the first data are below 128.
pub encapsulate-decapsulate :
    (b : MessageBuffer) (x y : ℕ) (xs ys : List ℕ) (o o2 count : ℕ) (r : Receiver)
    → IsReady b
    → b.start_put ≡ false
    → b.order_put ≡ false
    → stream b ≡ []
    → (encapsulate b (x ∷ xs) o).0 ≡ some (length (x ∷ xs))
    → o ≢ o2
    → (encapsulate (encapsulate b (x ∷ xs) o).1 (y ∷ ys) o2).0 ≡ some (length (y ∷ ys))
    → o < 128
    → IsAscii (x ∷ xs)
    → length (x ∷ xs) < count
    → Between r (stream (encapsulate (encapsulate b (x ∷ xs) o).1 (y ∷ ys) o2).1)
    → (r' : Receiver) × (decapsulate r count ≡ (some (x ∷ xs), r'))
      × Between r' (message_edge ∷ escape (o2 ∷ y ∷ ys))
unfolding escape
encapsulate-decapsulate b x y xs ys o o2 count r v s p empty all ne all2 l a more h =
    let (ready, paid, t1) = accepts_all b x xs o v all in
    let b1 = (encapsulate b (x ∷ xs) o).1 in
    let (ready2, paid2, t2) = accepts_all b1 y ys o2 ready all2 in
    decapsulate_frame r o (x ∷ xs) (message_edge ∷ escape (o2 ∷ y ∷ ys)) count l a more (
      subst (Between r)
        (t2
          ∙ ap₂ (λ u w. u ++ (w ++ escape (y ∷ ys)))
              (t1 ∙ ap₂ (λ u w. u ++ (w ++ escape (x ∷ xs))) empty (owed-idle b o s p))
              (owed-paid b1 o o2 paid ne))
        h)
