-- ===== src/Message/Encapsulate.antt =====
-- What is written, owed and left over is conserved by `encapsulate`.
use os_unixvr4_labs.Common.{
  ℕ, ◌≤◌, ◌≡◌, ◌⊎◌, inl, inr, refl, sym, ap, ap₂, ◌∙◌, true, false, not, ◌&&◌, List, [], ◌∷◌, ◌++◌,
  Option, some, none, arith, length, drop, append-nil, append_assoc, Bool-cases, if◌then◌else◌,
  ◌==◌, max_object,
}
use os_unixvr4_labs.Protocol.{message_edge}
use os_unixvr4_labs.Protocol.Escape.{escape_char, escape}
use os_unixvr4_labs.IoBuffer.Inv.{init-IsValid}
use os_unixvr4_labs.Message.{MessageBuffer, init_mb, put_frame, close_frame, set_order, encapsulate}
use os_unixvr4_labs.Message.Stream.{stream}
use os_unixvr4_labs.Message.Conserve.{IsReady, opening, closing, put_frame_lem}
use os_unixvr4_labs.Message.Close.{close_frame_lem}

-- What is written before the first byte of data for `order`.
abbrev pub owed : MessageBuffer → ℕ → List ℕ
owed b order =
    if b.start_put && not (b.order == order)
    then closing b ++ message_edge ∷ escape_char order
    else opening (set_order b order)

-- The number of bytes of data that `encapsulate` has put.
abbrev pub accepted : Option ℕ → ℕ
accepted none = 0
accepted (some k) = k

encapsulate-closing :
    (b b1 : MessageBuffer) (xs : List ℕ) (o : ℕ)
    → (b.start_put && not (b.order == o)) ≡ true
    → close_frame b ≡ (true, b1)
    → encapsulate b xs o ≡ (let put = put_frame (set_order b1 o) xs in (some put.0, put.1))
unfolding encapsulate
encapsulate-closing b b1 xs o c e = rw (e, encapsulate) (rw c refl)

encapsulate-no_space :
    (b b1 : MessageBuffer) (xs : List ℕ) (o : ℕ)
    → (b.start_put && not (b.order == o)) ≡ true
    → close_frame b ≡ (false, b1)
    → encapsulate b xs o ≡ (none, b1)
unfolding encapsulate
encapsulate-no_space b b1 xs o c e = rw (e, encapsulate) (rw c refl)

encapsulate-same :
    (b : MessageBuffer) (xs : List ℕ) (o : ℕ)
    → (b.start_put && not (b.order == o)) ≡ false
    → encapsulate b xs o ≡ (let put = put_frame (set_order b o) xs in (some put.0, put.1))
unfolding encapsulate
encapsulate-same b xs o c = rw (c, encapsulate) refl

pub record Conserved (b b' : MessageBuffer) (r : Option ℕ) (xs : List ℕ) (o : ℕ) : Type 0 where
  pub ready : IsReady b'
  pub in_data : accepted r ≤ length xs
  pub text :
      stream b' ++ (owed b' o ++ escape (drop (accepted r) xs))
      ≡ stream b ++ (owed b o ++ escape xs)
  pub behind : (accepted r ≡ 0) ⊎ (owed b' o ≡ [])

set_order-order : (b : MessageBuffer) (o : ℕ) → (set_order b o).order ≡ o
unfolding set_order
set_order-order b o = ground arith

set_order-stream : (b : MessageBuffer) (o : ℕ) → stream (set_order b o) ≡ stream b
unfolding set_order
set_order-stream b o = elim (Bool-cases (b.order == o)) [ inl e ↦ rw e refl | inr e ↦ rw e refl ]

set_order-IsReady : (b : MessageBuffer) (o : ℕ) → IsReady b → IsReady (set_order b o)
unfolding set_order
set_order-IsReady b o v = elim (Bool-cases (b.order == o)) [
  | inl e ↦ rw e v
  | inr e ↦ rw e (record { valid = v.valid; closed = v.closed })
]

pub owed-same :
    (b : MessageBuffer) (o : ℕ)
    → (b.start_put && not (b.order == o)) ≡ false
    → owed b o ≡ opening (set_order b o)
owed-same b o c = rw c refl

pub owed-other :
    (b : MessageBuffer) (o : ℕ)
    → (b.start_put && not (b.order == o)) ≡ true
    → owed b o ≡ closing b ++ message_edge ∷ escape_char o
owed-other b o c = rw c refl

pub set_order-own : (b : MessageBuffer) (o : ℕ) → (b.order == o) ≡ true → set_order b o ≡ b
unfolding set_order
set_order-own b o e = rw (e, set_order) refl

-- In the frame of its own order a writer owes no more than the opening.
owed-own : (b : MessageBuffer) (o : ℕ) → b.order ≡ o → owed b o ≡ opening b
owed-own b o e =
    let s : (b.order == o) ≡ true = ground arith in
    let c : (b.start_put && not (b.order == o)) ≡ false = ground arith in
    owed-same b o c ∙ ap opening (set_order-own b o s)

text-closed :
    (s s1 c c1 d x : List ℕ) → s1 ++ c1 ≡ s ++ c → s1 ++ ((c1 ++ d) ++ x) ≡ s ++ ((c ++ d) ++ x)
text-closed s s1 c c1 d x e =
    ap (λ t. s1 ++ t) (append_assoc c1 d x)
    ∙ sym (append_assoc s1 c1 (d ++ x))
    ∙ ap (λ t. t ++ (d ++ x)) e
    ∙ append_assoc s c (d ++ x)
    ∙ ap (λ t. s ++ t) (sym (append_assoc c d x))

text-opened :
    (s s1 c d d1 x : List ℕ) → s1 ≡ s ++ c → d1 ≡ d → s1 ++ (d1 ++ x) ≡ s ++ ((c ++ d) ++ x)
text-opened s s1 c d d1 x e e1 =
    ap₂ (λ t u. t ++ (u ++ x)) e e1
    ∙ append_assoc s c (d ++ x)
    ∙ ap (λ t. s ++ t) (sym (append_assoc c d x))

-- The last part of `encapsulate`, in the frame of the order given.
frame-Conserved :
    (b b0 : MessageBuffer) (xs : List ℕ) (o : ℕ)
    → IsReady b0
    → b0.order ≡ o
    → stream b0 ++ (opening b0 ++ escape xs) ≡ stream b ++ (owed b o ++ escape xs)
    → (k : ℕ) × (b' : MessageBuffer) × (put_frame b0 xs ≡ (k, b')) × Conserved b b' (some k) xs o
frame-Conserved b b0 xs o v e i =
    let (k, b', p, s) = put_frame_lem b0 xs v in
    let own : owed b' o ≡ opening b' = owed-own b' o (s.order ∙ e) in
    (
      k,
      b',
      p,
      record {
        ready = s.ready;
        in_data = s.in_data;
        text = ap (λ t. stream b' ++ (t ++ escape (drop k xs))) own ∙ s.text ∙ i;
        behind = elim s.behind [ inl z ↦ inl z | inr z ↦ inr (own ∙ z) ];
      },
    )

pub opening-other :
    (b : MessageBuffer) (o : ℕ)
    → b.start_put ≡ false
    → (b.order == o) ≡ false
    → opening (set_order b o) ≡ message_edge ∷ escape_char o
unfolding set_order
opening-other b o s e = rw (e, set_order) (rw s refl)

-- `encapsulate` on every branch, with room or without: what it has written, what it still owes
-- before the data (the end of the frame of another order, the edge, the order), and the stuffed
-- text of the bytes that it did not accept, make up the same text after the call as before it.
-- So nothing is lost, doubled or put out of order. A byte is accepted only when nothing is owed,
-- no more bytes are accepted than there are, and the writer is ready for the next call.
pub encapsulate_lem :
    (b : MessageBuffer) (xs : List ℕ) (o : ℕ)
    → IsReady b
    → (r : Option ℕ) × (b' : MessageBuffer) × (encapsulate b xs o ≡ (r, b')) × Conserved b b' r xs o
encapsulate_lem b xs o v = elim (Bool-cases (b.start_put && not (b.order == o))) [
  | inr c ↦
      let (k, b', p, s) =
        frame-Conserved b (set_order b o) xs o (set_order-IsReady b o v) (set_order-order b o) (
          ap (λ t. t ++ (opening (set_order b o) ++ escape xs)) (set_order-stream b o)
          ∙ ap (λ t. stream b ++ (t ++ escape xs)) (sym (owed-same b o c))) in
      (some k, b', encapsulate-same b xs o c ∙ ap (λ z. (some z.0, z.1)) p, s)
  | inl c ↦
      let start : b.start_put ≡ true = ground arith in
      let differs : (b.order == o) ≡ false = ground arith in
      let (r, b1, p, s) = close_frame_lem b v start in
      elim (Bool-cases r) [
        | inr f ↦
            let c1 : (b1.start_put && not (b1.order == o)) ≡ true =
              ground (arith, s.started, s.order) in
            (
              none,
              b1,
              encapsulate-no_space b b1 xs o c (p ∙ ap (λ z. (z, b1)) f),
              record {
                ready = s.ready;
                in_data = omega arith;
                text =
                    ap (λ t. stream b1 ++ (t ++ escape xs)) (owed-other b1 o c1)
                    ∙ text-closed (stream b) (stream b1) (closing b) (closing b1)
                        (message_edge ∷ escape_char o) (escape xs) (rw f at s.text)
                    ∙ ap (λ t. stream b ++ (t ++ escape xs)) (sym (owed-other b o c));
                behind = inl refl;
              },
            )
        | inl t ↦
            let idle : b1.start_put ≡ false = ground (arith, s.started) in
            let differs1 : (b1.order == o) ≡ false = ground (arith, s.order) in
            let closed : stream (set_order b1 o) ≡ stream b ++ closing b =
              set_order-stream b1 o ∙ sym (append-nil (stream b1)) ∙ (rw t at s.text) in
            let (k, b', q, s') =
              frame-Conserved b (set_order b1 o) xs o (set_order-IsReady b1 o s.ready)
                (set_order-order b1 o)
                (text-opened (stream b) (stream (set_order b1 o)) (closing b)
                    (message_edge ∷ escape_char o) (opening (set_order b1 o)) (escape xs) closed
                    (opening-other b1 o idle differs1)
                  ∙ ap (λ t. stream b ++ (t ++ escape xs)) (sym (owed-other b o c))) in
            (
              some k,
              b',
              encapsulate-closing b b1 xs o c (p ∙ ap (λ z. (z, b1)) t)
                  ∙ ap (λ z. (some z.0, z.1)) q,
              s',
            )
      ]
]

pub init-IsReady :
    (fresh : List ℕ) (size : ℕ)
    → size ≤ max_object
    → size ≤ length fresh
    → IsReady (init_mb fresh size)
unfolding init_mb
init-IsReady fresh size m l = record { valid = init-IsValid fresh size m l; closed = λ h. refl }
