-- ===== src/Message/Conserve.antt =====
-- The part of `encapsulate` from `put_start` on: the opening of a frame and its data.
use os_unixvr4_labs.Common.{
  ℕ, ◌≤◌, ◌≡◌, ◌⊎◌, inl, inr, refl, sym, ap, ◌∙◌, Bool, true, false, not, List, [], ◌∷◌, ◌++◌,
  arith, length, take, drop, append-nil, append_assoc, Bool-cases, take-append-drop,
}
use os_unixvr4_labs.Protocol.{message_edge}
use os_unixvr4_labs.Protocol.Escape.{escape_char, escape, escape-append}
use os_unixvr4_labs.IoBuffer.{IoBuffer}
use os_unixvr4_labs.IoBuffer.Inv.{IsValid}
use os_unixvr4_labs.IoBuffer.Items.{items}
use os_unixvr4_labs.Message.{MessageBuffer, put_start, put_order, put_chars, put_frame}
use os_unixvr4_labs.Message.Stream.{stream, waiting, if_put, with_bytes}
use os_unixvr4_labs.Message.Put.{put_start_lem, put_order_lem, put_chars_lem}

-- A writer between two calls of `encapsulate`.
pub record IsReady (b : MessageBuffer) : Type 0 where
  pub valid : IsValid b.message
  pub closed : b.start_put ≡ false → b.escape ≡ false

-- The edge and the order that are still to be put before the data of the order of `b`.
abbrev pub opening : MessageBuffer → List ℕ
opening b =
    if_put (not b.start_put) (message_edge ∷ []) ++ if_put (not b.order_put) (escape_char b.order)

-- The same for the end of the frame of `b`.
abbrev pub closing : MessageBuffer → List ℕ
closing b = if_put (not b.order_put) (escape_char b.order) ++ message_edge ∷ []

-- The step of a writer that puts `k` bytes of `xs` in the frame of its order.
pub record FrameStep (b b' : MessageBuffer) (k : ℕ) (xs : List ℕ) : Type 0 where
  pub ready : IsReady b'
  pub order : b'.order ≡ b.order
  pub in_data : k ≤ length xs
  pub text : stream b' ++ (opening b' ++ escape (drop k xs)) ≡ stream b ++ (opening b ++ escape xs)
  pub behind : (k ≡ 0) ⊎ (opening b' ≡ [])

pub text-kept : (s s1 p x : List ℕ) → s1 ≡ s ++ [] → s1 ++ (p ++ x) ≡ s ++ (p ++ x)
text-kept s s1 p x e = ap (λ t. t ++ (p ++ x)) (e ∙ append-nil s)

text-started :
    (s s1 s2 a o x : List ℕ) → s1 ≡ s ++ a → s2 ≡ s1 ++ [] → s2 ++ (o ++ x) ≡ s ++ ((a ++ o) ++ x)
text-started s s1 s2 a o x e e2 =
    ap (λ t. t ++ (o ++ x)) (e2 ∙ append-nil s1 ∙ e)
    ∙ append_assoc s a (o ++ x)
    ∙ ap (λ t. s ++ t) (sym (append_assoc a o x))

text-moved :
    (s s1 s2 s3 a o y z : List ℕ)
    → s1 ≡ s ++ a
    → s2 ≡ s1 ++ o
    → s3 ≡ s2 ++ y
    → s3 ++ z ≡ s ++ ((a ++ o) ++ (y ++ z))
text-moved s s1 s2 s3 a o y z e e2 e3 =
    ap (λ t. t ++ z) (e3 ∙ ap (λ t. t ++ y) (e2 ∙ ap (λ t. t ++ o) e ∙ append_assoc s a o))
    ∙ append_assoc (s ++ (a ++ o)) y z
    ∙ append_assoc s (a ++ o) (y ++ z)

escape-split : (k : ℕ) (xs : List ℕ) → escape (take k xs) ++ escape (drop k xs) ≡ escape xs
escape-split k xs = sym (escape-append (take k xs) (drop k xs)) ∙ ap escape (take-append-drop k xs)

put_frame-no_start :
    (b b' : MessageBuffer) (xs : List ℕ) → put_start b ≡ (false, b') → put_frame b xs ≡ (0, b')
unfolding put_frame
put_frame-no_start b b' xs e = rw (e, put_frame) refl

put_frame-no_order :
    (b b1 b' : MessageBuffer) (xs : List ℕ)
    → put_start b ≡ (true, b1)
    → put_order b1 ≡ (false, b')
    → put_frame b xs ≡ (0, b')
unfolding put_frame
put_frame-no_order b b1 b' xs e e' = rw (e, put_frame) (rw e' refl)

put_frame-data :
    (b b1 b' : MessageBuffer) (xs : List ℕ)
    → put_start b ≡ (true, b1)
    → put_order b1 ≡ (true, b')
    → put_frame b xs ≡ put_chars b' xs
unfolding put_frame
put_frame-data b b1 b' xs e e' = rw (e, put_frame) (rw e' refl)

-- Once the edge and the order are put, the data follows.
data-FrameStep :
    (b : MessageBuffer) (xs : List ℕ) (m1 m2 : IoBuffer) (e : Bool) (w : ℕ)
    → IsValid m2
    → items m1 ++ waiting b.escape b.escaped_char
      ≡ stream b ++ if_put (not b.start_put) (message_edge ∷ [])
    → items m2 ++ waiting e w
      ≡ (items m1 ++ waiting b.escape b.escaped_char)
        ++ if_put (not b.order_put) (escape_char b.order)
    → (k : ℕ) × (b' : MessageBuffer) × (put_chars
          (record b {
            message = m2;
            escape = e;
            escaped_char = w;
            start_put = true;
            order_put = true;
          })
          xs
        ≡ (k, b'))
      × FrameStep b b' k xs
data-FrameStep b xs m1 m2 e w v i1 i2 =
    let b2 : MessageBuffer = record b {
      message = m2;
      escape = e;
      escaped_char = w;
      start_put = true;
      order_put = true;
    } in
    let (k, m3, e3, w3, q, v3, i3, l) = put_chars_lem b2 xs v in
    (
      k,
      with_bytes b2 m3 e3 w3,
      q,
      record {
        ready = record { valid = v3; closed = λ h. absurd (ground arith) };
        order = refl;
        in_data = l;
        text =
            text-moved (stream b) (items m1 ++ waiting b.escape b.escaped_char)
              (items m2 ++ waiting e w) (items m3 ++ waiting e3 w3)
              (if_put (not b.start_put) (message_edge ∷ []))
              (if_put (not b.order_put) (escape_char b.order)) (escape (take k xs))
              (escape (drop k xs)) i1 i2 i3
            ∙ ap (λ t. stream b ++ (opening b ++ t)) (escape-split k xs);
        behind = inr refl;
      },
    )

pub put_frame_lem :
    (b : MessageBuffer) (xs : List ℕ)
    → IsReady b
    → (k : ℕ) × (b' : MessageBuffer) × (put_frame b xs ≡ (k, b')) × FrameStep b b' k xs
put_frame_lem b xs ready =
    let (r1, m1, p1, v1, i1, s1) = put_start_lem b ready.valid ready.closed in
    elim (Bool-cases r1) [
      | inr f1 ↦
          let started : b.start_put ≡ false = ground (arith) in
          (
            0,
            record b { message = m1; start_put = false },
            put_frame-no_start b _ xs
                (p1 ∙ ap (λ z. (z, record b { message = m1; start_put = z })) f1),
            record {
              ready = record { valid = v1; closed = λ h. ready.closed started };
              order = refl;
              in_data = omega arith;
              text =
                  ap
                    (λ z.
                      (items m1 ++ waiting b.escape b.escaped_char)
                      ++ ((if_put (not z) (message_edge ∷ [])
                            ++ if_put (not b.order_put) (escape_char b.order))
                          ++ escape xs))
                    (sym started)
                  ∙ text-kept (stream b) (items m1 ++ waiting b.escape b.escaped_char) (opening b)
                      (escape xs) (rw f1 at i1);
              behind = inl refl;
            },
          )
      | inl t1 ↦
          let b1 : MessageBuffer = record b { message = m1; start_put = true } in
          let p1' : put_start b ≡ (true, b1) =
            p1 ∙ ap (λ z. (z, record b { message = m1; start_put = z })) t1 in
          let i1' : stream b1 ≡ stream b ++ if_put (not b.start_put) (message_edge ∷ []) =
            (rw t1 at i1) in
          let (r2, m2, e2, w2, p2, v2, i2, s2) = put_order_lem b1 v1 in
          elim (Bool-cases r2) [
            | inr f2 ↦
                let unordered : b.order_put ≡ false = ground (arith) in
                (
                  0,
                  record (with_bytes b1 m2 e2 w2) { order_put = false },
                  put_frame-no_order b b1 _ xs p1'
                      (p2 ∙ ap (λ z. (z, record (with_bytes b1 m2 e2 w2) { order_put = z })) f2),
                  record {
                    ready = record { valid = v2; closed = λ h. absurd (ground arith) };
                    order = refl;
                    in_data = omega arith;
                    text =
                        ap
                          (λ z.
                            (items m2 ++ waiting e2 w2)
                            ++ (if_put (not z) (escape_char b.order) ++ escape xs))
                          (sym unordered)
                        ∙ text-started (stream b) (stream b1) (items m2 ++ waiting e2 w2)
                            (if_put (not b.start_put) (message_edge ∷ []))
                            (if_put (not b.order_put) (escape_char b.order)) (escape xs) i1'
                            (rw f2 at i2);
                    behind = inl refl;
                  },
                )
            | inl t2 ↦
                let (k, b', q, s) = data-FrameStep b xs m1 m2 e2 w2 v2 i1' (rw t2 at i2) in
                (
                  k,
                  b',
                  put_frame-data b b1 _ xs p1'
                        (p2 ∙ ap (λ z. (z, record (with_bytes b1 m2 e2 w2) { order_put = z })) t2)
                      ∙ q,
                  s,
                )
          ]
    ]
