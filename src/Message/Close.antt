-- ===== src/Message/Close.antt =====
-- The block of `encapsulate` that closes the frame of another order.
use os_unixvr4_labs.Common.{
  ◌≡◌, inl, inr, refl, sym, ap, ◌∙◌, Bool, true, false, not, [], ◌∷◌, ◌++◌, arith, append-nil,
  append_assoc, Bool-cases,
}
use os_unixvr4_labs.Protocol.{message_edge}
use os_unixvr4_labs.Protocol.Escape.{escape_char}
use os_unixvr4_labs.IoBuffer.Inv.{IsValid}
use os_unixvr4_labs.IoBuffer.Items.{items}
use os_unixvr4_labs.Message.{MessageBuffer, put_escaped_char, put_order, close_frame, try_put}
use os_unixvr4_labs.Message.Stream.{
  stream, waiting, if_put, with_bytes, try_put_lem, put_escaped_char_lem,
}
use os_unixvr4_labs.Message.Put.{flushed_as, put_order_lem}
use os_unixvr4_labs.Message.Conserve.{IsReady, closing, text-kept}

-- What `close_frame` does: the text of the end of the frame, or a part of it.
pub record CloseStep (b b' : MessageBuffer) (r : Bool) : Type 0 where
  pub ready : IsReady b'
  pub order : b'.order ≡ b.order
  pub started : b'.start_put ≡ not r
  pub text : stream b' ++ if_put (not r) (closing b') ≡ stream b ++ closing b

close_frame-no_order :
    (b b' : MessageBuffer) → put_order b ≡ (false, b') → close_frame b ≡ (false, b')
unfolding close_frame
close_frame-no_order b b' e = rw (e, close_frame) refl

close_frame-no_flush :
    (b b1 b' : MessageBuffer)
    → put_order b ≡ (true, b1)
    → put_escaped_char b1 ≡ (false, b')
    → close_frame b ≡ (false, b')
unfolding close_frame
close_frame-no_flush b b1 b' e e2 = rw (e, close_frame) (rw e2 refl)

close_frame-no_edge :
    (b b1 b2 b' : MessageBuffer)
    → put_order b ≡ (true, b1)
    → put_escaped_char b1 ≡ (true, b2)
    → try_put b2 message_edge ≡ (false, b')
    → close_frame b ≡ (false, b')
unfolding close_frame
close_frame-no_edge b b1 b2 b' e e2 e3 = rw (e, close_frame) (rw e2 (rw e3 refl))

close_frame-edge :
    (b b1 b2 b' : MessageBuffer)
    → put_order b ≡ (true, b1)
    → put_escaped_char b1 ≡ (true, b2)
    → try_put b2 message_edge ≡ (true, b')
    → close_frame b ≡ (true, record b' { start_put = false })
unfolding close_frame
close_frame-edge b b1 b2 b' e e2 e3 = rw (e, close_frame) (rw e2 (rw e3 refl))

-- The end of a frame whose order is put.
ordered-CloseStep :
    (b b1 : MessageBuffer)
    → put_order b ≡ (true, b1)
    → IsValid b1.message
    → b1.order ≡ b.order
    → b1.start_put ≡ true
    → b1.order_put ≡ true
    → stream b1 ≡ stream b ++ if_put (not b.order_put) (escape_char b.order)
    → (r : Bool) × (b' : MessageBuffer) × (close_frame b ≡ (r, b')) × CloseStep b b' r
ordered-CloseStep b b1 p v o s op i =
    let done : stream b1 ++ message_edge ∷ [] ≡ stream b ++ closing b =
      ap (λ t. t ++ message_edge ∷ []) i
      ∙ append_assoc (stream b) (if_put (not b.order_put) (escape_char b.order))
          (message_edge ∷ []) in
    elim (put_escaped_char_lem b1 v) [
      | inl (e, p2) ↦ (
        false,
        b1,
        close_frame-no_flush b b1 b1 p p2,
        record {
          ready = record { valid = v; closed = λ h. absurd (ground arith) };
          order = o;
          started = s;
          text =
              ap (λ z. stream b1 ++ (if_put (not z) (escape_char b1.order) ++ message_edge ∷ [])) op
              ∙ done;
        },
      )
      | inr (m, p2, v2, i2) ↦ elim (try_put_lem (flushed_as b1 m) message_edge v2) [
        | inl p3 ↦ (
          false,
          flushed_as b1 m,
          close_frame-no_edge b b1 (flushed_as b1 m) (flushed_as b1 m) p p2 p3,
          record {
            ready = record { valid = v2; closed = λ h. refl };
            order = o;
            started = s;
            text =
                ap
                  (λ z.
                    (items m ++ []) ++ (if_put (not z) (escape_char b1.order) ++ message_edge ∷ []))
                  op
                ∙ ap (λ t. t ++ message_edge ∷ []) (append-nil (items m) ∙ i2)
                ∙ done;
          },
        )
        | inr (m3, p3, v3, i3) ↦ (
          true,
          record (flushed_as b1 m) { message = m3; start_put = false },
          close_frame-edge b b1 (flushed_as b1 m) (record (flushed_as b1 m) { message = m3 }) p p2
              p3,
          record {
            ready = record { valid = v3; closed = λ h. refl };
            order = o;
            started = refl;
            text =
                append-nil (items m3 ++ [])
                ∙ append-nil (items m3)
                ∙ i3
                ∙ ap (λ t. t ++ message_edge ∷ []) i2
                ∙ done;
          },
        )
      ]
    ]

pub close_frame_lem :
    (b : MessageBuffer)
    → IsReady b
    → b.start_put ≡ true
    → (r : Bool) × (b' : MessageBuffer) × (close_frame b ≡ (r, b')) × CloseStep b b' r
close_frame_lem b ready s =
    let (r, m, e, w, p, v, i, o) = put_order_lem b ready.valid in
    elim (Bool-cases r) [
      | inr f ↦
          let unordered : b.order_put ≡ false = ground (arith) in
          (
            false,
            record (with_bytes b m e w) { order_put = false },
            close_frame-no_order b _
                (p ∙ ap (λ z. (z, record (with_bytes b m e w) { order_put = z })) f),
            record {
              ready = record { valid = v; closed = λ h. absurd (ground arith) };
              order = refl;
              started = s;
              text =
                  ap
                    (λ z.
                      (items m ++ waiting e w)
                      ++ (if_put (not z) (escape_char b.order) ++ message_edge ∷ []))
                    (sym unordered)
                  ∙ text-kept (stream b) (items m ++ waiting e w)
                      (if_put (not b.order_put) (escape_char b.order)) (message_edge ∷ [])
                      (rw f at i);
            },
          )
      | inl t ↦
          ordered-CloseStep b (record (with_bytes b m e w) { order_put = true })
            (p ∙ ap (λ z. (z, record (with_bytes b m e w) { order_put = z })) t) v refl s refl
            (rw t at i)
    ]
