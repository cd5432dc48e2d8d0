-- ===== src/TpBuffer/Control.antt =====
-- `tpb_contol_message`: when it refuses, and what it puts into the buffer.
use os_unixvr4_labs.Common.{
  ℕ, ◌<◌, take-all, ◌+◌, ◌≤◌, ◌≡◌, refl, ap, ◌∙◌, Bool, true, false, ◌||◌, List, [], ◌∷◌, ◌++◌,
  Option, none, some, arith, length, take, Bool-cases, inl, inr, ltb, leb, if◌then◌else◌, leb→le,
  leb→lt, ==_iff, length-append, lt→ltb, ◌⊎◌,
}
use os_unixvr4_labs.Cyclic.{CyclicBuffer, cb_free_space}
use os_unixvr4_labs.Cyclic.Inv.{IsValid}
use os_unixvr4_labs.Cyclic.Contents.{contents}
use os_unixvr4_labs.TpBuffer.{
  TpBuffer, put_byte, control_order, control_length, is_order, order_code, put_event,
  tpb_contol_message,
}
use os_unixvr4_labs.TpBuffer.Frame.{put_all, all-IsValid, contents-all, opening, tpb_put_order_lem}

-- The bytes of the event `op` about the client `client`: behind another order, the marks of the
-- control order come first.
abbrev pub event_text : Option ℕ → ℕ → ℕ → List ℕ
event_text order op client =
    (if is_order order control_order then [] else opening order control_order)
    ++ op ∷ order_code client ∷ []

pub put_all-append :
    (b : CyclicBuffer) (xs ys : List ℕ) → put_all (put_all b xs) ys ≡ put_all b (xs ++ ys)
put_all-append b [] ys = refl
put_all-append b (x ∷ xs) ys = put_all-append (put_byte b x) xs ys

put_event_lem :
    (this : TpBuffer) (op client : ℕ)
    → put_event this op client
      ≡ record this { buffer = put_all this.buffer (op ∷ order_code client ∷ []) }
unfolding put_event
put_event_lem this op client = refl

pub is_order-true : (o : Option ℕ) (k : ℕ) → is_order o k ≡ true → o ≡ some k
unfolding is_order
is_order-true none k e = absurd (ground arith)
is_order-true (some p) k e = ap some ((==_iff p k).0 e)

length-opening : (o : Option ℕ) (k : ℕ) → length (opening o k) ≡ control_length o
unfolding control_length
length-opening none k = refl
length-opening (some p) k = refl

le→ltb : (a b : ℕ) → b ≤ a → ltb a b ≡ false
le→ltb a b h = ground arith

module _ (this : TpBuffer) (op client : ℕ) where
  abbrev text : List ℕ
  text = event_text this.order op client

  abbrev event_bytes : List ℕ
  event_bytes = op ∷ order_code client ∷ []

  abbrev written : TpBuffer
  written = record { buffer = put_all this.buffer text; order = some control_order }

  pub control-same :
      is_order this.order control_order ≡ true → tpb_contol_message this op client ≡ (true, written)
  unfolding tpb_contol_message
  control-same e = rw e (
      ap (λ o. (true, record { buffer = put_all this.buffer (event_bytes); order = o }))
        (is_order-true this.order control_order e))

  pub length-text :
      is_order this.order control_order ≡ false → length text ≡ 2 + control_length this.order
  length-text e = rw e (
      length-append (opening this.order control_order) event_bytes
      ∙ omega (arith, length-opening this.order control_order))

  pub control-short :
      is_order this.order control_order ≡ false
      → cb_free_space this.buffer < length text
      → tpb_contol_message this op client ≡ (false, this)
  unfolding tpb_contol_message
  control-short e h =
      rw
        (
          e,
          lt→ltb (cb_free_space this.buffer) (2 + control_length this.order)
              (omega (arith, length-text e)),
        )
        refl

  pub control-room :
      is_order this.order control_order ≡ false
      → length text ≤ cb_free_space this.buffer
      → tpb_contol_message this op client ≡ (true, written)
  unfolding tpb_contol_message
  control-room e h =
      rw
        (
          e,
          le→ltb (cb_free_space this.buffer) (2 + control_length this.order)
              (omega (arith, length-text e)),
        )
        (ap (λ t. (true, t))
          (ap (λ t. put_event t op client) (tpb_put_order_lem this control_order)
            ∙ ap (λ b. record { buffer = b; order = some control_order })
                (put_all-append this.buffer (opening this.order control_order) event_bytes)))

  -- What a call leaves.
  pub record Announced (r : Bool × TpBuffer) : Type 0 where
    pub answer :
        r.0 ≡ is_order this.order control_order || leb (length text) (cb_free_space this.buffer)
    pub refused : r.0 ≡ false → r.1 ≡ this
    pub marked : r.0 ≡ true → r.1.order ≡ some control_order
    pub cut :
        r.0 ≡ true
        → contents r.1.buffer ≡ contents this.buffer ++ take (cb_free_space this.buffer) text
    pub whole :
        length text ≤ cb_free_space this.buffer → contents r.1.buffer ≡ contents this.buffer ++ text
    pub valid : IsValid r.1.buffer

  when_written :
      IsValid this.buffer
      → (is_order this.order control_order ≡ true) ⊎ (length text ≤ cb_free_space this.buffer)
      → Announced (true, written)
  when_written v why = record {
    answer = elim why [ inl e ↦ rw e refl | inr h ↦ ground (arith, h) ];
    refused = λ e. absurd (ground arith);
    marked = λ e. refl;
    cut = λ e. contents-all text v;
    whole = λ h.
        contents-all text v
        ∙ ap (◌++◌ (contents this.buffer)) (take-all text (cb_free_space this.buffer) h);
    valid = all-IsValid text v;
  }

  when_refused :
      IsValid this.buffer
      → is_order this.order control_order ≡ false
      → cb_free_space this.buffer < length text
      → Announced (false, this)
  when_refused v e h = record {
    answer = ground (arith, e, h);
    refused = λ e'. refl;
    marked = λ e'. absurd (ground arith);
    cut = λ e'. absurd (ground arith);
    whole = λ h'. absurd (omega arith);
    valid = v;
  }

-- `tpb_contol_message` on a valid buffer: behind another order than the control order it refuses
-- exactly when the edge marks, the code and the event do not all fit, and then changes nothing;
-- where they fit it appends them whole. Behind the control order it never refuses: it appends the
-- event as far as there is room. When it answers yes the order is the control order, and the
-- buffer stays valid.
pub tpb_contol_message_lem :
    (this : TpBuffer) (op client : ℕ)
    → IsValid this.buffer
    → Announced this op client (tpb_contol_message this op client)
tpb_contol_message_lem this op client v = elim (Bool-cases (is_order this.order control_order)) [
  | inl e ↦ rw (control-same this op client e) (when_written this op client v (inl e))
  | inr e ↦
      elim (Bool-cases
        (leb (length (event_text this.order op client)) (cb_free_space this.buffer))) [
          | inl h ↦
              rw (control-room this op client e (leb→le _ _ h))
                (when_written this op client v (inr (leb→le _ _ h)))
          | inr h ↦
              rw (control-short this op client e (leb→lt _ _ h))
                (when_refused this op client v e (leb→lt _ _ h))
        ]
]
