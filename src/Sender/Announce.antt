-- ===== src/Sender/Announce.antt =====
-- `process_added`: the clients added since the last message are announced, all of them or none.
use os_unixvr4_labs.Common.{
  ℕ, suc, ◌+◌, ◌≡◌, refl, sym, ap, ◌∙◌, Bool, true, false, not, ◌&&◌, List, [], ◌∷◌, ◌++◌, Option,
  some, arith, length, take, drop, Bool-cases, inl, inr, ltb, if◌then◌else◌, ltb→lt, ltb→le,
  append_assoc, append-nil,
}
use mathlib.Core.Bool.{true≢false}
use os_unixvr4_labs.Cyclic.{CyclicBuffer, cb_free_space, cb_skip}
use os_unixvr4_labs.Cyclic.Inv.{IsValid, skip-IsValid}
use os_unixvr4_labs.Cyclic.Contents.{contents, contents-skip, length-contents}
use os_unixvr4_labs.TpBuffer.{
  TpBuffer, event_message_length, control_order, control_length, is_order, order_code, client_add,
  tpb_contol_message,
}
use os_unixvr4_labs.TpBuffer.Frame.{put_all, all-IsValid, contents-all, opening, take_nil}
use os_unixvr4_labs.TpBuffer.Control.{
  event_text, put_all-append, control-same, control-short, control-room, length-text,
}
use os_unixvr4_labs.Sender.Tunnel.{TunnelServer, with_added, process_added}
use os_unixvr4_labs.Sender.Rest.{
  peek_none, peek_some, announcements, controlling, added-end, added-next, added-stop,
  announce_rest,
}

-- The whole message: the marks of the control order where they are missing, and the events.
abbrev pub message : Option ℕ → List ℕ → List ℕ
message order [] = []
message order (id ∷ ids) =
    (if is_order order control_order then [] else opening order control_order)
    ++ announcements (id ∷ ids)

-- There is a client to announce, and no room for the marks and the first event.
abbrev pub is_short : TpBuffer → List ℕ → Bool
is_short tpb [] = false
is_short tpb (id ∷ ids) =
    not (is_order tpb.order control_order)
    && ltb (cb_free_space tpb.buffer) (event_message_length + control_length tpb.order)

module _ (this : TunnelServer) where
  -- What is left when every client has been announced.
  pub record Announced (r : Option (Bool × TunnelServer)) : Type 0 where
    pub tpb : TpBuffer
    pub queue : CyclicBuffer
    pub ends : r ≡ some (true, with_added this tpb queue)
    pub taken : contents queue ≡ []
    pub text :
        contents tpb.buffer
        ≡ contents this.tunnel_tpb.buffer
          ++ take
              (cb_free_space this.tunnel_tpb.buffer)
              (message this.tunnel_tpb.order (contents this.add_queue))
    pub tpb_valid : IsValid tpb.buffer
    pub queue_valid : IsValid queue

  first-some :
      (id : ℕ) (ids : List ℕ)
      → is_short this.tunnel_tpb (id ∷ ids) ≡ false
      → tpb_contol_message this.tunnel_tpb client_add id ≡ (
        true,
        controlling
            (put_all this.tunnel_tpb.buffer (event_text this.tunnel_tpb.order client_add id)),
      )
  first-some id ids e = elim (Bool-cases (is_order this.tunnel_tpb.order control_order)) [
    | inl same ↦ control-same this.tunnel_tpb client_add id same
    | inr other ↦
        control-room this.tunnel_tpb client_add id other (
          omega
            (arith, length-text this.tunnel_tpb client_add id other, ltb→le _ _ (rw other at e)))
  ]

  first-none :
      (id : ℕ) (ids : List ℕ)
      → is_short this.tunnel_tpb (id ∷ ids) ≡ true
      → tpb_contol_message this.tunnel_tpb client_add id ≡ (false, this.tunnel_tpb)
  first-none id ids e = elim (Bool-cases (is_order this.tunnel_tpb.order control_order)) [
    | inl same ↦ absurd (true≢false (sym e ∙ rw same refl))
    | inr other ↦
        control-short this.tunnel_tpb client_add id other (
          omega
            (arith, length-text this.tunnel_tpb client_add id other, ltb→lt _ _ (rw other at e)))
  ]

  message-cons :
      (order : Option ℕ) (id : ℕ) (ids : List ℕ)
      → event_text order client_add id ++ announcements ids ≡ message order (id ∷ ids)
  message-cons order id ids = append_assoc _ (client_add ∷ order_code id ∷ []) (announcements ids)

  announced :
      (ids : List ℕ)
      → IsValid this.tunnel_tpb.buffer
      → IsValid this.add_queue
      → contents this.add_queue ≡ ids
      → is_short this.tunnel_tpb ids ≡ false
      → Announced (process_added (suc this.add_queue.count) this)
  unfolding with_added
  announced [] vt vq e s = record {
    tpb = this.tunnel_tpb;
    queue = this.add_queue;
    ends = added-end this.add_queue.count this (peek_none vq e);
    taken = e;
    text =
        sym (append-nil (contents this.tunnel_tpb.buffer))
        ∙ ap (λ x. contents this.tunnel_tpb.buffer ++ x)
            (sym (take_nil (cb_free_space this.tunnel_tpb.buffer)))
        ∙ ap
            (λ x.
              contents this.tunnel_tpb.buffer
              ++ take (cb_free_space this.tunnel_tpb.buffer) (message this.tunnel_tpb.order x))
            (sym e);
    tpb_valid = vt;
    queue_valid = vq;
  }
  announced (id ∷ ids) vt vq e s =
      let b : CyclicBuffer =
        put_all this.tunnel_tpb.buffer (event_text this.tunnel_tpb.order client_add id) in
      let (q, r, c, w) =
        announce_rest this.add_queue.count
          (with_added this (controlling b) (cb_skip this.add_queue 1)) b ids (skip-IsValid 1 vq)
          (contents-skip 1 vq ∙ ap (drop 1) e)
          (omega (arith, ap length e, length-contents this.add_queue)) refl in
      record {
        tpb = controlling (put_all b (announcements ids));
        queue = q;
        ends =
            added-next this.add_queue.count this id (controlling b) (peek_some id ids vq e)
              (first-some id ids s)
            ∙ r;
        taken = c;
        text =
            ap contents (
              put_all-append this.tunnel_tpb.buffer (event_text this.tunnel_tpb.order client_add id)
                (announcements ids)
              ∙ ap (put_all this.tunnel_tpb.buffer) (message-cons this.tunnel_tpb.order id ids))
            ∙ contents-all (message this.tunnel_tpb.order (id ∷ ids)) vt
            ∙ ap
                (λ x.
                  contents this.tunnel_tpb.buffer
                  ++ take (cb_free_space this.tunnel_tpb.buffer) (message this.tunnel_tpb.order x))
                (sym e);
        tpb_valid =
            all-IsValid (announcements ids)
              (all-IsValid (event_text this.tunnel_tpb.order client_add id) vt);
        queue_valid = w;
      }

  refused :
      (ids : List ℕ)
      → IsValid this.add_queue
      → contents this.add_queue ≡ ids
      → is_short this.tunnel_tpb ids ≡ true
      → process_added (suc this.add_queue.count) this ≡ some (false, this)
  refused [] vq e s = absurd (ground (arith, s))
  refused (id ∷ ids) vq e s =
      added-stop this.add_queue.count this id (peek_some id ids vq e) (first-none id ids s)

-- `process_added` ends after at most one round more than clients wait, and announces all of them
-- or none. When the buffer for the tunnel is behind another order and has no room for the edge
-- marks, the code and the first event, the call answers no and changes nothing. Otherwise it
-- answers yes, the queue is empty, and the marks (where the order was another) and one event for
-- each client, in the order in which they were added, are appended as far as there is room: the
-- events that do not fit are lost. Both buffers stay valid.
pub process_added_lem :
    (this : TunnelServer)
    → IsValid this.tunnel_tpb.buffer
    → IsValid this.add_queue
    → (is_short this.tunnel_tpb (contents this.add_queue) ≡ true
        → process_added (suc this.add_queue.count) this ≡ some (false, this))
      × (is_short this.tunnel_tpb (contents this.add_queue) ≡ false
          → Announced this (process_added (suc this.add_queue.count) this))
process_added_lem this vt vq = (
  refused this (contents this.add_queue) vq refl,
  announced this (contents this.add_queue) vt vq refl,
)
