-- ===== src/Sender/Rest.antt =====
-- The rounds of `process_added` behind the first event.
use os_unixvr4_labs.Common.{
  ℕ, zero, suc, ◌<◌, ◌≡◌, refl, ap, ◌∙◌, true, false, List, [], ◌∷◌, none, some, arith, length,
  drop,
}
use os_unixvr4_labs.Cyclic.{CyclicBuffer, cb_peek, cb_skip}
use os_unixvr4_labs.Cyclic.Inv.{IsValid, skip-IsValid}
use os_unixvr4_labs.Cyclic.Contents.{contents, contents-skip}
use os_unixvr4_labs.Cyclic.Queue
use os_unixvr4_labs.Cyclic.Refine.{peek_lem}
use os_unixvr4_labs.TpBuffer.{
  TpBuffer, control_order, is_order, order_code, client_add, tpb_contol_message,
}
use os_unixvr4_labs.TpBuffer.Frame.{put_all}
use os_unixvr4_labs.TpBuffer.Control.{control-same}
use os_unixvr4_labs.Sender.Tunnel.{TunnelServer, with_added, process_added}

pub peek_none : {b : CyclicBuffer} → IsValid b → contents b ≡ [] → cb_peek b ≡ none
unfolding Queue.front
peek_none v e = ground (arith, peek_lem v)

pub peek_some :
    {b : CyclicBuffer} (x : ℕ) (xs : List ℕ) → IsValid b → contents b ≡ x ∷ xs → cb_peek b ≡ some x
unfolding Queue.front
peek_some x xs v e = ground (arith, peek_lem v)

-- The events that announce clients.
abbrev pub announcements : List ℕ → List ℕ
announcements [] = []
announcements (id ∷ ids) = client_add ∷ order_code id ∷ announcements ids

-- A buffer behind the control order.
abbrev pub controlling : CyclicBuffer → TpBuffer
controlling b = record { buffer = b; order = some control_order }

pub added-end :
    (fuel : ℕ) (this : TunnelServer)
    → cb_peek this.add_queue ≡ none
    → process_added (suc fuel) this ≡ some (true, this)
unfolding process_added
added-end fuel this e = rw (e, process_added) refl

pub added-next :
    (fuel : ℕ) (this : TunnelServer) (id : ℕ) (t : TpBuffer)
    → cb_peek this.add_queue ≡ some id
    → tpb_contol_message this.tunnel_tpb client_add id ≡ (true, t)
    → process_added (suc fuel) this
      ≡ process_added fuel (with_added this t (cb_skip this.add_queue 1))
unfolding process_added
added-next fuel this id t e r = rw (e, process_added) (rw (r, process_added) refl)

pub added-stop :
    (fuel : ℕ) (this : TunnelServer) (id : ℕ)
    → cb_peek this.add_queue ≡ some id
    → tpb_contol_message this.tunnel_tpb client_add id ≡ (false, this.tunnel_tpb)
    → process_added (suc fuel) this ≡ some (false, this)
unfolding process_added with_added
added-stop fuel this id e r = rw (e, process_added) (rw (r, process_added) refl)

control-controlling :
    (b : CyclicBuffer) (id : ℕ)
    → tpb_contol_message (controlling b) client_add id
      ≡ (true, controlling (put_all b (client_add ∷ order_code id ∷ [])))
unfolding is_order
control-controlling b id = control-same (controlling b) client_add id refl

-- Behind the control order every client is announced, whatever room there is.
pub announce_rest :
    (fuel : ℕ) (this : TunnelServer) (b : CyclicBuffer) (ids : List ℕ)
    → IsValid this.add_queue
    → contents this.add_queue ≡ ids
    → length ids < fuel
    → this.tunnel_tpb ≡ controlling b
    → (q : CyclicBuffer) × (process_added fuel this
        ≡ some (true, with_added this (controlling (put_all b (announcements ids))) q))
      × (contents q ≡ [])
      × IsValid q
unfolding with_added
announce_rest zero this b ids v e f t = absurd (omega arith)
announce_rest (suc fuel) this b [] v e f t = (
  this.add_queue,
  added-end fuel this (peek_none v e) ∙ ap (λ x. some (true, with_added this x this.add_queue)) t,
  e,
  v,
)
announce_rest (suc fuel) this b (id ∷ ids) v e f t =
    let b' : CyclicBuffer = put_all b (client_add ∷ order_code id ∷ []) in
    let next : TunnelServer = with_added this (controlling b') (cb_skip this.add_queue 1) in
    let (q, r, c, w) =
      announce_rest fuel next b' ids (skip-IsValid 1 v) (contents-skip 1 v ∙ ap (drop 1) e)
        (omega arith) refl in
    (
      q,
      added-next fuel this id (controlling b') (peek_some id ids v e)
            (ap (λ x. tpb_contol_message x client_add id) t ∙ control-controlling b id)
          ∙ r,
      c,
      w,
    )
