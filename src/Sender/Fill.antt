-- ===== src/Sender/Fill.antt =====
-- `fill_message` ends, and keeps what the main loop keeps.
use os_unixvr4_labs.Common.{
  ℕ, zero, suc, ◌+◌, ◌≤◌, ◌<◌, ◌≡◌, refl, sym, ◌∙◌, subst, Bool, true, false, List, Option, some,
  arith, Bool-cases, inl, inr, ltb, ltb→lt, sub_size,
}
use os_unixvr4_labs.Cyclic.Inv.{IsValid}
use os_unixvr4_labs.Cyclic.Contents.{contents}
use os_unixvr4_labs.TpBuffer.{TpBuffer, client_remove, tpb_contol_message, tpb_encapsulate}
use os_unixvr4_labs.TpBuffer.Control.{tpb_contol_message_lem}
use os_unixvr4_labs.TpBuffer.Calls.{refuses, tpb_encapsulate_lem}
use os_unixvr4_labs.Sender.Tunnel.{
  TunnelServer, is_kept, drop_removed, removed_from, process_empty_removed, process_added,
  with_added,
}
use os_unixvr4_labs.Sender.Announce.{is_short, process_added_lem}
use os_unixvr4_labs.Sender.Rounds.{Outcome, done, overrun, reads_outside, to_send, Lengths}
use os_unixvr4_labs.Sender.Kept.{IsKept, actual_remove-IsKept}

-- The end of a part of the loop: a state in which everything is kept, or a read outside a client's
-- array that such a state leads to.
pub data Ends (r : Outcome) : Type 0 where
  ended_in : (state : TunnelServer) → r ≡ done state → IsKept state → Ends r
  ran_over :
      (lengths : Lengths) (state : TunnelServer) (i : ℕ)
      → r ≡ overrun lengths state i
      → reads_outside lengths state i (to_send state i) ≡ true
      → IsKept state
      → Ends r

pub record Answers (r : Option (Bool × TunnelServer)) : Type 0 where
  pub answer : Bool
  pub state : TunnelServer
  pub ends : r ≡ some (answer, state)
  pub kept : IsKept state

pub with_tpb-IsKept :
    {this : TunnelServer} (tpb : TpBuffer)
    → IsKept this
    → IsValid tpb.buffer
    → IsKept (record this { tunnel_tpb = tpb })
with_tpb-IsKept tpb v t = record {
  tpb = t;
  queue = v.queue;
  table = v.table;
  counted = v.counted;
  counts = v.counts;
}

control-IsValid :
    {this : TunnelServer} (op id : ℕ)
    → IsKept this
    → IsValid ((tpb_contol_message this.tunnel_tpb op id).1.buffer)
control-IsValid {this} op id v = (tpb_contol_message_lem this.tunnel_tpb op id v.tpb).valid

pub encapsulate-IsValid :
    (first : ℕ) (garbage : ℕ → ℕ) (tpb : TpBuffer) (bytes : List ℕ) (order : ℕ)
    → IsValid tpb.buffer
    → IsValid ((tpb_encapsulate first garbage tpb bytes order).1.buffer)
encapsulate-IsValid first garbage tpb bytes order v =
    let p = tpb_encapsulate_lem first garbage tpb bytes order v in
    elim (Bool-cases (refuses first tpb order)) [
      | inl e ↦ subst (λ (r : ℕ × TpBuffer). IsValid r.1.buffer) (sym (p.0 e)) v
      | inr e ↦ (p.1 e).stuffed.valid
    ]

module _ (fuel : ℕ) (this : TunnelServer) (i : ℕ) where
  abbrev number : ℕ
  number = this.list.id_table i

  abbrev told : Bool × TpBuffer
  told = tpb_contol_message this.tunnel_tpb client_remove number

  removed-over :
      ltb i this.list.client_count ≡ false → removed_from (suc fuel) this i ≡ some (true, this)
  unfolding removed_from
  removed-over e = rw (e, removed_from) refl

  removed-kept :
      ltb i this.list.client_count ≡ true
      → is_kept this number ≡ true
      → removed_from (suc fuel) this i ≡ removed_from fuel this (i + 1)
  unfolding removed_from
  removed-kept e k = rw (e, removed_from) (rw (k, removed_from) refl)

  removed-refused :
      ltb i this.list.client_count ≡ true
      → is_kept this number ≡ false
      → told.0 ≡ false
      → removed_from (suc fuel) this i ≡ some (false, record this { tunnel_tpb = told.1 })
  unfolding removed_from
  removed-refused e k a = rw (e, removed_from) (rw (k, removed_from) (rw (a, removed_from) refl))

  removed-dropped :
      (next : TunnelServer)
      → ltb i this.list.client_count ≡ true
      → is_kept this number ≡ false
      → told.0 ≡ true
      → drop_removed this told.1 number ≡ some next
      → removed_from (suc fuel) this i ≡ removed_from fuel next i
  unfolding removed_from
  removed-dropped next e k a d =
      rw (e, removed_from) (rw (k, removed_from) (rw (a, removed_from) (rw (d, removed_from) refl)))

drop_removed-IsKept :
    {this : TunnelServer} (tpb : TpBuffer) (id : ℕ)
    → IsKept this
    → IsValid tpb.buffer
    → (t : TunnelServer) × (drop_removed this tpb id ≡ some t)
      × IsKept t
      × (t.list.client_count ≡ sub_size this.list.client_count 1)
unfolding drop_removed
drop_removed-IsKept tpb id v t =
    actual_remove-IsKept id
      (record { tpb = t; queue = v.queue; table = v.table; counted = v.counted; counts = v.counts })

answered : {r s : Option (Bool × TunnelServer)} → r ≡ s → Answers s → Answers r
answered e a = record { answer = a.answer; state = a.state; ends = e ∙ a.ends; kept = a.kept }

-- Each round goes one client on or takes one from the count.
removed_from-Answers :
    (fuel : ℕ) (this : TunnelServer) (i : ℕ)
    → IsKept this
    → this.list.client_count < fuel + i
    → i ≤ this.list.client_count
    → Answers (removed_from fuel this i)
removed_from-Answers zero this i v f l = absurd (omega arith)
removed_from-Answers (suc fuel) this i v f l = elim (Bool-cases (ltb i this.list.client_count)) [
  | inr e ↦ record { answer = true; state = this; ends = removed-over fuel this i e; kept = v }
  | inl e ↦ elim (Bool-cases (is_kept this (this.list.id_table i))) [
    | inl k ↦
        answered (removed-kept fuel this i e k)
          (removed_from-Answers fuel this (i + 1) v (omega arith) (omega (arith, ltb→lt _ _ e)))
    | inr k ↦ elim (Bool-cases (told fuel this i).0) [
      | inr a ↦ record {
        answer = false;
        state = record this { tunnel_tpb = (told fuel this i).1 };
        ends = removed-refused fuel this i e k a;
        kept = with_tpb-IsKept (told fuel this i).1 v (control-IsValid client_remove _ v);
      }
      | inl a ↦
          let (t, d, w, c) =
            drop_removed-IsKept (told fuel this i).1 (this.list.id_table i) v
              (control-IsValid client_remove _ v) in
          answered (removed-dropped fuel this i t e k a d) (
            removed_from-Answers fuel t i w (omega (arith, c, v.counted, ltb→lt _ _ e))
              (omega (arith, c, v.counted, ltb→lt _ _ e)))
    ]
  ]
]

pub empty_removed-Answers :
    (this : TunnelServer) → IsKept this → Answers (process_empty_removed this)
unfolding process_empty_removed
empty_removed-Answers this v =
    removed_from-Answers (suc this.list.client_count) this 0 v (omega arith) (omega arith)

pub added-Answers :
    (this : TunnelServer) → IsKept this → Answers (process_added (suc this.add_queue.count) this)
unfolding with_added
added-Answers this v =
    let p = process_added_lem this v.tpb v.queue in
    elim (Bool-cases (is_short this.tunnel_tpb (contents this.add_queue))) [
      | inl e ↦ record { answer = false; state = this; ends = p.0 e; kept = v }
      | inr e ↦
          let a = p.1 e in
          record {
            answer = true;
            state = with_added this a.tpb a.queue;
            ends = a.ends;
            kept = record {
              tpb = a.tpb_valid;
              queue = a.queue_valid;
              table = v.table;
              counted = v.counted;
              counts = v.counts;
            };
          }
    ]
