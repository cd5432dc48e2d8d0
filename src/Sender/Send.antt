-- ===== src/Sender/Send.antt =====
-- The loop of `fill_message` that moves bytes from the clients' buffers to that of the tunnel.
use os_unixvr4_labs.Common.{
  ℕ, Bool, zero, suc, ◌+◌, ◌^◌, ◌≤◌, ◌<◌, ◌≡◌, ◌≢◌, refl, ap, ◌∙◌, subst, true, false, Option, none,
  some, arith, Bool-cases, Option-cases, inl, inr, ltb, if◌then◌else◌, ◌==◌, ==_iff, size_mod,
  sub_size, take, drop,
}
use os_unixvr4_labs.Cyclic.{CyclicBuffer, cb_shift, cb_skip}
use os_unixvr4_labs.TpBuffer.{TpBuffer, tpb_encapsulate}
use os_unixvr4_labs.Sender.Tunnel.{TunnelServer}
use os_unixvr4_labs.Sender.Rounds.{
  Outcome, done, overrun, reads_outside, sent_bytes, Lengths, next_order, send_some, to_send,
  fill_rounds, waiting, with_buffer,
}
use os_unixvr4_labs.Sender.Kept.{IsKept, with_buffer-IsKept}
use os_unixvr4_labs.Sender.Waiting.{waiting-update_le, waiting-update_lt, taken-le, taken-lt}
use os_unixvr4_labs.Sender.Fill.{Ends, ended_in, ran_over, encapsulate-IsValid}
use os_unixvr4_labs.Sender.Order.{Chosen, choose}

module _ (lengths : Lengths) (this : TunnelServer) (i c : ℕ) where
  abbrev client : ℕ
  client = this.list.id_table i

  abbrev shifted : CyclicBuffer
  shifted = cb_shift (this.list.client_buffers client)

  -- What `tpb_encapsulate` returns.
  abbrev put : ℕ × TpBuffer
  put =
      tpb_encapsulate lengths.first lengths.later this.tunnel_tpb
        (take c (drop shifted.start shifted.buf)) client

  sent_bytes-IsKept : IsKept this → IsKept (sent_bytes lengths this i c)
  unfolding sent_bytes
  sent_bytes-IsKept v =
      with_buffer-IsKept client (cb_skip shifted put.0)
        (record {
          tpb =
              encapsulate-IsValid lengths.first lengths.later this.tunnel_tpb
                (take c (drop shifted.start shifted.buf)) client v.tpb;
          queue = v.queue;
          table = v.table;
          counted = v.counted;
          counts = v.counts;
        })
        (omega (
          arith,
          v.counts client,
          taken-le (this.list.client_buffers client) put.0 (v.counts client),
        ))

  sent_bytes-le : IsKept this → waiting (sent_bytes lengths this i c) ≤ waiting this
  unfolding sent_bytes with_buffer
  sent_bytes-le v =
      waiting-update_le this.list.id_table this.list.client_buffers client (cb_skip shifted put.0)
        this.list.client_count (taken-le (this.list.client_buffers client) put.0 (v.counts client))

  -- Bytes that are sent to the end are bytes that no longer wait.
  sent_bytes-lt :
      IsKept this
      → i < this.list.client_count
      → 0 < (this.list.client_buffers client).count
      → 0 < c
      → c < size_mod
      → (sent_bytes lengths this i c).send_count ≡ 0
      → waiting (sent_bytes lengths this i c) < waiting this
  unfolding sent_bytes with_buffer
  sent_bytes-lt v l p q m z =
      waiting-update_lt this.list.id_table this.list.client_buffers client (cb_skip shifted put.0)
        this.list.client_count i l refl
        (taken-lt (this.list.client_buffers client) put.0 (v.counts client) (some_taken put.0 z) p)
    where
      some_taken : (n : ℕ) → (if ltb n (2 ^ 63) then sub_size c n else c) ≡ 0 → 0 < n
      some_taken n e = ground arith

module _ (fuel : ℕ) (lengths : ℕ → Lengths) (this : TunnelServer) where
  fill-nobody :
      next_order this ≡ some none
      → fill_rounds (suc fuel) lengths this ≡ done (record this { send_order = none })
  unfolding fill_rounds
  fill-nobody e = rw (e, fill_rounds) refl

  module _ (i : ℕ) (e : next_order this ≡ some (some i)) where
    abbrev sent : TunnelServer
    sent = sent_bytes (lengths fuel) this i (to_send this i)

    abbrev outside : Bool
    outside = reads_outside (lengths fuel) this i (to_send this i)

    fill-nothing :
        (to_send this i == 0) ≡ true
        → fill_rounds (suc fuel) lengths this ≡ done (record this { send_order = some i })
    unfolding fill_rounds
    fill-nothing n = rw (e, fill_rounds) (rw (n, fill_rounds) refl)

    some-outside : outside ≡ true → send_some (lengths fuel) this i (to_send this i) ≡ none
    unfolding send_some
    some-outside o = rw o refl

    some-inside : outside ≡ false → send_some (lengths fuel) this i (to_send this i) ≡ some sent
    unfolding send_some
    some-inside o = rw o refl

    fill-outside :
        (to_send this i == 0) ≡ false
        → outside ≡ true
        → fill_rounds (suc fuel) lengths this ≡ overrun (lengths fuel) this i
    unfolding fill_rounds
    fill-outside n o =
        rw (e, fill_rounds) (rw (n, fill_rounds) (rw (some-outside o, fill_rounds) refl))

    fill-more :
        (to_send this i == 0) ≡ false
        → outside ≡ false
        → (sent.send_count == 0) ≡ true
        → fill_rounds (suc fuel) lengths this ≡ fill_rounds fuel lengths sent
    unfolding fill_rounds
    fill-more n o m =
        rw (e, fill_rounds)
          (rw (n, fill_rounds) (rw (some-inside o, fill_rounds) (rw (m, fill_rounds) refl)))

    fill-over :
        (to_send this i == 0) ≡ false
        → outside ≡ false
        → (sent.send_count == 0) ≡ false
        → fill_rounds (suc fuel) lengths this ≡ done sent
    unfolding fill_rounds
    fill-over n o m =
        rw (e, fill_rounds)
          (rw (n, fill_rounds) (rw (some-inside o, fill_rounds) (rw (m, fill_rounds) refl)))

pub ended : {r s : Outcome} → r ≡ s → Ends s → Ends r
ended e (ended_in state q v) = ended_in state (e ∙ q) v
ended e (ran_over lengths state i q o v) = ran_over lengths state i (e ∙ q) o v

order-IsKept :
    {this : TunnelServer} (order : Option ℕ)
    → IsKept this
    → IsKept (record this { send_order = order })
order-IsKept order v = record {
  tpb = v.tpb;
  queue = v.queue;
  table = v.table;
  counted = v.counted;
  counts = v.counts;
}

-- One round, given that the rounds behind it end.
fill_round :
    (fuel : ℕ) (lengths : ℕ → Lengths) (this : TunnelServer)
    → IsKept this
    → ((i : ℕ)
        → Chosen.order (choose this) ≡ some i
        → to_send this i ≢ 0
        → (sent_bytes (lengths fuel) this i (to_send this i)).send_count ≡ 0
        → Ends (fill_rounds fuel lengths (sent_bytes (lengths fuel) this i (to_send this i))))
    → Ends (fill_rounds (suc fuel) lengths this)
fill_round fuel lengths this v behind = elim (Option-cases (choose this).order) [
  | inl o ↦
      ended_in (record this { send_order = none })
        (fill-nobody fuel lengths this ((choose this).ends ∙ ap some o)) (order-IsKept none v)
  | inr (i, o) ↦
      let e : next_order this ≡ some (some i) = (choose this).ends ∙ ap some o in
      let next : TunnelServer = sent_bytes (lengths fuel) this i (to_send this i) in
      elim (Bool-cases (to_send this i == 0)) [
        | inl n ↦
            ended_in (record this { send_order = some i }) (fill-nothing fuel lengths this i e n)
              (order-IsKept (some i) v)
        | inr n ↦ elim (Bool-cases (reads_outside (lengths fuel) this i (to_send this i))) [
          | inl x ↦ ran_over (lengths fuel) this i (fill-outside fuel lengths this i e n x) x v
          | inr x ↦ elim (Bool-cases (next.send_count == 0)) [
            | inl m ↦
                ended (fill-more fuel lengths this i e n x m)
                  (behind i o (ground (arith, n)) ((==_iff next.send_count 0).0 m))
            | inr m ↦
                ended_in next (fill-over fuel lengths this i e n x m)
                  (sent_bytes-IsKept (lengths fuel) this i (to_send this i) v)
          ]
        ]
      ]
]

to_send-fresh :
    (this : TunnelServer) (i : ℕ)
    → this.send_count ≡ 0
    → to_send this i ≡ (this.list.client_buffers (this.list.id_table i)).count
unfolding to_send
to_send-fresh this i z = ground (arith, z)

-- Between two clients, as many rounds as bytes wait are enough.
fill_waiting :
    (fuel : ℕ) (lengths : ℕ → Lengths) (this : TunnelServer)
    → IsKept this
    → this.send_count ≡ 0
    → waiting this < fuel
    → Ends (fill_rounds fuel lengths this)
fill_waiting zero lengths this v z f = absurd (omega arith)
fill_waiting (suc fuel) lengths this v z f = fill_round fuel lengths this v (λ i o n m.
    let (l, p) = (choose this).busy z i o in
    let c = to_send-fresh this i z in
    let less =
      sent_bytes-lt (lengths fuel) this i (to_send this i) v l p (omega (arith, c, p))
        (omega (arith, c, v.counts (this.list.id_table i))) m in
    fill_waiting fuel lengths (sent_bytes (lengths fuel) this i (to_send this i))
      (sent_bytes-IsKept (lengths fuel) this i (to_send this i) v) m (omega (arith, less, f)))

-- The loop of `fill_message` ends, with one round more for bytes that a call before has begun.
pub fill_rounds-Ends :
    (lengths : ℕ → Lengths) (this : TunnelServer)
    → IsKept this
    → Ends (fill_rounds (waiting this + 2) lengths this)
fill_rounds-Ends lengths this v =
    subst (λ n. Ends (fill_rounds n lengths this)) (two (waiting this))
      (fill_round (suc (waiting this)) lengths this v (λ i o n m.
        fill_waiting (suc (waiting this)) lengths
          (sent_bytes (lengths (suc (waiting this))) this i (to_send this i))
          (sent_bytes-IsKept (lengths (suc (waiting this))) this i (to_send this i) v) m
          (omega (arith, sent_bytes-le (lengths (suc (waiting this))) this i (to_send this i) v))))
  where
    two : (n : ℕ) → suc (suc n) ≡ n + 2
    two n = omega arith
